-- ===== src/Chat/Request/Convert.antt =====
-- src/chat.rs: `convert_request`, in two parts: reading the fields of the request, and building the
-- request that goes upstream.
use codex_api.Common.{
  not, ◌&&◌, Bool, true, false, Option, none, some, is_some, List, [], ◌∷◌, String, str_eq, Result,
  ok, ◌>>=◌, ◌>>◌, ensure,
}
use codex_api.Json.{Json, bool, array, object}
use codex_api.Json.Access.{json_object, json_string}
use codex_api.Chat.Upstream.{ChatError, invalid_error}
use codex_api.Chat.Request.Fields.{
  into_request_object, take_request_string, take_required, request_bool, convert_stream,
  convert_stream_options, validate_n, validate_ignored_completion_limit, convert_reasoning_effort,
  convert_response_format, reject_unknown_request_fields, convert_option, flag_or_false,
}
use codex_api.Chat.Request.Messages.{convert_messages}
use codex_api.Chat.Request.Tools.{convert_tools, convert_tool_choice}

module _ ⦃J : Json⦄ where
  open J use {Value, Fields, make, get, insert, remove, empty}

  pub record ConvertedRequest : Type 0 where
    pub upstream_request : Value
    pub model : String
    pub reasoning_effort : Option String
    pub stream : Bool
    pub include_usage : Bool

  -- The fields that have to do with tools, and what remains of the request.
  pub record ToolFields : Type 0 where
    pub tools : Option Value
    pub tool_choice : Option Value
    pub parallel_tool_calls : Option Bool

  pub record RequestFields : Type 0 where
    pub model : String
    pub messages : Value
    pub stream : Bool
    pub include_usage : Bool
    pub tool_fields : ToolFields
    pub reasoning_effort : Option String
    pub text : Option Value

  unfoldable pub convert_tool_fields : Bool → Fields → Result ChatError ToolFields
  convert_tool_fields stream request = do
    tools ← convert_option convert_tools (get request "tools")
    ensure (not (stream && is_some tools))
        (invalid_error "tools" "tools are not supported with streaming Chat Completions")
    tool_choice ← convert_option convert_tool_choice (get request "tool_choice")
    parallel_tool_calls ←
        convert_option (λ v. request_bool v "parallel_tool_calls")
          (get request "parallel_tool_calls")
    ok (record {
      tools = tools;
      tool_choice = tool_choice;
      parallel_tool_calls = parallel_tool_calls;
    })

  unfoldable pub convert_stream_fields : Fields → Result ChatError (Bool × Bool)
  convert_stream_fields request = do
    stream ← convert_stream (get request "stream")
    include_usage ← convert_option (convert_stream_options stream) (get request "stream_options")
    ok (stream, flag_or_false include_usage)

  -- What is left of a request once `convert_request` took its fields.
  abbrev pub untaken : List String → Fields → Fields
  untaken [] request = request
  untaken (field ∷ fields) request = untaken fields (remove request field)

  abbrev pub optional_fields : List String
  optional_fields =
      "stream" ∷ "stream_options" ∷ "n" ∷ "tools" ∷ "tool_choice" ∷ "parallel_tool_calls"
      ∷ "reasoning_effort" ∷ "max_completion_tokens" ∷ "max_tokens" ∷ "response_format" ∷ []

  -- The fields after the model and the messages.
  unfoldable pub optional_parts : String → Value → Fields → Result ChatError RequestFields
  optional_parts model messages rest = do
    (stream, include_usage) ← convert_stream_fields rest
    validate_n (get rest "n")
    tool_fields ← convert_tool_fields stream rest
    reasoning_effort ← convert_reasoning_effort (get rest "reasoning_effort")
    validate_ignored_completion_limit "max_completion_tokens" (get rest "max_completion_tokens")
    validate_ignored_completion_limit "max_tokens" (get rest "max_tokens")
    text ← convert_response_format (get rest "response_format")
    reject_unknown_request_fields (untaken optional_fields rest) "request"
    ok (record {
      model = model;
      messages = messages;
      stream = stream;
      include_usage = include_usage;
      tool_fields = tool_fields;
      reasoning_effort = reasoning_effort;
      text = text;
    })

  unfoldable pub request_fields : Value → Result ChatError RequestFields
  request_fields value = do
    request ← into_request_object value "request"
    (model, unmodelled) ← take_request_string request "model" "model"
    ensure (not (str_eq model "")) (invalid_error "model" "model must not be empty")
    (messages, rest) ← take_required unmodelled "messages" "messages"
    optional_parts model messages rest

  abbrev pub insert_some : String → Option Value → Fields → Fields
  insert_some key none fields = fields
  insert_some key (some value) fields = insert fields key value

  abbrev pub effort_value : Option String → Option Value
  effort_value none = none
  effort_value (some effort) = some (json_object (("effort", json_string effort) ∷ []))

  abbrev pub bool_value : Option Bool → Option Value
  bool_value none = none
  bool_value (some b) = some (make (bool b))

  abbrev pub string_value : Option String → Option Value
  string_value none = none
  string_value (some s) = some (json_string s)

  unfoldable pub required_upstream : String → List Value → Fields
  required_upstream model input =
      insert
        (insert (insert (insert empty "model" (json_string model)) "input" (make (array input)))
          "stream" (make (bool true)))
        "store" (make (bool false))

  unfoldable pub upstream_fields : RequestFields → Option String → List Value → Fields
  upstream_fields fields instructions input = insert_some "text" fields.text (
      insert_some "reasoning" (effort_value fields.reasoning_effort) (
        insert_some "parallel_tool_calls" (bool_value fields.tool_fields.parallel_tool_calls) (
          insert_some "tool_choice" fields.tool_fields.tool_choice (
            insert_some "tools" fields.tool_fields.tools (
              insert_some "instructions" (string_value instructions)
                (required_upstream fields.model input))))))

  unfoldable pub convert_request : Value → Result ChatError ConvertedRequest
  convert_request value = do
    fields ← request_fields value
    (instructions, input) ← convert_messages fields.messages
    ok (record {
      upstream_request = make (object (upstream_fields fields instructions input));
      model = fields.model;
      reasoning_effort = fields.reasoning_effort;
      stream = fields.stream;
      include_usage = fields.include_usage;
    })
