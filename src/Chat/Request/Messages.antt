-- ===== src/Chat/Request/Messages.antt =====
-- src/chat.rs: `convert_messages` with the messages of each role.
use codex_api.Common.{
  ℕ, suc, not, ◌||◌, Option, none, some, is_empty, List, [], ◌∷◌, ◌++◌, String, str_eq, ◌⧺◌, Result,
  ok, err, ◌>>=◌, ◌>>◌, ensure, ok_or, filter_option, is_some, if◌then◌else◌,
}
use codex_api.Json.{Json, array}
use codex_api.Json.Access.{as_object, as_array, is_null, json_object, json_string}
use codex_api.Chat.Upstream.{ChatError, invalid_error, show_number}
use codex_api.Chat.Request.Fields.{
  into_request_object, take_request_string, take_required, reject_unknown_request_fields,
}
use codex_api.Chat.Request.Text.{parse_text_parts, convert_text_content, concat_texts, join_lines}

module _ ⦃J : Json⦄ where
  open J use {Value, Fields, make, get, remove}

  -- The system texts and the input so far.
  pub record Converted : Type 0 where
    pub system_messages : List String
    pub input : List Value

  abbrev pub push : Converted → Value → Converted
  push c item = record c { input = c.input ++ item ∷ [] }

  unfoldable pub text_message : String → List Value → Value
  text_message role parts = json_object (
      ("type", json_string "message")
      ∷ ("role", json_string role)
      ∷ ("content", make (array parts))
      ∷ [])

  unfoldable pub convert_system_message : Fields → String → Converted → Result ChatError Converted
  convert_system_message message context c = do
    (content, rest) ← take_required message "content" (context ⧺ ".content")
    reject_unknown_request_fields rest context
    texts ← parse_text_parts content (context ⧺ ".content")
    ok (record c { system_messages = c.system_messages ++ join_lines texts ∷ [] })

  unfoldable pub convert_user_message :
      String → Fields → String → Converted → Result ChatError Converted
  convert_user_message role message context c = do
    (content, rest) ← take_required message "content" (context ⧺ ".content")
    reject_unknown_request_fields rest context
    parts ← convert_text_content content (context ⧺ ".content") "input_text"
    ok (push c (text_message role parts))

  unfoldable pub convert_assistant_tool_call : Value → String → Result ChatError Value
  convert_assistant_tool_call value context = do
    call ← ok_or (as_object value) (invalid_error context (context ⧺ " must be an object"))
    (id, with_type) ← take_request_string call "id" (context ⧺ ".id")
    (call_type, with_function) ← take_request_string with_type "type" (context ⧺ ".type")
    ensure (str_eq call_type "function")
        (invalid_error (context ⧺ ".type") "only function tool calls are supported")
    (function_value, rest) ← take_required with_function "function" (context ⧺ ".function")
    reject_unknown_request_fields rest context
    function ← into_request_object function_value (context ⧺ ".function")
    (name, with_arguments) ← take_request_string function "name" (context ⧺ ".function" ⧺ ".name")
    (arguments, others) ←
        take_request_string with_arguments "arguments" (context ⧺ ".function" ⧺ ".arguments")
    reject_unknown_request_fields others (context ⧺ ".function")
    ok (
        json_object (
          ("type", json_string "function_call")
          ∷ ("call_id", json_string id)
          ∷ ("name", json_string name)
          ∷ ("arguments", json_string arguments)
          ∷ []))

  unfoldable pub convert_calls : String → ℕ → List Value → Converted → Result ChatError Converted
  convert_calls context index [] c = ok c
  convert_calls context index (call ∷ calls) c = do
    item ← convert_assistant_tool_call call (context ⧺ ".tool_calls[" ⧺ show_number index ⧺ "]")
    convert_calls context (suc index) calls (push c item)

  abbrev pub present : Option Value → Option Value
  present found = filter_option (λ value. not (is_null value)) found

  unfoldable pub assistant_text : Option Value → String → Converted → Result ChatError Converted
  assistant_text none context c = ok c
  assistant_text (some content) context c = do
    parts ← convert_text_content content (context ⧺ ".content") "output_text"
    ok (push c (text_message "assistant" parts))

  unfoldable pub assistant_calls : Option Value → String → Converted → Result ChatError Converted
  assistant_calls none context c = ok c
  assistant_calls (some tool_calls) context c = do
    calls ←
        ok_or (as_array tool_calls)
          (invalid_error (context ⧺ ".tool_calls") (context ⧺ ".tool_calls must be an array"))
    ensure (not (is_empty calls))
        (invalid_error (context ⧺ ".tool_calls") (context ⧺ ".tool_calls must not be empty"))
    convert_calls context 0 calls c

  unfoldable pub convert_assistant_message :
      Fields → String → Converted → Result ChatError Converted
  convert_assistant_message message context c = do
    let content = present (get message "content")
    let tool_calls = present (get (remove message "content") "tool_calls")
    reject_unknown_request_fields (remove (remove message "content") "tool_calls") context
    with_text ← assistant_text content context c
    with_calls ← assistant_calls tool_calls context with_text
    ensure (is_some content || is_some tool_calls) (
        invalid_error (context ⧺ ".content")
          "assistant message must contain text or function tool calls")
    ok with_calls

  unfoldable pub convert_tool_message : Fields → String → Converted → Result ChatError Converted
  convert_tool_message message context c = do
    (call_id, with_content) ← take_request_string message "tool_call_id" (context ⧺ ".tool_call_id")
    (content, rest) ← take_required with_content "content" (context ⧺ ".content")
    reject_unknown_request_fields rest context
    texts ← parse_text_parts content (context ⧺ ".content")
    ok (
        push c (
          json_object (
            ("type", json_string "function_call_output")
            ∷ ("call_id", json_string call_id)
            ∷ ("output", json_string (concat_texts texts))
            ∷ [])))

  unfoldable pub convert_role : String → Fields → String → Converted → Result ChatError Converted
  convert_role role message context c =
      if str_eq role "system"
      then convert_system_message message context c
      else if str_eq role "developer" || str_eq role "user"
      then convert_user_message role message context c
      else if str_eq role "assistant"
      then convert_assistant_message message context c
      else if str_eq role "tool"
      then convert_tool_message message context c
      else if str_eq role "function"
      then err (invalid_error (context ⧺ ".role") "legacy function-role messages are not supported")
      else err (invalid_error (context ⧺ ".role") ("unsupported message role " ⧺ role))

  unfoldable pub convert_message : String → Value → Converted → Result ChatError Converted
  convert_message context value c = do
    message ← ok_or (as_object value) (invalid_error context (context ⧺ " must be an object"))
    (role, rest) ← take_request_string message "role" (context ⧺ ".role")
    convert_role role rest context c

  unfoldable pub convert_each : ℕ → List Value → Converted → Result ChatError Converted
  convert_each index [] c = ok c
  convert_each index (value ∷ values) c = do
    after ← convert_message ("messages[" ⧺ show_number index ⧺ "]") value c
    convert_each (suc index) values after

  abbrev pub instructions_of : List String → Option String
  instructions_of [] = none
  instructions_of (text ∷ texts) = some (join_lines (text ∷ texts))

  unfoldable pub convert_messages : Value → Result ChatError (Option String × List Value)
  convert_messages value = do
    messages ← ok_or (as_array value) (invalid_error "messages" "messages must be an array")
    ensure (not (is_empty messages))
        (invalid_error "messages" "messages must contain at least one message")
    c ← convert_each 0 messages (record { system_messages = []; input = [] })
    ok (instructions_of c.system_messages, c.input)
