-- ===== src/Chat/Terminal.antt =====
-- src/chat.rs: `convert_terminal_event`, the non-streaming completion.
use codex_api.Common.{
  ℤ, not, Option, List, [], ◌∷◌, is_empty, String, str_eq, Result, ok, ◌>>=◌, ◌>>◌, ensure, ok_or,
  and_then, if◌then◌else◌,
}
use codex_api.Json.{Json, array, number, null}
use codex_api.Json.Access.{as_object, as_array, json_object, json_string, json_option}
use codex_api.Terminal.Event.{Usage, TerminalEvent}
use codex_api.Chat.Upstream.{
  ChatError, TerminalStatus, status_completed, status_incomplete, upstream_chat_error,
  upstream_string, upstream_integer, completion_status, incomplete_finish_reason, chat_usage,
  json_count,
}
use codex_api.Chat.Output.{ConvertedOutput, convert_output}

module _ ⦃J : Json⦄ where
  open J use {Value, Fields, make, get, from_i64, empty}

  pub record ConvertedTerminal : Type 0 where
    pub chat_completion : Value
    pub usage : Usage
    pub status : TerminalStatus

  abbrev pub terminal_reason : TerminalStatus → List Value → Fields → Result ChatError String
  terminal_reason status_completed tool_calls response =
      if not (is_empty tool_calls) then ok "tool_calls" else ok "stop"
  terminal_reason status_incomplete tool_calls response = incomplete_finish_reason response

  unfoldable pub message_value : ConvertedOutput → Value
  message_value output = json_object (
      ("role", json_string "assistant")
      ∷ ("content", json_option output.text)
      ∷ ("refusal", json_option output.refusal)
      ∷ (if is_empty output.tool_calls
          then []
          else ("tool_calls", make (array output.tool_calls)) ∷ []))

  unfoldable pub completion_value : String → ℤ → String → ConvertedOutput → String → Usage → Value
  completion_value id created model output finish_reason usage = json_object (
      ("id", json_string id)
      ∷ ("object", json_string "chat.completion")
      ∷ ("created", make (number (from_i64 created)))
      ∷ ("model", json_string model)
      ∷ (
        "choices",
        make (
            array (
              json_object (
                ("index", json_count 0)
                ∷ ("message", message_value output)
                ∷ ("logprobs", make null)
                ∷ ("finish_reason", json_string finish_reason)
                ∷ [])
              ∷ [])),
      )
      ∷ ("usage", chat_usage usage)
      ∷ [])

  unfoldable pub convert_response :
      TerminalStatus → Option Usage → Fields → Result ChatError ConvertedTerminal
  convert_response status found response = do
    kind ← upstream_string response "object" "terminal response"
    ensure (str_eq kind "response")
        (upstream_chat_error "terminal response has an invalid object type")
    id ← upstream_string response "id" "terminal response"
    ensure (not (str_eq id "")) (upstream_chat_error "terminal response id must not be empty")
    model ← upstream_string response "model" "terminal response"
    ensure (not (str_eq model "")) (upstream_chat_error "terminal response model must not be empty")
    created ← upstream_integer response "created_at" "terminal response"
    usage ← ok_or found (upstream_chat_error "terminal response is missing usage")
    output ←
        ok_or (and_then (get response "output") as_array)
          (upstream_chat_error "terminal response output must be an array")
    converted ← convert_output output
    finish_reason ← terminal_reason status converted.tool_calls response
    ok (record {
      chat_completion = completion_value id created model converted finish_reason usage;
      usage = usage;
      status = status;
    })

  unfoldable pub convert_terminal_event : TerminalEvent → Result ChatError ConvertedTerminal
  convert_terminal_event terminal = do
    status ← completion_status terminal.kind
    event ←
        ok_or (as_object terminal.payload)
          (upstream_chat_error "terminal Responses event must be an object")
    response ←
        ok_or (and_then (get event "response") as_object)
          (upstream_chat_error "terminal event is missing its response object")
    convert_response status terminal.usage response
