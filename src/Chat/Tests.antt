-- ===== src/Chat/Tests.antt =====
-- Runs of the Chat conversion (src/chat.rs).
use codex_api.Common.{◌≡◌, refl, pos, true, none, some, [], ◌∷◌, ok}
use codex_api.Json.Plain.{plain_json}
use codex_api.Json.Trees.{Plain, p_number, p_string, p_array, p_object, nil, end, member}
use codex_api.Json.Access.{as_object, as_array, as_str, as_i64, get_field, json_object, json_string}
use codex_api.Terminal.Kind.{completed}
use codex_api.Terminal.Event.{Usage, TerminalEvent}
use codex_api.Chat.Upstream.{
  status_completed, completion_status, upstream_string, upstream_integer, chat_usage, show_number,
}
use codex_api.Chat.Output.{convert_output, convert_items}
use codex_api.Chat.Stream.{
  ChatStreamConverter, new_converter, metadata, metadata_of, capture_metadata, chunk_value,
  choices_value, chunk, usage_chunk, created_chunk, convert_event, final_chunks, convert_terminal,
  ConvertedStreamTerminal,
}
use codex_api.Chat.Terminal.{
  ConvertedTerminal, convert_response, convert_terminal_event, completion_value,
}
use codex_api.Chat.Metadata.{Names, convert_event-Names}
use codex_api.Chat.Status.{convert_terminal-agrees}

twelve : show_number 120 ≡ "120"
unfolding show_number
twelve = refl

abbrev response : Plain
response = p_object (
    member "object" (p_string "response") (
      member "id" (p_string "resp_1") (
        member "created_at" (p_number (pos 7))
          (member "model" (p_string "gpt-5") (member "output" (p_array nil) end)))))

abbrev created_event : Plain
created_event =
    p_object (member "type" (p_string "response.created") (member "response" response end))

abbrev captured : ChatStreamConverter
captured = record {
  id = some "resp_1";
  created = some (pos 7);
  model = some "gpt-5";
  include_usage = true;
}

abbrev first_chunk : Plain
first_chunk =
    chunk_value (record { id = "resp_1"; created = pos 7; model = "gpt-5" })
      ((
        "choices",
        choices_value
            (json_object (("role", json_string "assistant") ∷ ("content", json_string "") ∷ []))
            none,
      )
        ∷ [])

converts : convert_event created_event (new_converter true) ≡ (ok (some first_chunk), captured)
unfolding convert_event new_converter capture_metadata created_chunk chunk metadata metadata_of
    upstream_string upstream_integer get_field as_object as_str as_i64
converts = refl

convert_event-Names_example : Names first_chunk captured
convert_event-Names_example =
    convert_event-Names created_event first_chunk (new_converter true) captured converts

abbrev usage : Usage
usage = record {
  input_tokens = 3;
  cached_input_tokens = 0;
  output_tokens = 2;
  reasoning_tokens = 0;
  total_tokens = 5;
}

abbrev terminal : TerminalEvent
terminal = record {
  kind = completed;
  payload =
      p_object (member "type" (p_string "response.completed") (member "response" response end));
  usage = some usage;
}

abbrev stream_end : ConvertedStreamTerminal
stream_end = record {
  chunks =
      chunk_value (record { id = "resp_1"; created = pos 7; model = "gpt-5" })
        (("choices", choices_value (json_object []) (some "stop")) ∷ [])
      ∷ chunk_value (record { id = "resp_1"; created = pos 7; model = "gpt-5" })
          (("choices", p_array nil) ∷ ("usage", chat_usage usage) ∷ [])
      ∷ [];
  usage = usage;
  status = status_completed;
}

abbrev plain_end : ConvertedTerminal
plain_end = record {
  chat_completion =
      completion_value "resp_1" (pos 7) "gpt-5"
        (record { text = none; refusal = none; tool_calls = [] }) "stop" usage;
  usage = usage;
  status = status_completed;
}

ends_stream : convert_terminal terminal captured ≡ (ok stream_end, captured)
unfolding convert_terminal completion_status capture_metadata final_chunks chunk usage_chunk
    metadata metadata_of upstream_string upstream_integer get_field as_object as_str as_i64
ends_stream = refl

ends_plain : convert_terminal_event terminal ≡ ok plain_end
unfolding convert_terminal_event completion_status convert_response convert_output convert_items
    upstream_string upstream_integer get_field as_object as_array as_str as_i64
ends_plain = refl

convert_terminal-agrees_example :
    (stream_end.status ≡ plain_end.status)
    × (stream_end.usage ≡ plain_end.usage)
    × (terminal.usage ≡ some plain_end.usage)
    × (completion_status terminal.kind ≡ ok plain_end.status)
convert_terminal-agrees_example =
    convert_terminal-agrees terminal captured captured stream_end plain_end ends_stream ends_plain
