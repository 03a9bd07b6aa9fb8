-- ===== src/Sse/Tests.antt =====
-- Runs of the event reader (src/sse.rs).
use codex_api.Common.{◌≡◌, refl, ◌⊎◌, none, some, String, ok}
use codex_api.Json.Plain.{plain_json}
use codex_api.Json.Trees.{Plain, p_string, p_object, end, member}
use codex_api.Json.Access.{as_str, get_field}
use codex_api.Terminal.Kind.{error, from_name}
use codex_api.Terminal.Event.{TerminalEvent, parse_terminal_payload, parse_kind}
use codex_api.Sse.Reader.{Event, agree, validate_event}
use codex_api.Sse.Agreement.{validate_event-agrees}

abbrev record_of : String → String → Event
record_of name text = record { event = name; id = ""; text = text; retry = none }

abbrev terminal : TerminalEvent
terminal = record {
  kind = error;
  payload = p_object (member "type" (p_string "error") end);
  usage = none;
}

validates : validate_event (record_of "message" "{\"type\":\"error\"}") ≡ ok (some terminal)
unfolding validate_event agree parse_terminal_payload parse_kind from_name get_field as_str
validates = refl

validate_event-agrees_example :
    (payload : Plain) × (plain_json.from_str "{\"type\":\"error\"}" ≡ some payload)
    × (parse_terminal_payload payload ≡ ok (some terminal))
    × ((from_name "message" ≡ none) ⊎ (from_name "message" ≡ some error))
validate_event-agrees_example =
    validate_event-agrees (record_of "message" "{\"type\":\"error\"}") terminal validates
