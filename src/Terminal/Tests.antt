-- ===== src/Terminal/Tests.antt =====
-- Runs of the terminal event parser (src/responses_terminal.rs).
use codex_api.Common.{ℕ, none, List, Bool, false, ◌≡◌, refl, pos, some, ok}
use codex_api.Json.Plain.{plain_json}
use codex_api.Json.Trees.{Plain, p_number, p_string, p_object, end, member}
use codex_api.Json.Access.{
  index, set_index, json_object, json_string, as_object, as_str, as_u64, is_null, is_object,
  get_field,
}
use codex_api.Terminal.Kind.{failed, error, completed, from_name, response_status}
use codex_api.Terminal.Capacity.{
  upstream_error_of, upstream_error, valid_advice, find_advice, retry_after, without_advice,
  advised_headers, wrap_error, rewrite, retryable_capacity_payload,
}
use codex_api.Terminal.Rewritten.{retryable_capacity_payload-parses}
use codex_api.Terminal.Event.{
  TerminalEvent, required_u64, optional_detail_u64, read_usage, parse_usage, parse_response,
  parse_kind, parse_terminal_payload,
}
use codex_api.Terminal.Validated.{IsValidated, parse_terminal_payload-IsValidated}

abbrev payload : Plain
payload = p_object (
    member "type" (p_string "response.completed") (
      member "response"
        (p_object (
          member "status" (p_string "completed") (
            member "usage"
              (p_object (
                member "input_tokens" (p_number (pos 7)) (
                  member "output_tokens" (p_number (pos 5))
                    (member "total_tokens" (p_number (pos 12)) end))))
              end)))
        end))

abbrev event : TerminalEvent
event = record {
  kind = completed;
  payload = payload;
  usage = some (record {
    input_tokens = 7;
    cached_input_tokens = 0;
    output_tokens = 5;
    reasoning_tokens = 0;
    total_tokens = 12;
  });
}

parses : parse_terminal_payload payload ≡ ok (some event)
unfolding parse_terminal_payload parse_kind parse_response parse_usage read_usage required_u64
    optional_detail_u64 from_name response_status get_field as_object as_str as_u64 is_null
    is_object
parses = refl

parse_terminal_payload-IsValidated_example : IsValidated payload event
parse_terminal_payload-IsValidated_example = parse_terminal_payload-IsValidated payload event parses

abbrev overloaded : Plain
overloaded = p_object (
    member "type" (p_string "error")
      (member "error" (p_object (member "code" (p_string "slow_down") end)) end))

abbrev no_date : List ℕ → Bool
no_date s = false

abbrev rewritten : Plain
rewritten = p_object (
    member "type" (p_string "response.failed") (
      member "response"
        (p_object (
          member "status" (p_string "failed") (
            member "error"
              (p_object (
                member "code" (p_string "slow_down")
                  (member "headers" (p_object (member "Retry-After" (p_string "30") end)) end)))
              end)))
        end))

rewrites :
    retryable_capacity_payload no_date (record { kind = error; payload = overloaded; usage = none })
    ≡ some (some rewritten)
unfolding retryable_capacity_payload upstream_error upstream_error_of rewrite wrap_error
    advised_headers retry_after find_advice without_advice valid_advice get_field as_object as_str
    is_object index set_index json_object json_string
rewrites = refl

retryable_capacity_payload-parses_example :
    parse_terminal_payload rewritten
    ≡ ok (some (record { kind = failed; payload = rewritten; usage = none }))
retryable_capacity_payload-parses_example =
    retryable_capacity_payload-parses no_date overloaded rewritten rewrites
