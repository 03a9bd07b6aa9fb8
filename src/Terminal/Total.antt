-- ===== src/Terminal/Total.antt =====
-- `parse_terminal_payload` always returns (src/responses_terminal.rs).
use codex_api.Common.{
  inl, inr, ◌≢◌, refl, not, String, err, Option-cases, and_then, filter_option, arith,
}
use codex_api.Json.{Json}
use codex_api.Json.Access.{as_str, is_null, is_object, get_field}
use codex_api.Terminal.Kind.{
  TerminalKind, completed, incomplete, failed, error, from_name, response_status,
}
use codex_api.Terminal.Event.{
  required_u64, optional_detail_u64, unreachable, missing_usage, read_usage, parse_usage,
  parse_response, parse_kind, parse_terminal_payload,
}

module _ ⦃J : Json⦄ where
  open J use {Value}

  required_u64-total :
      (v : Value) (f p : String) (k : TerminalKind) → required_u64 v f p k ≢ err unreachable
  unfolding required_u64
  required_u64-total v f p k e = ground arith

  optional_detail-total :
      (v : Value) (f p t q : String) (k : TerminalKind)
      → optional_detail_u64 v f p t q k ≢ err unreachable
  unfolding optional_detail_u64
  optional_detail-total v f p t q k e = ground arith

  read_usage-total : (v : Value) (k : TerminalKind) → read_usage v k ≢ err unreachable
  unfolding read_usage
  read_usage-total v k e = ground (
    arith,
    required_u64-total v "input_tokens" "response.usage.input_tokens" k,
    required_u64-total v "output_tokens" "response.usage.output_tokens" k,
    required_u64-total v "total_tokens" "response.usage.total_tokens" k,
    optional_detail-total v "input_tokens_details" "response.usage.input_tokens_details"
        "cached_tokens" "response.usage.input_tokens_details.cached_tokens" k,
    optional_detail-total v "output_tokens_details" "response.usage.output_tokens_details"
        "reasoning_tokens" "response.usage.output_tokens_details.reasoning_tokens" k,
  )

  missing_usage-total : (k : TerminalKind) → k ≢ error → missing_usage k ≢ err unreachable
  unfolding missing_usage
  missing_usage-total error n e = n refl
  missing_usage-total completed n e = cc
  missing_usage-total incomplete n e = cc
  missing_usage-total failed n e = cc

  parse_usage-total : (v : Value) (k : TerminalKind) → k ≢ error → parse_usage v k ≢ err unreachable
  unfolding parse_usage missing_usage
  parse_usage-total v k n e =
      elim (Option-cases (filter_option (λ usage. not (is_null usage)) (get_field v "usage"))) [
        | inl p ↦ missing_usage-total k n (rw (p, parse_usage) at e)
        | inr (w, p) ↦ read_usage-total w k (rw (p, parse_usage) at e)
      ]

  parse_response-total :
      (payload : Value) (k : TerminalKind) (s : String)
      → k ≢ error
      → parse_response payload k s ≢ err unreachable
  unfolding parse_response
  parse_response-total payload k s n e =
      elim (Option-cases (filter_option is_object (get_field payload "response"))) [
        | inl p ↦ cc (rw (p, parse_response) at e)
        | inr (r, p) ↦ ground (arith, p, parse_usage-total r k n)
      ]

  parse_kind-total : (payload : Value) (k : TerminalKind) → parse_kind payload k ≢ err unreachable
  unfolding parse_kind response_status
  parse_kind-total payload error e = cc
  parse_kind-total payload completed e =
      parse_response-total payload completed "completed" (λ p. cc) e
  parse_kind-total payload incomplete e =
      parse_response-total payload incomplete "incomplete" (λ p. cc) e
  parse_kind-total payload failed e = parse_response-total payload failed "failed" (λ p. cc) e

  -- The parser never comes to what the source marks as unreachable, on any payload.
  pub parse_terminal_payload_total :
      (payload : Value) → parse_terminal_payload payload ≢ err unreachable
  unfolding parse_terminal_payload
  parse_terminal_payload_total payload e =
      elim (Option-cases (and_then (and_then (get_field payload "type") as_str) from_name)) [
        | inl p ↦ cc (rw (p, parse_terminal_payload) at e)
        | inr (k, p) ↦ ground (arith, p, parse_kind-total payload k)
      ]
