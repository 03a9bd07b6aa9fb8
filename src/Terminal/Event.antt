-- ===== src/Terminal/Event.antt =====
-- src/responses_terminal.rs: `parse_terminal_payload`, which validates a terminal payload and
-- reads its token usage.
use codex_api.Common.{
  ℕ, not, Option, none, some, String, str_eq, Result, ok, err, ◌>>=◌, ◌>>◌, ensure, ok_or, leb,
  and_then, filter_option, if◌then◌else◌,
}
use codex_api.Json.{Json}
use codex_api.Json.Access.{as_object, as_str, as_u64, is_null, is_object, get_field}
use codex_api.Terminal.Kind.{
  TerminalKind, completed, incomplete, failed, error, event_name, from_name, response_status,
  same_kind,
}

pub record Usage : Type 0 where
  pub input_tokens : ℕ
  pub cached_input_tokens : ℕ
  pub output_tokens : ℕ
  pub reasoning_tokens : ℕ
  pub total_tokens : ℕ

pub data ProtocolError : Type 0 where
  invalid_terminal_field : String → String → String → ProtocolError
  terminal_status_mismatch : String → String → String → ProtocolError
  cached_input_exceeds_input : String → ProtocolError
  reasoning_exceeds_output : String → ProtocolError

-- What the source marks as unreachable, beside the error results.
pub data Failure : Type 0 where
  protocol : ProtocolError → Failure
  unreachable : Failure

abbrev pub invalid_field : TerminalKind → String → String → Failure
invalid_field kind field expected =
    protocol (invalid_terminal_field (event_name kind) field expected)

module _ ⦃J : Json⦄ where
  open J use {Value, get}

  pub record TerminalEvent : Type 0 where
    pub kind : TerminalKind
    pub payload : Value
    pub usage : Option Usage

  unfoldable pub required_u64 : Value → String → String → TerminalKind → Result Failure ℕ
  required_u64 object field field_path kind =
      ok_or (and_then (get_field object field) as_u64)
        (invalid_field kind field_path "a non-negative integer")

  unfoldable pub optional_detail_u64 :
      Value → String → String → String → String → TerminalKind → Result Failure ℕ
  optional_detail_u64 usage details_field details_path token_field token_path kind =
      elim (filter_option (λ details. not (is_null details)) (get_field usage details_field)) [
        | none ↦ ok 0
        | some details ↦ do
          details ← ok_or (as_object details) (invalid_field kind details_path "an object")
          elim (get details token_field) [
            | none ↦ ok 0
            | some value ↦
                ok_or (as_u64 value) (invalid_field kind token_path "a non-negative integer")
          ]
      ]

  -- What a missing or null usage means.
  unfoldable pub missing_usage : TerminalKind → Result Failure (Option Usage)
  missing_usage failed = ok none
  missing_usage completed = err (invalid_field completed "response.usage" "an object")
  missing_usage incomplete = err (invalid_field incomplete "response.usage" "an object")
  missing_usage error = err unreachable

  unfoldable pub read_usage : Value → TerminalKind → Result Failure (Option Usage)
  read_usage usage kind = do
    ensure (is_object usage) (invalid_field kind "response.usage" "an object or null")
    input_tokens ← required_u64 usage "input_tokens" "response.usage.input_tokens" kind
    output_tokens ← required_u64 usage "output_tokens" "response.usage.output_tokens" kind
    total_tokens ← required_u64 usage "total_tokens" "response.usage.total_tokens" kind
    cached_input_tokens ←
        optional_detail_u64 usage "input_tokens_details" "response.usage.input_tokens_details"
          "cached_tokens" "response.usage.input_tokens_details.cached_tokens" kind
    reasoning_tokens ←
        optional_detail_u64 usage "output_tokens_details" "response.usage.output_tokens_details"
          "reasoning_tokens" "response.usage.output_tokens_details.reasoning_tokens" kind
    ensure (leb cached_input_tokens input_tokens)
        (protocol (cached_input_exceeds_input (event_name kind)))
    ensure (leb reasoning_tokens output_tokens)
        (protocol (reasoning_exceeds_output (event_name kind)))
    ok (
        some (record {
          input_tokens = input_tokens;
          cached_input_tokens = cached_input_tokens;
          output_tokens = output_tokens;
          reasoning_tokens = reasoning_tokens;
          total_tokens = total_tokens;
        }))

  unfoldable pub parse_usage : Value → TerminalKind → Result Failure (Option Usage)
  parse_usage response kind =
      elim (filter_option (λ usage. not (is_null usage)) (get_field response "usage")) [
        | none ↦ missing_usage kind
        | some usage ↦ read_usage usage kind
      ]

  -- The kinds that carry a response: its status must be the kind's, and its usage is read.
  unfoldable pub parse_response : Value → TerminalKind → String → Result Failure TerminalEvent
  parse_response payload kind expected_status = do
    response ←
        ok_or (filter_option is_object (get_field payload "response"))
          (invalid_field kind "response" "an object")
    status ←
        ok_or (and_then (get_field response "status") as_str)
          (invalid_field kind "response.status" "a string")
    ensure (str_eq status expected_status)
        (protocol (terminal_status_mismatch (event_name kind) status expected_status))
    usage ← parse_usage response kind
    ok (record { kind = kind; payload = payload; usage = usage })

  -- The source asks for the expected status after the response, and never misses it.
  unfoldable pub parse_kind : Value → TerminalKind → Result Failure TerminalEvent
  parse_kind payload kind =
      if same_kind kind error
      then ok (record { kind = kind; payload = payload; usage = none })
      else elim (response_status kind) [
        | none ↦ err unreachable
        | some expected_status ↦ parse_response payload kind expected_status
      ]

  unfoldable pub parse_terminal_payload : Value → Result Failure (Option TerminalEvent)
  parse_terminal_payload payload =
      elim (and_then (and_then (get_field payload "type") as_str) from_name) [
        | none ↦ ok none
        | some kind ↦ (do event ← parse_kind payload kind; ok (some event))
      ]
