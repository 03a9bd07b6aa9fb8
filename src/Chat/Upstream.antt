-- ===== src/Chat/Upstream.antt =====
-- src/chat.rs: the errors, and the readers of upstream values.
use codex_api.Common.{
  ℕ, zero, suc, ◌/◌, ◌%◌, ℤ, true, false, Option, none, some, [], ◌∷◌, String, str_eq, ◌⧺◌, Result,
  ok, err, ◌>>=◌, ok_or, and_then, ltb, nat_eq, if◌then◌else◌,
}
use codex_api.Json.{Json, number}
use codex_api.Json.Access.{as_object, as_str, as_i64, json_object}
use codex_api.Terminal.Kind.{TerminalKind, completed, incomplete, failed, error, event_name}
use codex_api.Terminal.Event.{Usage}

pub data ChatErrorKind : Type 0 where
  invalid_request upstream_protocol : ChatErrorKind

pub record ChatError : Type 0 where
  pub kind : ChatErrorKind
  pub param : Option String
  pub message : String

unfoldable pub invalid_error : String → String → ChatError
invalid_error param message = record {
  kind = invalid_request;
  param = some param;
  message = message;
}

unfoldable pub upstream_chat_error : String → ChatError
upstream_chat_error message = record { kind = upstream_protocol; param = none; message = message }

pub data TerminalStatus : Type 0 where
  status_completed status_incomplete : TerminalStatus

-- The kinds that end in a completion.
unfoldable pub completion_status : TerminalKind → Result ChatError TerminalStatus
unfolding upstream_chat_error
completion_status completed = ok status_completed
completion_status incomplete = ok status_incomplete
completion_status failed =
    err (upstream_chat_error ("upstream emitted " ⧺ event_name failed ⧺ " instead of a completion"))
completion_status error =
    err (upstream_chat_error ("upstream emitted " ⧺ event_name error ⧺ " instead of a completion"))

abbrev digit : ℕ → String
digit n =
    if nat_eq n 0
    then "0"
    else if nat_eq n 1
    then "1"
    else if nat_eq n 2
    then "2"
    else if nat_eq n 3
    then "3"
    else if nat_eq n 4
    then "4"
    else if nat_eq n 5
    then "5"
    else if nat_eq n 6
    then "6"
    else if nat_eq n 7
    then "7"
    else if nat_eq n 8
    then "8"
    else "9"

abbrev show_digits : ℕ → ℕ → String
show_digits zero n = digit n
show_digits (suc fuel) n = elim (ltb n 10) [
  | true ↦ digit n
  | false ↦ show_digits fuel (n / 10) ⧺ digit (n % 10)
]

-- `Display` of a number: each digit takes one unit of fuel.
unfoldable pub show_number : ℕ → String
show_number n = show_digits n n

unfoldable pub finish_reason_of : String → Result ChatError String
finish_reason_of reason =
    if str_eq reason "max_output_tokens"
    then ok "length"
    else if str_eq reason "content_filter"
    then ok "content_filter"
    else err (upstream_chat_error ("unsupported incomplete response reason " ⧺ reason))

module _ ⦃J : Json⦄ where
  open J use {Value, Fields, make, get, from_u64, from_i64}

  unfoldable pub upstream_string : Fields → String → String → Result ChatError String
  unfolding upstream_chat_error
  upstream_string fields field context =
      ok_or (and_then (get fields field) as_str)
        (upstream_chat_error (context ⧺ "." ⧺ field ⧺ " must be a string"))

  unfoldable pub upstream_integer : Fields → String → String → Result ChatError ℤ
  unfolding upstream_chat_error
  upstream_integer fields field context =
      ok_or (and_then (get fields field) as_i64)
        (upstream_chat_error (context ⧺ "." ⧺ field ⧺ " must be an integer"))

  unfoldable pub incomplete_finish_reason : Fields → Result ChatError String
  unfolding upstream_chat_error upstream_string
  incomplete_finish_reason response = do
    details ←
        ok_or (and_then (get response "incomplete_details") as_object)
          (upstream_chat_error "incomplete response is missing incomplete_details")
    reason ← upstream_string details "reason" "incomplete response details"
    finish_reason_of reason

  abbrev pub json_count : ℕ → Value
  json_count n = make (number (from_u64 n))

  unfoldable pub chat_usage : Usage → Value
  unfolding json_object
  chat_usage usage = json_object (
      ("prompt_tokens", json_count usage.input_tokens)
      ∷ (
        "prompt_tokens_details",
        json_object (("cached_tokens", json_count usage.cached_input_tokens) ∷ []),
      )
      ∷ ("completion_tokens", json_count usage.output_tokens)
      ∷ (
        "completion_tokens_details",
        json_object (("reasoning_tokens", json_count usage.reasoning_tokens) ∷ []),
      )
      ∷ ("total_tokens", json_count usage.total_tokens)
      ∷ [])
