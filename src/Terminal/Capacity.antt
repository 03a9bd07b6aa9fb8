-- ===== src/Terminal/Capacity.antt =====
-- src/responses_terminal.rs: `TerminalEvent::upstream_error` and
-- `TerminalEvent::retryable_capacity_payload`. A panic is `none`.
use codex_api.Common.{
  ℕ, ◌^◌, not, Bool, false, ◌&&◌, ◌||◌, Option, none, some, List, [], ◌∷◌, ◌++◌, String, str_eq,
  codes, all, is_digit, is_empty, trim_codes, decimal, same_ignoring_case, ltb, is_some, and_then,
  filter_option, unwrap_or, if◌then◌else◌,
}
use codex_api.Json.{View, number, string, object, Json}
use codex_api.Json.Access.{
  as_object, as_str, get_field, index, is_object, json_object, json_string, pointer, set_index,
  fields_of,
}
use codex_api.Terminal.Kind.{TerminalKind, completed, incomplete, failed, error, same_kind}
use codex_api.Terminal.Event.{TerminalEvent}

abbrev pub is_retry_after : String → Bool
is_retry_after name = same_ignoring_case (codes name) (codes "retry-after")

abbrev pub is_capacity : Option String → Bool
is_capacity none = false
is_capacity (some code) = str_eq code "server_is_overloaded" || str_eq code "slow_down"

-- Digits alone that fit in 64 bits.
abbrev pub is_seconds : List ℕ → Bool
is_seconds s = not (is_empty s) && all is_digit s && ltb (decimal 0 s) (2 ^ 64)

module _ ⦃J : Json⦄ where
  open J use {Value, Fields, Number, view, make, insert, remove, empty, entries, number_u64}

  unfoldable pub upstream_error_of : TerminalKind → Value → Option Value
  upstream_error_of error payload = get_field payload "error"
  upstream_error_of failed payload = pointer payload "response" "error"
  upstream_error_of completed payload = none
  upstream_error_of incomplete payload = none

  unfoldable pub upstream_error : TerminalEvent → Option Value
  upstream_error event = filter_option is_object (upstream_error_of event.kind event.payload)

  abbrev pub headers_of : Value → List (String × Value)
  headers_of v = elim (as_object (index v "headers")) [ none ↦ [] | some headers ↦ entries headers ]

  -- `is_http_date` is the crate httpdate's parser.
  module _ (is_http_date : List ℕ → Bool) where
    abbrev pub valid_view : View Value Fields Number → Bool
    valid_view (string s) = is_seconds (trim_codes (codes s)) || is_http_date (trim_codes (codes s))
    valid_view (number n) = is_some (number_u64 n)
    valid_view _ = false

    unfoldable pub valid_advice : Value → Bool
    valid_advice v = valid_view (view v)

    -- The first valid advice.
    unfoldable pub find_advice : List (String × Value) → Option Value
    find_advice [] = none
    find_advice ((name, value) ∷ headers) =
        let rest = find_advice headers in
        if is_retry_after name && valid_advice value then some value else rest

    unfoldable pub retry_after : Value → Value → Value
    retry_after upstream payload =
        unwrap_or (find_advice (headers_of upstream ++ headers_of payload)) (json_string "30")

  -- `Map::retain` of the other names.
  unfoldable pub without_advice : List (String × Value) → List (String × Value)
  without_advice [] = []
  without_advice ((name, value) ∷ headers) =
      let rest = without_advice headers in
      if is_retry_after name then rest else (name, value) ∷ rest

  unfoldable pub advised_headers : Value → Value → Fields
  advised_headers upstream advice =
      insert (fields_of (without_advice (headers_of upstream)) empty) "Retry-After" advice

  -- The inner option is the result, which is missing where the payload is no object.
  unfoldable pub wrap_error : Value → Value → Option (Option Value)
  wrap_error payload advised = elim (as_object payload) [
    | none ↦ some none
    | some fields ↦ some (
        some (
          make (
            object (
              insert (insert (remove fields "error") "type" (json_string "response.failed"))
                "response"
                (json_object (("status", json_string "failed") ∷ ("error", advised) ∷ []))))))
  ]

  unfoldable pub replace_error : Value → Value → Option (Option Value)
  replace_error payload advised =
      and_then (set_index (index payload "response") "error" advised) (λ response.
        and_then (set_index payload "response" response) (λ result. some (some result)))

  module _ (is_http_date : List ℕ → Bool) where
    unfoldable pub rewrite : TerminalKind → Value → Value → Option (Option Value)
    rewrite kind payload upstream =
        and_then
          (set_index upstream "headers"
            (make (object (advised_headers upstream (retry_after is_http_date upstream payload)))))
          (λ advised.
            if same_kind kind error
            then wrap_error payload advised
            else replace_error payload advised)

    unfoldable pub retryable_capacity_payload : TerminalEvent → Option (Option Value)
    retryable_capacity_payload event = elim (upstream_error event) [
      | none ↦ some none
      | some upstream ↦
          if not (is_capacity (as_str (index upstream "code")))
          then some none
          else rewrite event.kind event.payload upstream
    ]
