-- ===== src/Terminal/Validated.antt =====
-- What `parse_terminal_payload` guarantees of the events that it returns.
use codex_api.Common.{
  ℕ, ◌⊎◌, inl, inr, ◌≤◌, ◌<◌, ◌^◌, ◌≡◌, refl, not, Option, none, some, String, eq_iff, Result, ok,
  err, Option-cases, and_then, filter_option, unwrap_or, arith,
}
use codex_api.Json.{View, number, null, Json}
use codex_api.Json.Access.{as_str, as_u64, is_null, is_object, get_field}
use codex_api.Terminal.Kind.{
  TerminalKind, completed, incomplete, failed, error, event_name, from_name, from_name-event_name,
  response_status,
}
use codex_api.Terminal.Event.{
  Usage, Failure, TerminalEvent, required_u64, missing_usage, read_usage, parse_usage,
  parse_response, parse_kind, parse_terminal_payload,
}

-- Token counts fit in 64 bits, and the cached and reasoning tokens are no more than the input and
-- the output.
pub record IsConsistent (u : Usage) : Type 0 where
  pub cached_le : u.cached_input_tokens ≤ u.input_tokens
  pub reasoning_le : u.reasoning_tokens ≤ u.output_tokens
  pub input_lt : u.input_tokens < 2 ^ 64
  pub output_lt : u.output_tokens < 2 ^ 64
  pub total_lt : u.total_tokens < 2 ^ 64

-- Only a failed response and a bare error may come without usage.
abbrev pub UsageFor : TerminalKind → Option Usage → Type 0
UsageFor k none = (k ≡ failed) ⊎ (k ≡ error)
UsageFor k (some u) = IsConsistent u

-- A token count that was read fits in 64 bits.
abbrev Fits : Result Failure ℕ → Type 0
Fits (ok n) = n < 2 ^ 64
Fits (err e) = Unit

module _ ⦃J : Json⦄ where
  open J use {Value, Fields, Number, view, number_u64, number_u64-lt}

  view_u64-lt :
      (w : View Value Fields Number) (n : ℕ)
      → elim w [ number m ↦ number_u64 m | _ ↦ none ] ≡ some n
      → n < 2 ^ 64
  view_u64-lt (number m) n h = number_u64-lt m n h
  view_u64-lt null n h = cc
  view_u64-lt _ n h = cc

  as_u64-lt : (v : Value) (n : ℕ) → as_u64 v ≡ some n → n < 2 ^ 64
  unfolding as_u64
  as_u64-lt v n h = view_u64-lt (view v) n h

  required_u64-Fits : (v : Value) (f p : String) (k : TerminalKind) → Fits (required_u64 v f p k)
  unfolding required_u64
  required_u64-Fits v f p k = elim (Option-cases (and_then (get_field v f) as_u64)) [
    | inl e ↦ rw e tt
    | inr (n, e) ↦ rw e (go (get_field v f) n e)
  ]
    where
      go : (o : Option Value) (n : ℕ) → and_then o as_u64 ≡ some n → n < 2 ^ 64
      go none n e = cc
      go (some w) n e = as_u64-lt w n e

  read_usage-UsageFor :
      (v : Value) (k : TerminalKind) (u : Option Usage) → read_usage v k ≡ ok u → UsageFor k u
  unfolding read_usage
  read_usage-UsageFor v k none h = absurd (ground arith)
  read_usage-UsageFor v k (some u) h = ground (
    arith,
    required_u64-Fits v "input_tokens" "response.usage.input_tokens" k,
    required_u64-Fits v "output_tokens" "response.usage.output_tokens" k,
    required_u64-Fits v "total_tokens" "response.usage.total_tokens" k,
  )

  missing_usage-UsageFor :
      (k : TerminalKind) (u : Option Usage) → missing_usage k ≡ ok u → UsageFor k u
  unfolding missing_usage
  missing_usage-UsageFor failed none h = inl refl
  missing_usage-UsageFor failed (some u) h = cc
  missing_usage-UsageFor _ u h = cc

  parse_usage-UsageFor :
      (v : Value) (k : TerminalKind) (u : Option Usage) → parse_usage v k ≡ ok u → UsageFor k u
  unfolding parse_usage
  parse_usage-UsageFor v k u h =
      elim (Option-cases (filter_option (λ usage. not (is_null usage)) (get_field v "usage"))) [
        | inl e ↦ missing_usage-UsageFor k u (rw (e, parse_usage) at h)
        | inr (w, e) ↦ read_usage-UsageFor w k u (rw (e, parse_usage) at h)
      ]

  -- The status in the payload's response object.
  abbrev pub status_of : Value → Option String
  status_of payload =
      and_then (filter_option is_object (get_field payload "response"))
        (λ response. and_then (get_field response "status") as_str)

  -- The text of the payload's `type`.
  abbrev pub type_of : Value → Option String
  type_of payload = and_then (get_field payload "type") as_str

  -- The status that a kind demands.
  abbrev pub StatusFor : Option String → Option String → Type 0
  StatusFor none status = Unit
  StatusFor (some expected) status = status ≡ some expected

  pub record IsValidated (payload : Value) (event : TerminalEvent) : Type 0 where
    pub same : event.payload ≡ payload
    pub named : type_of payload ≡ some (event_name event.kind)
    pub usage_for : UsageFor event.kind event.usage
    pub status : StatusFor (response_status event.kind) (status_of payload)

  parse_response_sound :
      (payload : Value) (kind : TerminalKind) (s : String) (event : TerminalEvent)
      → parse_response payload kind s ≡ ok event
      → (event.payload ≡ payload)
        × (event.kind ≡ kind)
        × (status_of payload ≡ some s)
        × UsageFor kind event.usage
  unfolding parse_response
  parse_response_sound payload kind s event h = (
    ground arith,
    ground arith,
    ground (arith, eq_iff (unwrap_or (status_of payload) "") s),
    parse_usage-UsageFor
        (unwrap_or (filter_option is_object (get_field payload "response")) payload) kind
        event.usage (ground arith),
  )

  response-IsValidated :
      (payload : Value) (kind : TerminalKind) (s : String) (event : TerminalEvent)
      → type_of payload ≡ some (event_name kind)
      → response_status kind ≡ some s
      → parse_response payload kind s ≡ ok event
      → IsValidated payload event
  response-IsValidated payload kind s event t r h =
      let p = parse_response_sound payload kind s event h in
      record { same = p.0; named = rw p.1 t; usage_for = rw p.1 p.3; status = rw (p.1, r) p.2 }

  parse_kind_sound :
      (payload : Value) (kind : TerminalKind) (event : TerminalEvent)
      → type_of payload ≡ some (event_name kind)
      → parse_kind payload kind ≡ ok event
      → IsValidated payload event
  unfolding parse_kind response_status
  parse_kind_sound payload error event t h =
      let e : event ≡ record { kind = error; payload = payload; usage = none } = ground arith in
      rw e (record { same = refl; named = t; usage_for = inr refl; status = tt })
  parse_kind_sound payload completed event t h =
      response-IsValidated payload completed "completed" event t refl h
  parse_kind_sound payload incomplete event t h =
      response-IsValidated payload incomplete "incomplete" event t refl h
  parse_kind_sound payload failed event t h =
      response-IsValidated payload failed "failed" event t refl h

  -- An event that the parser returns carries the payload unchanged, has the kind that the payload's
  -- type names, the status that this kind demands, and a usage whose counts, the total included,
  -- fit in 64 bits and whose cached and reasoning tokens do not exceed the input and the output;
  -- only failures may lack the usage.
  pub parse_terminal_payload-IsValidated :
      (payload : Value) (event : TerminalEvent)
      → parse_terminal_payload payload ≡ ok (some event)
      → IsValidated payload event
  unfolding parse_terminal_payload
  parse_terminal_payload-IsValidated payload event h =
      elim (Option-cases (and_then (type_of payload) from_name)) [
        | inl e ↦ cc (rw (e, parse_terminal_payload) at h)
        | inr (kind, e) ↦ parse_kind_sound payload kind event (named kind e) (ground arith)
      ]
    where
      named :
          (kind : TerminalKind)
          → and_then (type_of payload) from_name ≡ some kind
          → type_of payload ≡ some (event_name kind)
      named kind e = ground (arith, (from_name-event_name (unwrap_or (type_of payload) "") kind).0)
