-- ===== src/Sse/Agreement.antt =====
-- What `validate_event` (src/sse.rs) lets through.
use codex_api.Common.{
  ◌≡◌, ◌≢◌, refl, ◌⊎◌, inl, inr, true, Option, none, some, ok, Result-cases, Option-cases, arith,
}
use codex_api.Json.{Json}
use codex_api.Terminal.Kind.{
  TerminalKind, completed, incomplete, failed, error, from_name, same_kind,
}
use codex_api.Terminal.Event.{TerminalEvent, parse_terminal_payload}
use codex_api.Sse.Reader.{Event, agree, validate_event}

pub same_kind-eq : (j k : TerminalKind) → same_kind j k ≡ true → j ≡ k
same_kind-eq completed completed h = refl
same_kind-eq incomplete incomplete h = refl
same_kind-eq failed failed h = refl
same_kind-eq error error h = refl
same_kind-eq completed incomplete h = cc
same_kind-eq completed failed h = cc
same_kind-eq completed error h = cc
same_kind-eq incomplete completed h = cc
same_kind-eq incomplete failed h = cc
same_kind-eq incomplete error h = cc
same_kind-eq failed completed h = cc
same_kind-eq failed incomplete h = cc
same_kind-eq failed error h = cc
same_kind-eq error completed h = cc
same_kind-eq error incomplete h = cc
same_kind-eq error failed h = cc

module _ ⦃J : Json⦄ where
  open J use {Value, from_str}

  agree-some :
      (k : Option TerminalKind) (found : Option TerminalEvent) (t : TerminalEvent)
      → agree k found ≡ ok (some t)
      → (found ≡ some t) × ((k ≡ none) ⊎ (k ≡ some t.kind))
  unfolding agree
  agree-some none none t h = absurd cc
  agree-some none (some u) t h = (cc, inl refl)
  agree-some (some k) none t h = absurd cc
  agree-some (some k) (some u) t h = ground (arith, same_kind-eq k u.kind)

  -- A terminal event that the reader lets through is the validated event of its JSON data, and a
  -- name of the record that is a terminal one names the same kind.
  pub validate_event-agrees :
      (event : Event) (t : TerminalEvent)
      → validate_event event ≡ ok (some t)
      → (payload : Value) × (from_str event.text ≡ some payload)
        × (parse_terminal_payload payload ≡ ok (some t))
        × ((from_name event.event ≡ none) ⊎ (from_name event.event ≡ some t.kind))
  unfolding validate_event
  validate_event-agrees event t h = elim (Option-cases (from_str event.text)) [
    | inl p ↦ absurd (ground (arith, p))
    | inr (payload, p) ↦ elim (Result-cases (parse_terminal_payload payload)) [
      | inl (e, q) ↦ cc (rw (p, q, validate_event) at h)
      | inr (found, q) ↦
          let (f, k) =
            agree-some (from_name event.event) found t (rw (p, q, validate_event) at h) in
          (payload, p, cc, k)
    ]
  ]

  -- A record with a terminal name is never passed on as an ordinary event: it is validated or it
  -- is an error.
  validate_event-ne-none :
      (event : Event) (k : TerminalKind)
      → from_name event.event ≡ some k
      → validate_event event ≢ ok none
  unfolding validate_event agree
  validate_event-ne-none event k n h = elim (Option-cases (from_str event.text)) [
    | inl p ↦ ground (arith, p)
    | inr (payload, p) ↦ elim (Result-cases (parse_terminal_payload payload)) [
      | inl (e, q) ↦ cc (rw (p, q, validate_event) at h)
      | inr (none, q) ↦ cc (rw (p, q, n, validate_event) at h)
      | inr (some u, q) ↦ ground (arith, p, q, n)
    ]
  ]
