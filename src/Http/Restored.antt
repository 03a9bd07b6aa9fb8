-- ===== src/Http/Restored.antt =====
-- The terminal event with its output restored, in the relay of src/http_api.rs.
use codex_api.Common.{
  not, ◌&&◌, ◌≡◌, refl, sym, subst, inl, inr, true, Option, none, some, List, String, is_empty, ok,
  Option-cases, Bool-cases, and_then, filter_option, arith,
}
use codex_api.Json.{Json, array}
use codex_api.Json.Access.{get_field, index, is_object, pointer, set_index, as_str}
use codex_api.Terminal.Kind.{TerminalKind, completed, response_status}
use codex_api.Terminal.Event.{TerminalEvent, parse_terminal_payload}
use codex_api.Terminal.Validated.{StatusFor, status_of, parse_terminal_payload-IsValidated}
use codex_api.Terminal.Retry.{set_index-object, get_field-is_object}
use codex_api.Http.Relay.{lacks_output, set_output, is_completed, restore_output}

module _ ⦃J : Json⦄ where
  open J use {Value, make}

  set_index-some :
      (v : Value) (k : String) (new : Value)
      → is_object v ≡ true
      → (w : Value) × (set_index v k new ≡ some w)
  set_index-some v k new h = elim (Option-cases (set_index v k new)) [
    | inl p ↦ absurd (cc (rw p at (set_index-object v k new h)))
    | inr (w, p) ↦ (w, p)
  ]

  object_in :
      (found : Option Value) (f : Value → Option String) (s : String)
      → and_then (filter_option is_object found) f ≡ some s
      → (r : Value) × (found ≡ some r) × (is_object r ≡ true)
  object_in none f s h = absurd cc
  object_in (some r) f s h = elim (Bool-cases (is_object r)) [
    | inl p ↦ (r, refl, p)
    | inr p ↦ absurd (cc (rw (p, filter_option) at h))
  ]

  -- A completed event has a response that is an object.
  set_output-some :
      (payload : Value) (event : TerminalEvent) (items : List Value)
      → parse_terminal_payload payload ≡ ok (some event)
      → event.kind ≡ completed
      → (w : Value) × (set_output event.payload items ≡ some w)
  unfolding set_output index
  set_output-some payload event items h k =
      let v = parse_terminal_payload-IsValidated payload event h in
      let status =
        subst (λ kind. StatusFor (response_status kind) (status_of payload)) k v.status in
      let (r, p, o) =
        object_in (get_field payload "response")
          (λ response. and_then (get_field response "status") as_str) "completed"
          (unfold response_status in status) in
      let (w, q) = set_index-some r "output" (make (array items)) o in
      let (u, t) =
        set_index-some payload "response" w (get_field-is_object payload r "response" p) in
      subst (λ x. (u : Value) × (set_output x items ≡ some u)) (sym v.same) (u, rw (p, index, q) t)

  completed_kind : (k : TerminalKind) → is_completed k ≡ true → k ≡ completed
  completed_kind TerminalKind.completed h = refl
  completed_kind TerminalKind.incomplete h = absurd cc
  completed_kind TerminalKind.failed h = absurd cc
  completed_kind TerminalKind.error h = absurd cc

  pub restore_output-some :
      (payload : Value) (event : TerminalEvent) (items : List Value)
      → parse_terminal_payload payload ≡ ok (some event)
      → (restored : TerminalEvent) × (restore_output items event ≡ some restored)
  unfolding restore_output
  restore_output-some payload event items h =
      elim (Bool-cases (
        is_completed event.kind
        && not (is_empty items)
        && lacks_output (pointer event.payload "response" "output"))) [
          | inr p ↦ (event, rw (p, restore_output) refl)
          | inl p ↦
              let (w, q) =
                set_output-some payload event items h
                  (completed_kind event.kind (ground (arith, p))) in
              (record event { payload = w }, rw (p, restore_output) (rw q refl))
        ]
