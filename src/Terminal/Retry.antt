-- ===== src/Terminal/Retry.antt =====
-- What the rewrite of capacity failures (src/responses_terminal.rs) guarantees.
use codex_api.Common.{
  ℕ, ◌≡◌, ◌≢◌, inl, inr, Bool, true, none, some, List, String, is_some, Bool-cases, Option-cases,
  arith,
}
use codex_api.Json.{object, Json}
use codex_api.Json.Access.{as_str, get_field, index, is_object, pointer, set_index}
use codex_api.Terminal.Kind.{TerminalKind, completed, incomplete, failed, error}
use codex_api.Terminal.Event.{TerminalEvent}
use codex_api.Terminal.Capacity.{
  upstream_error_of, upstream_error, is_capacity, retry_after, advised_headers, wrap_error,
  replace_error, rewrite, retryable_capacity_payload,
}

module _ ⦃J : Json⦄ where
  open J use {Value, Fields, Number, view, make, get, insert}

  -- A value that is an object.
  pub set_index-object :
      (v : Value) (k : String) (new : Value)
      → is_object v ≡ true
      → is_some (set_index v k new) ≡ true
  unfolding set_index is_object
  set_index-object v k new h = ground (arith, h)

  pub get_field-is_object : (v x : Value) (k : String) → get_field v k ≡ some x → is_object v ≡ true
  unfolding get_field is_object
  get_field-is_object v x k h = ground (arith, h)

  replace_error-total :
      (payload upstream advised : Value)
      → pointer payload "response" "error" ≡ some upstream
      → replace_error payload advised ≢ none
  unfolding replace_error pointer index
  replace_error-total payload upstream advised p h =
      elim (Option-cases (get_field payload "response")) [
        | inl q ↦ ground (arith, p, q)
        | inr (response, q) ↦
            let inner = get_field-is_object response upstream "error" (ground (arith, p, q)) in
            let outer = get_field-is_object payload response "response" q in
            elim (Option-cases (set_index response "error" advised)) [
              | inl r ↦ ground (arith, r, set_index-object response "error" advised inner)
              | inr (changed, r) ↦
                  ground (arith, h, q, r, set_index-object payload "response" changed outer)
            ]
      ]

  wrap_error-total : (payload advised : Value) → wrap_error payload advised ≢ none
  unfolding wrap_error
  wrap_error-total payload advised h = ground (arith, h)

  module _ (is_http_date : List ℕ → Bool) where
    rewrite-total :
        (kind : TerminalKind) (payload upstream : Value)
        → upstream_error_of kind payload ≡ some upstream
        → is_object upstream ≡ true
        → rewrite is_http_date kind payload upstream ≢ none
    unfolding rewrite upstream_error_of
    rewrite-total completed payload upstream p o h = cc
    rewrite-total incomplete payload upstream p o h = cc
    rewrite-total error payload upstream p o h =
        let new =
          make (object (advised_headers upstream (retry_after is_http_date upstream payload))) in
        elim (Option-cases (set_index upstream "headers" new)) [
          | inl q ↦ ground (arith, q, set_index-object upstream "headers" new o)
          | inr (advised, q) ↦ wrap_error-total payload advised (rw (q, rewrite) at h)
        ]
    rewrite-total failed payload upstream p o h =
        let new =
          make (object (advised_headers upstream (retry_after is_http_date upstream payload))) in
        elim (Option-cases (set_index upstream "headers" new)) [
          | inl q ↦ ground (arith, q, set_index-object upstream "headers" new o)
          | inr (advised, q) ↦ replace_error-total payload upstream advised p (rw (q, rewrite) at h)
        ]

    upstream_error_sound :
        (event : TerminalEvent) (upstream : Value)
        → upstream_error event ≡ some upstream
        → (upstream_error_of event.kind event.payload ≡ some upstream) × (is_object upstream ≡ true)
    unfolding upstream_error
    upstream_error_sound event upstream h =
        elim (Option-cases (upstream_error_of event.kind event.payload)) [
          | inl p ↦ absurd (ground (arith, p, h))
          | inr (v, p) ↦ ground (arith, p, h)
        ]

    -- The rewrite never panics, on any terminal event: the values that it assigns into are objects.
    pub retryable_capacity_payload_total :
        (event : TerminalEvent) → retryable_capacity_payload is_http_date event ≢ none
    unfolding retryable_capacity_payload
    retryable_capacity_payload_total event h = elim (Option-cases (upstream_error event)) [
      | inl p ↦ cc (rw (p, retryable_capacity_payload) at h)
      | inr (upstream, p) ↦
          let (e, o) = upstream_error_sound event upstream p in
          elim (Bool-cases (is_capacity (as_str (index upstream "code")))) [
            | inl q ↦
                rewrite-total event.kind event.payload upstream e o
                  (rw (p, q, retryable_capacity_payload) at h)
            | inr q ↦ cc (rw (p, q, retryable_capacity_payload) at h)
          ]
    ]
