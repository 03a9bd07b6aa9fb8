-- ===== src/Config/Capped.antt =====
-- The reasoning effort that a request gets (src/config.rs).
use codex_api.Common.{
  ℕ, ◌≤◌, ◌≡◌, ◌⊎◌, inl, inr, false, none, some, String, ok, leb, Option-cases, and_then, arith,
}
use codex_api.Json.{Json, object}
use codex_api.Json.Access.{as_object, as_str, json_string, pointer, index}
use codex_api.Json.Objects.{
  index-insert, index-object, get_field-object, get_field-as_object, as_str-json_string,
}
use codex_api.Store.Decimals.{Decimals}
use codex_api.Store.Types.{EffectiveModel}
use codex_api.Config.Validate.{reasoning_effort_rank}
use codex_api.Config.Models.{capped, set_effort, apply_effective_request}

-- The effort that is sent is the requested one, or the model's maximum, which then ranks below the
-- requested one; and it never ranks above the maximum.
pub capped_le :
    (maximum requested effort : String) (rank limit : ℕ)
    → capped (some maximum) requested ≡ ok effort
    → reasoning_effort_rank effort ≡ some rank
    → reasoning_effort_rank maximum ≡ some limit
    → (rank ≤ limit)
      × ((effort ≡ requested)
          ⊎ ((effort ≡ maximum)
              × (above : ℕ) × (reasoning_effort_rank requested ≡ some above)
              × (leb above limit ≡ false)))
unfolding capped
capped_le maximum requested effort rank limit h r l =
    elim (Option-cases (reasoning_effort_rank requested)) [
      | inl p ↦ cc
      | inr (above, p) ↦ ground (arith, p, l)
    ]

module _ ⦃J : Json⦄ where
  open J use {Value, Fields, make, get, insert, get-insert}

  set_effort-reads :
      (fields : Fields) (effort model : String) (result : Value)
      → get fields "model" ≡ some (json_string model)
      → set_effort fields effort ≡ some result
      → (as_str (index result "model") ≡ some model)
        × (and_then (pointer result "reasoning" "effort") as_str ≡ some effort)
  unfolding set_effort pointer
  set_effort-reads fields effort model result m h = elim (Option-cases (get fields "reasoning")) [
    | inl p ↦ cc (rw (p, set_effort) at h)
    | inr (reasoning, p) ↦ elim (Option-cases (as_object reasoning)) [
      | inl q ↦ cc (rw (p, q, set_effort) at h)
      | inr (settings, q) ↦ elim (Option-cases (get settings "effort")) [
        | inl r ↦ cc (rw (p, q, r, set_effort) at h)
        | inr (old, r) ↦
            let e : make (
                  object (
                    insert fields "reasoning"
                      (make (object (insert settings "effort" (json_string effort))))))
                ≡ result =
              cc (rw (p, q, r, set_effort) at h) in
            rw (← e) (
              simp (index-insert, index-object, as_str-json_string, m),
              simp (get_field-object, get-insert, as_str-json_string),
            )
      ]
    ]
  ]

  -- Where only the model is replaced, the effort is as it was.
  named_alone-reads :
      (body result : Value) (fields : Fields) (model : String)
      → as_object body ≡ some fields
      → make (object (insert fields "model" (json_string model))) ≡ result
      → (as_str (index result "model") ≡ some model)
        × (and_then (pointer result "reasoning" "effort") as_str
            ≡ and_then (pointer body "reasoning" "effort") as_str)
  unfolding pointer
  named_alone-reads body result fields model p e = rw (← e) (
    simp (index-insert, as_str-json_string),
    rw (get_field-as_object body fields "reasoning" p) (simp (get_field-object, get-insert)),
  )

module _ ⦃D : Decimals⦄ ⦃J : Json⦄ where
  open J use {Value, Fields, make, insert, get-insert}

  -- The body that is sent upstream names the effective model, whether or not that model has a
  -- reasoning effort, and its reasoning effort is the effective one, or, if there is none, that of
  -- the body as it came.
  pub apply_effective_request-reads :
      (body result : Value) (effective : EffectiveModel)
      → apply_effective_request body effective ≡ some result
      → (as_str (index result "model") ≡ some effective.model)
        × (and_then (pointer result "reasoning" "effort") as_str ≡ elim effective.reasoning_effort [
          | none ↦ and_then (pointer body "reasoning" "effort") as_str
          | some effort ↦ some effort
        ])
  unfolding apply_effective_request
  apply_effective_request-reads body result effective h = elim (Option-cases (as_object body)) [
    | inl p ↦ absurd (cc (rw (p, apply_effective_request) at h))
    | inr (fields, p) ↦ elim (Option-cases effective.reasoning_effort) [
      | inl n ↦ rw n (
          named_alone-reads body result fields effective.model p
            (cc (rw (p, n, apply_effective_request) at h)))
      | inr (effort, n) ↦ rw n (
          set_effort-reads (insert fields "model" (json_string effective.model)) effort
            effective.model result (simp get-insert) (rw (p, n, apply_effective_request) at h))
    ]
  ]
