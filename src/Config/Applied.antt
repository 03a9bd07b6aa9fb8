-- ===== src/Config/Applied.antt =====
-- The effective model can be written into the body that the candidates (src/config.rs) were chosen
-- for.
use codex_api.Common.{
  ◌≡◌, ◌≢◌, ◌∙◌, refl, sym, ap, subst, ◌⊎◌, inl, inr, Option, none, some, String, ok, Option-cases,
  Result-cases, and_then, arith,
}
use codex_api.Json.{Json, View, null, bool, number, string, array, object}
use codex_api.Json.Access.{as_object, as_str, get_field, json_string}
use codex_api.Store.Decimals.{Decimals}
use codex_api.Store.Types.{EffectiveModel, ModelCandidates}
use codex_api.Store.Chosen.{IsCandidate}
use codex_api.Config.Types.{Urls, Config}
use codex_api.Config.Validate.{find_price}
use codex_api.Config.Models.{
  capped_effort, effective_model, fallback_candidate, model_candidates, set_effort,
  apply_effective_request,
}

module _ ⦃D : Decimals⦄ ⦃U : Urls⦄ where
  -- With no effort asked for, none is set.
  effective_model-none :
      (config : Config) (model : String) (found : EffectiveModel)
      → effective_model config model none ≡ ok (some found)
      → found.reasoning_effort ≡ none
  unfolding effective_model capped_effort
  effective_model-none config model found h =
      elim (Option-cases (find_price model config.model_prices)) [
        | inl p ↦ absurd (cc (rw (p, effective_model) at h))
        | inr (price, p) ↦ ground (arith, rw (p, effective_model) at h)
      ]

  fallback-none :
      (config : Config) (fallback : Option String) (effective : EffectiveModel)
      → fallback_candidate config fallback none ≡ ok (some effective)
      → effective.reasoning_effort ≡ none
  unfolding fallback_candidate
  fallback-none config none effective h = absurd cc
  fallback-none config (some fallback) effective h =
      elim (Result-cases (effective_model config fallback none)) [
        | inl (e, p) ↦ absurd (cc (rw (p, fallback_candidate) at h))
        | inr (none, p) ↦ absurd (cc (rw (p, fallback_candidate) at h))
        | inr (some m, p) ↦
            let e : m ≡ effective = cc (rw (p, fallback_candidate) at h) in
            rw (← e) (effective_model-none config fallback m p)
      ]

  -- No candidate has an effort where none was asked for.
  pub candidates-none :
      (config : Config) (model : String) (candidates : ModelCandidates) (effective : EffectiveModel)
      → model_candidates config model none ≡ ok (some candidates)
      → IsCandidate candidates effective
      → effective.reasoning_effort ≡ none
  unfolding model_candidates
  candidates-none config model candidates effective h c =
      elim (Result-cases (effective_model config model none)) [
        | inl (e, p) ↦ absurd (cc (rw (p, model_candidates) at h))
        | inr (none, p) ↦ absurd (cc (rw (p, model_candidates) at h))
        | inr (some m, p) ↦
            elim (Result-cases (fallback_candidate config config.fallback_model none)) [
              | inl (e, q) ↦ absurd (cc (rw (p, q, model_candidates) at h))
              | inr (f, q) ↦
                  let found : ModelCandidates = record { primary = m; fallback = f } in
                  let e : found ≡ candidates = cc (rw (p, q, model_candidates) at h) in
                  either m f p q
                    (subst (λ (x : ModelCandidates). IsCandidate x effective) (sym e) c)
            ]
      ]
    where
      either :
          (m : EffectiveModel) (f : Option EffectiveModel)
          → effective_model config model none ≡ ok (some m)
          → fallback_candidate config config.fallback_model none ≡ ok f
          → IsCandidate (record { primary = m; fallback = f }) effective
          → effective.reasoning_effort ≡ none
      either m f p q (inl e) = rw e (effective_model-none config model m p)
      either m f p q (inr e) = fallback-none config config.fallback_model effective (q ∙ ap ok e)

module _ ⦃J : Json⦄ where
  open J use {Value, Fields, Number, view, make, get, insert, view-make, get-insert}

  -- The reasoning effort that a request asks for.
  abbrev pub requested_effort : Fields → Option String
  requested_effort request =
      and_then (and_then (get request "reasoning") (λ v. get_field v "effort")) as_str

  -- A reasoning object that has an effort.
  pub record HasEffort (request : Fields) : Type 0 where
    pub reasoning : Value
    pub settings : Fields
    pub effort : Value
    pub reasoning_there : get request "reasoning" ≡ some reasoning
    pub is_settings : as_object reasoning ≡ some settings
    pub effort_there : get settings "effort" ≡ some effort

  settings_in :
      (v effort : Value)
      → get_field v "effort" ≡ some effort
      → (settings : Fields) × (as_object v ≡ some settings) × (get settings "effort" ≡ some effort)
  unfolding get_field as_object
  settings_in v effort h = go (view v) h
    where
      go :
          (w : View Value Fields Number)
          → elim w [ object m ↦ get m "effort" | _ ↦ none ] ≡ some effort
          → (settings : Fields) × (elim w [ object m ↦ some m | _ ↦ none ] ≡ some settings)
            × (get settings "effort" ≡ some effort)
      go (object m) h = (m, refl, h)
      go null h = absurd cc
      go (bool b) h = absurd cc
      go (number n) h = absurd cc
      go (string s) h = absurd cc
      go (array xs) h = absurd cc

  pub requested-HasEffort :
      (request : Fields) (effort : String)
      → requested_effort request ≡ some effort
      → HasEffort request
  requested-HasEffort request effort h = elim (Option-cases (get request "reasoning")) [
    | inl p ↦ absurd (cc (rw p at h))
    | inr (r, p) ↦ elim (Option-cases (get_field r "effort")) [
      | inl q ↦ absurd (cc (rw (p, q) at h))
      | inr (e, q) ↦
          let (settings, is, there) = settings_in r e q in
          record {
            reasoning = r;
            settings = settings;
            effort = e;
            reasoning_there = p;
            is_settings = is;
            effort_there = there;
          }
    ]
  ]

  pub as_object-make : (m : Fields) → as_object (make (object m)) ≡ some m
  unfolding as_object
  as_object-make m =
      ap (λ (w : View Value Fields Number). elim w [ object n ↦ some n | _ ↦ none ])
        (view-make (object m))

  set_effort-some :
      (body : Fields) (effort : String) → HasEffort body → set_effort body effort ≢ none
  unfolding set_effort
  set_effort-some body effort e h =
      let q = rw (e.reasoning_there, e.is_settings, e.effort_there, set_effort) at h in cc

module _ ⦃D : Decimals⦄ ⦃J : Json⦄ where
  open J use {Value, Fields, make, get, insert, get-insert}

  pub apply-some :
      (body : Fields) (effective : EffectiveModel)
      → ((effective.reasoning_effort ≡ none) ⊎ HasEffort body)
      → apply_effective_request (make (object body)) effective ≢ none
  unfolding apply_effective_request
  apply-some body effective c h = elim (Option-cases effective.reasoning_effort) [
    | inl p ↦ let q = rw (as_object-make body, p, apply_effective_request) at h in cc
    | inr (effort, p) ↦ elim c [
      | inl n ↦ absurd (cc)
      | inr e ↦
          let named = insert body "model" (json_string effective.model) in
          let kept : HasEffort named = record {
            reasoning = e.reasoning;
            settings = e.settings;
            effort = e.effort;
            reasoning_there = simp get-insert e.reasoning_there;
            is_settings = e.is_settings;
            effort_there = e.effort_there;
          } in
          set_effort-some named effort kept
            (rw (as_object-make body, p, apply_effective_request) at h)
    ]
  ]
