-- ===== src/Http/Applies.antt =====
-- The model that is admitted can be written into a body that src/http_api.rs has normalized.
use codex_api.Common.{
  not, ◌≡◌, ◌≢◌, ◌∙◌, refl, ap, subst, inl, inr, false, Option, none, some, is_some, String, ok,
  and_then, ok_or, ok_or-ok, ensure, Option-cases, bind-ok, ok-injective,
}
use codex_api.Json.{Json, bool, object}
use codex_api.Json.Access.{as_object, as_str, get_field, pointer}
use codex_api.Json.Objects.{get_field-as_object}
use codex_api.Store.Decimals.{Decimals}
use codex_api.Store.Types.{ModelCandidates, EffectiveModel}
use codex_api.Store.Chosen.{IsCandidate}
use codex_api.Config.Types.{Urls, Config}
use codex_api.Config.Models.{model_candidates, apply_effective_request}
use codex_api.Config.Applied.{requested_effort, requested-HasEffort, candidates-none, apply-some}
use codex_api.Http.Normalize.{require_stream, refuse_flag, wrap_input, normalize_responses_request}
use codex_api.Http.Normalized.{wrap_input-others}

module _ ⦃J : Json⦄ where
  open J use {Value, Fields, Number, view, make, get, insert, get-insert}

  -- The request behind a normalized body.
  pub record NormalizedFrom (value out : Value) : Type 0 where
    pub request : Fields
    pub is_request : as_object value ≡ some request
    pub body : Fields
    pub is_body : make (object body) ≡ out
    pub reasoning : get body "reasoning" ≡ get request "reasoning"

  pub normalize-NormalizedFrom :
      (value out : Value) → normalize_responses_request value ≡ ok out → NormalizedFrom value out
  unfolding normalize_responses_request
  normalize-NormalizedFrom value out h =
      let (request, p, h1) = bind-ok (ok_or (as_object value) _) _ out h in
      let (_, _, h2) = bind-ok (require_stream (get request "stream")) _ out h1 in
      let (_, _, h3) =
        bind-ok (refuse_flag "store" "stored responses are not supported" (get request "store")) _
          out h2 in
      let (_, _, h4) =
        bind-ok
          (refuse_flag "background" "background responses are not supported"
            (get request "background"))
          _ out h3 in
      let (_, _, h5) =
        bind-ok (ensure (not (is_some (get request "max_output_tokens"))) _) _ out h4 in
      record {
        request = request;
        is_request = ok_or-ok (as_object value) _ request p;
        body = insert (wrap_input (get request "input") request) "store" (make (bool false));
        is_body = ok-injective _ out h5;
        reasoning =
            simp get-insert (wrap_input-others (get request "input") request "reasoning" refl);
      }

module _ ⦃J : Json⦄ ⦃D : Decimals⦄ ⦃U : Urls⦄ where
  open J use {Value, Fields, get}

  pub normalized-apply :
      (config : Config) (value out : Value) (model : String) (candidates : ModelCandidates)
      (effective : EffectiveModel)
      → NormalizedFrom value out
      → model_candidates config model (and_then (pointer value "reasoning" "effort") as_str)
        ≡ ok (some candidates)
      → IsCandidate candidates effective
      → apply_effective_request out effective ≢ none
  unfolding pointer
  normalized-apply config value out model candidates effective n found c =
      let same : and_then (pointer value "reasoning" "effort") as_str ≡ requested_effort n.request =
        ap (λ (o : Option Value). and_then (and_then o (λ w. get_field w "effort")) as_str)
          (get_field-as_object value n.request "reasoning" n.is_request) in
      let found_for =
        subst (λ e. model_candidates config model e ≡ ok (some candidates)) same found in
      subst (λ (v : Value). apply_effective_request v effective ≢ none) n.is_body
        (apply-some n.body effective (elim (Option-cases (requested_effort n.request)) [
          | inl p ↦ inl (
              candidates-none config model candidates effective
                (subst (λ e. model_candidates config model e ≡ ok (some candidates)) p found_for) c)
          | inr (effort, p) ↦
              let e = requested-HasEffort n.request effort p in
              inr (record {
                reasoning = e.reasoning;
                settings = e.settings;
                effort = e.effort;
                reasoning_there = n.reasoning ∙ e.reasoning_there;
                is_settings = e.is_settings;
                effort_there = e.effort_there;
              })
        ]))
