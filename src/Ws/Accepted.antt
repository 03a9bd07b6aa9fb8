-- ===== src/Ws/Accepted.antt =====
-- What `prepare_request` of src/ws.rs hands on to the session: it never panics, and the model that
-- is admitted can be written into the payload.
use codex_api.Common.{
  ok_or-ok, ◌≡◌, ◌≢◌, ◌∙◌, refl, ap, subst, inl, inr, Bool, true, false, not, Result, err, Option,
  none, some, is_some, ok, ok_or, String, bind-ok, ensure, ok-injective, map_err, and_then, ◌>>=◌,
  Result-cases, Option-cases,
}
use codex_api.Json.{Json, bool}
use codex_api.Json.Access.{as_str, as_object}
use codex_api.Store.Decimals.{Decimals}
use codex_api.Store.Types.{ModelCandidates, EffectiveModel}
use codex_api.Store.Chosen.{IsCandidate}
use codex_api.Config.Types.{Urls, Config}
use codex_api.Config.Validate.{validate}
use codex_api.Config.Models.{ConfigPanic, model_candidates, apply_effective_request}
use codex_api.Config.Validated.{model_candidates_total}
use codex_api.Config.Applied.{requested_effort, requested-HasEffort, candidates-none, apply-some}
use codex_api.Auth.Authenticate.{ClientIdentity}
use codex_api.Http.Normalize.{wrap_input}
use codex_api.Http.Normalized.{wrap_input-others}
use codex_api.Ws.Prepare.{
  PrepareError, validation, panic, is_create, refuses_stream, refuses_store, prepared_payload,
  PreparedRequest, validation_of, prepare_request,
}
use codex_api.Ws.Prepared.{map_err-ok}

-- A refusal that is not a panic, or a value.
abbrev Answers : {A : Type 0} → Result PrepareError A → Type 0
Answers (err (panic e)) = ⊥
Answers _ = Unit

bind-Answers :
    {A B : Type 0} (m : Result PrepareError A) (next : A → Result PrepareError B)
    → Answers m
    → ((a : A) → m ≡ ok a → Answers (next a))
    → Answers (m >>= next)
bind-Answers (ok a) next p h = h a refl
bind-Answers (err (panic e)) next p h = p
bind-Answers (err (validation s t)) next p h = tt

ok_or-Answers : {A : Type 0} (o : Option A) (s t : String) → Answers (ok_or o (validation s t))
ok_or-Answers none s t = tt
ok_or-Answers (some a) s t = tt

ensure-Answers : (b : Bool) (s t : String) → Answers (ensure b (validation s t))
ensure-Answers true s t = tt
ensure-Answers false s t = tt

panic-Answers :
    {A : Type 0} (r : Result ConfigPanic A)
    → ((e : ConfigPanic) → r ≢ err e)
    → Answers (map_err panic r)
panic-Answers (ok a) h = tt
panic-Answers (err e) h = absurd (h e refl)

module _ ⦃J : Json⦄ ⦃D : Decimals⦄ ⦃U : Urls⦄ where
  open J use {Value, Fields, make, get, insert, get-insert}

  validation_of-Answers :
      (value : Value) (config : Config)
      → validate config ≡ ok tt
      → Answers (validation_of value config)
  unfolding validation_of
  validation_of-Answers value config v =
      bind-Answers _ _ (ok_or-Answers (as_object value) _ _) (λ request _.
        bind-Answers _ _ (ensure-Answers (is_create (and_then (get request "type") as_str)) _ _)
          (λ _ _.
            bind-Answers _ _ (ok_or-Answers (and_then (get request "model") as_str) _ _) (λ model _.
              bind-Answers _ _
                (panic-Answers (model_candidates config model (requested_effort request))
                  (λ e. model_candidates_total config model (requested_effort request) e v))
                (λ found _. bind-Answers _ _ (ok_or-Answers found _ _) (λ candidates _.
                  bind-Answers _ _
                    (ensure-Answers (not (refuses_stream (get request "stream"))) _ _)
                    (λ _ _.
                      bind-Answers _ _
                        (ensure-Answers (not (is_some (get request "background"))) _ _)
                        (λ _ _.
                          bind-Answers _ _
                            (ensure-Answers (not (is_some (get request "max_output_tokens"))) _ _)
                            (λ _ _.
                              bind-Answers _ _
                                (ensure-Answers (not (refuses_store (get request "store"))) _ _)
                                (λ _ _. tt)))))))))

  -- The request behind a payload, and the candidates of its model.
  record Accepted (config : Config) (read : Value × ModelCandidates) : Type 0 where
    pub request : Fields
    pub model : String
    pub payload_is : prepared_payload request ≡ read.0
    pub found : model_candidates config model (requested_effort request) ≡ ok (some read.1)

  validation_of-Accepted :
      (value : Value) (config : Config) (read : Value × ModelCandidates)
      → validation_of value config ≡ ok read
      → Accepted config read
  unfolding validation_of
  validation_of-Accepted value config read h =
      let (request, _, h1) = bind-ok (ok_or (as_object value) _) _ read h in
      let (_, _, h2) =
        bind-ok (ensure (is_create (and_then (get request "type") as_str)) _) _ read h1 in
      let (model, _, h3) = bind-ok (ok_or (and_then (get request "model") as_str) _) _ read h2 in
      let (found, p, h4) =
        bind-ok (map_err panic (model_candidates config model (requested_effort request))) _ read
          h3 in
      let (candidates, q, h5) = bind-ok (ok_or found _) _ read h4 in
      let (_, _, h6) = bind-ok (ensure (not (refuses_stream (get request "stream"))) _) _ read h5 in
      let (_, _, h7) = bind-ok (ensure (not (is_some (get request "background"))) _) _ read h6 in
      let (_, _, h8) =
        bind-ok (ensure (not (is_some (get request "max_output_tokens"))) _) _ read h7 in
      let (_, _, h9) = bind-ok (ensure (not (refuses_store (get request "store"))) _) _ read h8 in
      let e = ok-injective _ read h9 in
      record {
        request = request;
        model = model;
        payload_is = ap (λ (x : Value × ModelCandidates). x.0) e;
        found =
            map_err-ok panic (model_candidates config model (requested_effort request)) found p
            ∙ ap ok (
                ok_or-ok found _ candidates q
                ∙ ap some (ap (λ (x : Value × ModelCandidates). x.1) e));
      }

  candidate_written :
      (config : Config) (read : Value × ModelCandidates) (effective : EffectiveModel)
      → Accepted config read
      → IsCandidate read.1 effective
      → apply_effective_request read.0 effective ≢ none
  unfolding prepared_payload
  candidate_written config read effective a c =
      subst (λ (v : Value). apply_effective_request v effective ≢ none) a.payload_is
        (apply-some _ effective (elim (Option-cases (requested_effort a.request)) [
          | inl p ↦ inl (
              candidates-none config a.model read.1 effective
                (subst (λ (o : Option String). model_candidates config a.model o ≡ ok (some read.1))
                  p a.found)
                c)
          | inr (effort, p) ↦
              let e = requested-HasEffort a.request effort p in
              inr (record {
                reasoning = e.reasoning;
                settings = e.settings;
                effort = e.effort;
                reasoning_there =
                    rw
                      (
                        get-insert
                            (insert (wrap_input (get a.request "input") a.request) "store"
                              (make (bool false)))
                            "stream" "reasoning" (make (bool true)),
                        get-insert (wrap_input (get a.request "input") a.request) "store"
                            "reasoning" (make (bool false)),
                      )
                      (wrap_input-others (get a.request "input") a.request "reasoning" refl
                        ∙ e.reasoning_there);
                is_settings = e.is_settings;
                effort_there = e.effort_there;
              })
        ]))

  -- What the session makes of a message.
  abbrev pub Prepares : Result (Value × PrepareError) PreparedRequest → Type 0
  Prepares (err (value, panic e)) = ⊥
  Prepares (err (value, validation s t)) = Unit
  Prepares (ok prepared) =
      (effective : EffectiveModel)
      → IsCandidate prepared.candidates effective
      → apply_effective_request prepared.payload effective ≢ none

  pub prepare_request-Prepares :
      (value : Value) (config : Config) (identity : ClientIdentity)
      → validate config ≡ ok tt
      → Prepares (prepare_request value config identity)
  unfolding prepare_request
  prepare_request-Prepares value config identity v =
      elim (Result-cases (validation_of value config)) [
        | inl (validation s t, p) ↦ rw (p, prepare_request) tt
        | inl (panic e, p) ↦ absurd (subst Answers p (validation_of-Answers value config v))
        | inr (read, p) ↦
            rw (p, prepare_request)
              (λ effective c.
                candidate_written config read effective (validation_of-Accepted value config read p)
                  c)
      ]
