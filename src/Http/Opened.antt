-- ===== src/Http/Opened.antt =====
-- What the handler `responses` of src/http_api.rs leaves open: the row of the request that it hands
-- on, and no other.
use codex_api.Common.{
  ℕ, ◌≡◌, ◌≢◌, refl, inl, inr, Bool, ◌||◌, Option, none, some, String, Result, ok, err, nat_eq,
  and_then, unwrap_or, Result-cases, Option-cases,
}
use codex_api.Json.{Json}
use codex_api.Json.Access.{as_str, pointer}
use codex_api.Store.Decimals.{Decimals}
use codex_api.Store.Times.{Times}
use codex_api.Store.Types.{
  ModelCandidates, EffectiveModel, Admission, admitted, weekly_quota_exceeded, canceled, http_sse,
  responses as responses_protocol,
}
use codex_api.Store.Ledger.{Ledger}
use codex_api.Store.Requests.{Outcome}
use codex_api.Store.Invariant.{IsValid}
use codex_api.Store.Alone.{ClosedBut, OpensFor, record_rejection-ClosedBut}
use codex_api.Store.Chosen.{IsCandidate, Chooses, begin_request-Chooses}
use codex_api.Errors.Api.{ApiError}
use codex_api.Config.Types.{Urls, Config}
use codex_api.Config.Validate.{validate}
use codex_api.Config.Models.{model_candidates, apply_effective_request}
use codex_api.Config.Validated.{model_candidates_total}
use codex_api.Auth.Headers.{Headers}
use codex_api.Auth.Authenticate.{ClientIdentity, authenticate}
use codex_api.Pending.Handle.{new, Circumstances, drop}
use codex_api.Sessions.Key.{SessionKey, from_headers}
use codex_api.Ws.Rows.{Calm, close-ClosedBut, begin-IsValid, begin-OpensFor}
use codex_api.Http.Normalize.{normalize_responses_request}
use codex_api.Http.Responses.{
  admit_request, reject_request, requested_string, Answer, after_rejection, hand_on, lite_only,
  after_admission, refuse, admit_parsed, handle_parsed, responses,
}
use codex_api.Http.Applies.{normalize-NormalizedFrom, normalized-apply}

module _ ⦃J : Json⦄ ⦃H : Headers⦄ ⦃D : Decimals⦄ ⦃T : Times⦄ ⦃U : Urls⦄ where
  open J use {Value, from_str}
  open H use {HeaderMap}

  -- After an error no row is open that was not before; a turn that is handed on has the only one.
  abbrev pub Opens : (ℕ → Bool) → Answer → Type 0
  Opens allowed none = ⊥
  Opens allowed (some (err e, l)) = ClosedBut allowed l
  Opens allowed (some (ok handed, l)) =
      (id : ℕ) × (handed.handle ≡ new id) × ClosedBut (λ k. allowed k || nat_eq id k) l

  after_rejection-Opens :
      (allowed : ℕ → Bool) (error : ApiError) (o : Outcome ℕ)
      → ClosedBut allowed o.1
      → Opens allowed (after_rejection error o)
  after_rejection-Opens allowed error (err _, l) c = c
  after_rejection-Opens allowed error (ok _, l) c = c

  hand_on-Opens :
      (allowed : ℕ → Bool) (d : Circumstances) (key : Option SessionKey) (headers : HeaderMap)
      (id : ℕ) (effective : EffectiveModel) (body : Value) (found : Result ApiError Value)
      (l : Ledger)
      → Calm d
      → IsValid l
      → ClosedBut (λ k. allowed k || nat_eq id k) l
      → Opens allowed (hand_on d key headers id effective body found l)
  unfolding drop new
  hand_on-Opens allowed d key headers id effective body (err e) l q v c =
      close-ClosedBut d id canceled allowed l q v c
  hand_on-Opens allowed d key headers id effective body (ok model) l q v c = (id, refl, c)

  after_admission-Opens :
      (allowed : ℕ → Bool) (d : Circumstances) (model_of : String → Result ApiError (Option Value))
      (key : Option SessionKey) (headers : HeaderMap) (body : Value) (candidates : ModelCandidates)
      (o : Outcome Admission)
      → Calm d
      → IsValid o.1
      → OpensFor allowed o
      → Chooses candidates o
      → ((effective : EffectiveModel)
          → IsCandidate candidates effective
          → apply_effective_request body effective ≢ none)
      → Opens allowed (after_admission d model_of key headers body o)
  after_admission-Opens allowed d model_of key headers body candidates (err _, l) q v c x a = c
  after_admission-Opens allowed d model_of key headers body candidates (ok weekly_quota_exceeded, l)
        q v c x a =
      c
  after_admission-Opens allowed d model_of key headers body candidates
        (ok (admitted id effective), l) q v c x a =
      elim (Option-cases (apply_effective_request body effective)) [
        | inl p ↦ absurd (a effective x p)
        | inr (applied, p) ↦
            rw (p, Opens)
              (hand_on-Opens allowed d key headers id effective applied
                (lite_only (model_of effective.model)) l q v c)
      ]

  module _ (c d : Circumstances) (model_of : String → Result ApiError (Option Value))
      (config : Config) (headers : HeaderMap) (allowed : ℕ → Bool) (l : Ledger) (q : Calm c)
      (r : Calm d) (checked : validate config ≡ ok tt) (v : IsValid l)
      (closed : ClosedBut allowed l) where
    refuse-Opens :
        (identity : ClientIdentity) (model : String) (effort : Option String) (error : ApiError)
        → Opens allowed (refuse c d model_of config headers identity model effort error l)
    unfolding reject_request
    refuse-Opens identity model effort error =
        after_rejection-Opens allowed error _
          (record_rejection-ClosedBut c.db.1 _ model effort (some 400) c.now allowed l closed)

    admit_parsed-Opens :
        (identity : ClientIdentity) (parsed : Value) (model : String) (candidates : ModelCandidates)
        → model_candidates config model (and_then (pointer parsed "reasoning" "effort") as_str)
          ≡ ok (some candidates)
        → Opens allowed (
            admit_parsed c d model_of config headers identity parsed model
              (and_then (pointer parsed "reasoning" "effort") as_str)
              candidates
              l)
    unfolding admit_parsed admit_request
    admit_parsed-Opens identity parsed model candidates found =
        elim (Result-cases (normalize_responses_request parsed)) [
          | inl (e, p) ↦ rw (p, admit_parsed) (refuse-Opens identity model _ e)
          | inr (body, p) ↦ elim (Result-cases (from_headers identity.id headers)) [
            | inl (e, s) ↦ rw (p, admit_parsed) (rw s (refuse-Opens identity model _ e))
            | inr (key, s) ↦
                rw (p, admit_parsed)
                  (rw s (
                    after_admission-Opens allowed d model_of key headers body candidates
                      (admit_request c identity candidates responses_protocol http_sse l) r
                      (begin-IsValid c _ identity.quota candidates l q v)
                      (begin-OpensFor c _ identity.quota candidates allowed l q closed)
                      (begin_request-Chooses c.db c.others _ identity.quota candidates c.now l)
                      (λ effective a.
                        normalized-apply config parsed body model candidates effective
                          (normalize-NormalizedFrom parsed body p) found a)))
          ]
        ]

    handle_parsed-Opens :
        (identity : ClientIdentity) (parsed : Value)
        → Opens allowed (handle_parsed c d model_of config headers identity parsed l)
    unfolding handle_parsed
    handle_parsed-Opens identity parsed =
        let model = unwrap_or (requested_string parsed "model") "" in
        let effort = and_then (pointer parsed "reasoning" "effort") as_str in
        elim (Result-cases (model_candidates config model effort)) [
          | inl (e, p) ↦ absurd (model_candidates_total config model effort e checked p)
          | inr (none, p) ↦ rw (p, handle_parsed) (refuse-Opens identity model effort _)
          | inr (some candidates, p) ↦
              rw (p, handle_parsed) (admit_parsed-Opens identity parsed model candidates p)
        ]

    -- With a validated configuration the handler of a Responses request never panics. Where it
    -- returns an error, no row is open that was not open before; where it hands a turn to the
    -- sessions, the row that the turn's handle finalizes is the only one. The store answers, and no
    -- other task writes.
    pub responses_hands_on :
        (received : String) → Opens allowed (responses c d model_of config headers received l)
    unfolding responses
    responses_hands_on received = elim (Result-cases (authenticate headers config.api_keys)) [
      | inl (e, p) ↦ rw (p, responses) closed
      | inr (identity, p) ↦ elim (Option-cases (from_str received)) [
        | inl s ↦ rw (p, responses) (rw s (refuse-Opens identity "" none _))
        | inr (parsed, s) ↦ rw (p, responses) (rw s (handle_parsed-Opens identity parsed))
      ]
    ]
