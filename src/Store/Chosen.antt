-- ===== src/Store/Chosen.antt =====
-- The model that `begin_request` of src/store.rs admits is one of the candidates.
use codex_api.Common.{
  ℕ, ℤ, ◌≡◌, refl, ◌⊎◌, inl, inr, Bool, true, false, not, ◌&&◌, ◌||◌, some, is_none, ok, err,
  Result-cases, Option-cases, Bool-cases, bind-ok, ok-injective, subst, ap,
}
use codex_api.Store.Decimals.{Decimals}
use codex_api.Store.Times.{Times}
use codex_api.Store.Types.{
  QuotaLimits, ModelCandidates, EffectiveModel, Admission, admitted, weekly_quota_exceeded,
  RequestContext,
}
use codex_api.Store.Ledger.{Ledger}
use codex_api.Store.Quota.{spend_meets_limit, current_week_spend_nano_usd}
use codex_api.Store.Cost.{timestamp_ms}
use codex_api.Store.Requests.{Outcome, Verdict, chosen, decide, assess, admission, begin_request}

module _ ⦃D : Decimals⦄ where
  open D use {Decimal}

  abbrev pub IsCandidate : ModelCandidates → EffectiveModel → Type 0
  IsCandidate candidates effective =
      (effective ≡ candidates.primary) ⊎ (candidates.fallback ≡ some effective)

  chosen-IsCandidate :
      (use_fallback : Bool) (candidates : ModelCandidates)
      → IsCandidate candidates (chosen use_fallback candidates)
  chosen-IsCandidate false candidates = inl refl
  chosen-IsCandidate true candidates = elim (Option-cases candidates.fallback) [
    | inl p ↦ inl (rw (p, chosen) refl)
    | inr (fallback, p) ↦ inr (rw (p, chosen) refl)
  ]

  decide-IsCandidate :
      (spent : Decimal) (quota : QuotaLimits) (candidates : ModelCandidates) (v : Verdict)
      → decide spent quota candidates ≡ ok v
      → IsCandidate candidates v.effective_model
  unfolding decide
  decide-IsCandidate spent quota candidates v h =
      let (soft, _, h1) = bind-ok (spend_meets_limit spent quota.weekly_limit_usd) _ v h in
      let (hard, _, h2) = bind-ok (spend_meets_limit spent quota.hard_limit_usd) _ v h1 in
      subst (λ (w : Verdict). IsCandidate candidates w.effective_model) (ok-injective _ v h2)
        (chosen-IsCandidate (soft && not (hard || (soft && is_none candidates.fallback)))
          candidates)

  -- What an outcome of an admission says of the candidates.
  abbrev pub Chooses : ModelCandidates → Outcome Admission → Type 0
  Chooses candidates (ok (admitted id effective), l) = IsCandidate candidates effective
  Chooses candidates (ok weekly_quota_exceeded, l) = Unit
  Chooses candidates (err _, l) = Unit

  admission-Chooses :
      (candidates : ModelCandidates) (v : Verdict) (o : Outcome ℕ)
      → IsCandidate candidates v.effective_model
      → Chooses candidates (admission v o)
  admission-Chooses candidates v (err e, l) c = tt
  admission-Chooses candidates v (ok id, l) c = elim (Bool-cases v.rejected) [
    | inl p ↦ rw p tt
    | inr p ↦ rw p c
  ]

module _ ⦃D : Decimals⦄ ⦃T : Times⦄ where
  open T use {OffsetDateTime}

  pub begin_request-Chooses :
      (db : Bool × Bool) (others : Ledger → Ledger) (context : RequestContext) (quota : QuotaLimits)
      (candidates : ModelCandidates) (now : OffsetDateTime) (l : Ledger)
      → Chooses candidates (begin_request db others context quota candidates now l)
  unfolding begin_request assess
  begin_request-Chooses (answers, accepts) others context quota candidates now l =
      elim (Result-cases (assess answers context quota candidates now l)) [
        | inl (e, p) ↦ rw (p, begin_request) tt
        | inr (a, p) ↦
            let (at, _, h1) = bind-ok (timestamp_ms now) _ a p in
            let (spent, _, h2) =
              bind-ok (current_week_spend_nano_usd answers context.api_key_id now l) _ a h1 in
            let (v, d, h3) = bind-ok (decide spent quota candidates) _ a h2 in
            let c =
              subst (λ (w : Verdict). IsCandidate candidates w.effective_model)
                (ap (λ (x : ℤ × Verdict). x.1) (ok-injective (at, v) a h3))
                (decide-IsCandidate spent quota candidates v d) in
            rw (p, begin_request) (admission-Chooses candidates a.1 _ c)
      ]
