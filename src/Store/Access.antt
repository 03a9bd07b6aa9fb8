-- ===== src/Store/Access.antt =====
-- The two readers of the quota agree: `begin_request`, which admits a request, and `model_access`,
-- which says what the models endpoint shows (src/store.rs).
use codex_api.Common.{
  ℕ, ◌≡◌, refl, ℤ, Bool, true, false, some, ok, err, ◌⊎◌, inl, inr, if◌then◌else◌, arith, is_some,
  Result-cases, Option-cases, subst,
}
use codex_api.Store.Decimals.{Decimals}
use codex_api.Store.Times.{Times}
use codex_api.Store.Types.{
  QuotaLimits, ModelCandidates, ModelAccess, everything, fallback_only, blocked, RequestContext,
  Admission, admitted, weekly_quota_exceeded,
}
use codex_api.Store.Ledger.{Ledger}
use codex_api.Store.Quota.{
  spend_meets_limit, limited_access, model_access, current_week_spend_nano_usd,
}
use codex_api.Store.Cost.{timestamp_ms}
use codex_api.Store.Requests.{
  Verdict, verdict, decide, assess, begin_request, admission, insert, request_row, Outcome,
}

module _ ⦃D : Decimals⦄ where
  open D use {Decimal}

  -- What an admission means for the models that a key may use.
  abbrev pub Agrees : ModelCandidates → Admission → ModelAccess → Type 0
  Agrees candidates weekly_quota_exceeded access = access ≡ blocked
  Agrees candidates (admitted id model) access =
      ((access ≡ everything) × (model ≡ candidates.primary))
      ⊎ ((access ≡ fallback_only) × (candidates.fallback ≡ some model))

  abbrev admission_of : ℕ → Verdict → Admission
  admission_of id v = if v.rejected then weekly_quota_exceeded else admitted id v.effective_model

  abbrev access_of : Bool → Bool → Bool → ModelAccess
  access_of soft hard has_fallback =
      if hard
      then blocked
      else if soft
      then (if has_fallback then fallback_only else blocked)
      else everything

  verdict-Agrees :
      (soft hard : Bool) (candidates : ModelCandidates) (id : ℕ)
      → Agrees candidates
          (admission_of id (verdict soft hard candidates))
          (access_of soft hard (is_some candidates.fallback))
  verdict-Agrees soft true candidates id = refl
  verdict-Agrees false false candidates id = inl (refl, refl)
  verdict-Agrees true false candidates id = elim (Option-cases candidates.fallback) [
    | inl e ↦ rw e refl
    | inr (model, e) ↦ rw e (inr (refl, refl))
  ]

  decide-Agrees :
      (spent : Decimal) (quota : QuotaLimits) (candidates : ModelCandidates) (v : Verdict) (id : ℕ)
      → decide spent quota candidates ≡ ok v
      → (access : ModelAccess) × (limited_access spent quota (is_some candidates.fallback)
          ≡ ok access)
        × Agrees candidates (admission_of id v) access
  unfolding decide limited_access
  decide-Agrees spent quota candidates v id h =
      elim (Result-cases (spend_meets_limit spent quota.weekly_limit_usd)) [
        | inl (_, p) ↦ cc (rw (p, decide) at h)
        | inr (soft, p) ↦ elim (Result-cases (spend_meets_limit spent quota.hard_limit_usd)) [
          | inl (_, q) ↦ cc (rw (p, q, decide) at h)
          | inr (hard, q) ↦
              let e : verdict soft hard candidates ≡ v = cc (rw (p, q, decide) at h) in
              (
                access_of soft hard (is_some candidates.fallback),
                rw (q, limited_access) (rw (p, limited_access) (ground arith)),
                subst
                    (λ w.
                      Agrees candidates (admission_of id w)
                        (access_of soft hard (is_some candidates.fallback)))
                    e (verdict-Agrees soft hard candidates id),
              )
        ]
      ]

  admission-ok :
      (v : Verdict) (o : Outcome ℕ) (outcome : Admission)
      → (admission v o).0 ≡ ok outcome
      → (id : ℕ) × (outcome ≡ admission_of id v)
  admission-ok v (ok id, l) outcome h = (id, cc)
  admission-ok v (err e, l) outcome h = cc

module _ ⦃D : Decimals⦄ ⦃T : Times⦄ where
  open D use {Decimal}
  open T use {OffsetDateTime}

  assess-ok :
      (context : RequestContext) (quota : QuotaLimits) (candidates : ModelCandidates)
      (now : OffsetDateTime) (l : Ledger) (a : ℤ × Verdict)
      → assess true context quota candidates now l ≡ ok a
      → (spent : Decimal) × (current_week_spend_nano_usd true context.api_key_id now l ≡ ok spent)
        × (decide spent quota candidates ≡ ok a.1)
  unfolding assess
  assess-ok context quota candidates now l a h = elim (Result-cases (timestamp_ms now)) [
    | inl (_, p) ↦ cc (rw (p, assess) at h)
    | inr (at, p) ↦
        elim (Result-cases (current_week_spend_nano_usd true context.api_key_id now l)) [
          | inl (_, q) ↦ cc (rw (p, q, assess) at h)
          | inr (spent, q) ↦ (spent, q, ground arith)
        ]
  ]

  -- For a key with a weekly limit, at one instant and on one ledger: a request that the quota turns
  -- away finds the models endpoint blocked, one that is admitted with its own model finds every
  -- model listed, and one that is rewritten to the fallback model finds the fallback alone.
  pub begin_request-Agrees :
      (accepts : Bool) (others : Ledger → Ledger) (context : RequestContext) (quota : QuotaLimits)
      (candidates : ModelCandidates) (now : OffsetDateTime) (l : Ledger) (limit : Decimal)
      (outcome : Admission)
      → quota.weekly_limit_usd ≡ some limit
      → (begin_request (true, accepts) others context quota candidates now l).0 ≡ ok outcome
      → (access : ModelAccess) × (model_access true context.api_key_id quota
            (is_some candidates.fallback)
            now
            l
          ≡ ok access)
        × Agrees candidates outcome access
  unfolding begin_request model_access assess
  begin_request-Agrees accepts others context quota candidates now l limit outcome w h =
      elim (Result-cases (assess true context quota candidates now l)) [
        | inl (_, p) ↦ cc (rw (p, begin_request) at h)
        | inr (a, p) ↦
            let (spent, e, d) = assess-ok context quota candidates now l a p in
            let (id, o) =
              admission-ok a.1 (insert accepts (request_row context a.0 a.1) (others l)) outcome
                (rw (p, begin_request) at h) in
            let (access, f, agrees) = decide-Agrees spent quota candidates a.1 id d in
            (access, rw (w, model_access) (rw (e, model_access) f), rw o agrees)
      ]
