-- ===== src/Store/Requests.antt =====
-- src/store.rs: `begin_request` and `record_rejection`.
-- Each takes the instant that the clock answers and whether the database answers; what other
-- tasks commit between the statements of one operation is the argument `others`: the resulting
-- ledger contains those commits too.
use codex_api.Common.{
  ℕ, ◌≡◌, ℤ, Bool, true, false, Option, none, some, String, Result, ok, err, ◌>>=◌, if◌then◌else◌,
  not, arith, ◌&&◌, ◌||◌, is_none, is_some,
}
use codex_api.Store.Decimals.{Decimals}
use codex_api.Store.Times.{Times}
use codex_api.Store.Types.{
  QuotaLimits, EffectiveModel, ModelCandidates, Admission, admitted, weekly_quota_exceeded,
  RequestContext, Transport, http_sse, web_socket, StoreError, database, protocol_str,
  transport_str,
}
use codex_api.Store.Ledger.{Row, Ledger, insert_row}
use codex_api.Store.Cost.{timestamp_ms}
use codex_api.Store.Quota.{spend_meets_limit, current_week_spend_nano_usd}

-- The state after an operation, and its result.
abbrev pub Outcome : Type 0 → Type 0
Outcome A = Result StoreError A × Ledger

-- The INSERT: it fails if the database does not answer or a constraint is violated.
unfoldable pub insert : Bool → Row → Ledger → Outcome ℕ
insert available r ledger = elim available [
  | false ↦ (err database, ledger)
  | true ↦ elim (insert_row r ledger) [
    | none ↦ (err database, ledger)
    | some (id, after) ↦ (ok id, after)
  ]
]

abbrev pub rejection_status : Transport → Option ℕ
rejection_status http_sse = some 429
rejection_status web_socket = none

module _ ⦃D : Decimals⦄ where
  open D use {Decimal}

  -- The decision of `begin_request`.
  pub record Verdict : Type 0 where
    pub rejected : Bool
    pub effective_model : EffectiveModel

  -- The source's `expect` on the fallback holds, by the lemma `fallback_present`.
  abbrev pub chosen : Bool → ModelCandidates → EffectiveModel
  chosen use_fallback candidates = elim use_fallback [
    | true ↦ elim candidates.fallback [ none ↦ candidates.primary | some fallback ↦ fallback ]
    | false ↦ candidates.primary
  ]

  abbrev pub verdict : Bool → Bool → ModelCandidates → Verdict
  verdict soft_exceeded hard_exceeded candidates =
      let rejected = hard_exceeded || (soft_exceeded && is_none candidates.fallback) in
      let use_fallback = soft_exceeded && not rejected in
      record { rejected = rejected; effective_model = chosen use_fallback candidates }

  fallback_present :
      (soft hard : Bool) (candidates : ModelCandidates)
      → soft && not (hard || (soft && is_none candidates.fallback)) ≡ true
      → is_some candidates.fallback ≡ true
  fallback_present soft hard candidates h = ground arith

  unfoldable pub decide : Decimal → QuotaLimits → ModelCandidates → Result StoreError Verdict
  decide spent quota candidates = do
    soft_exceeded ← spend_meets_limit spent quota.weekly_limit_usd
    hard_exceeded ← spend_meets_limit spent quota.hard_limit_usd
    ok (verdict soft_exceeded hard_exceeded candidates)

  -- The row that `begin_request` inserts.
  unfoldable pub request_row : RequestContext → ℤ → Verdict → Row
  request_row context requested_at_ms verdict = record {
    id = 0;
    requested_at_ms = requested_at_ms;
    finished_at_ms = if verdict.rejected then some requested_at_ms else none;
    api_key_id = context.api_key_id;
    model = verdict.effective_model.model;
    reasoning_effort = verdict.effective_model.reasoning_effort;
    api_protocol = protocol_str context.api_protocol;
    transport = transport_str context.transport;
    input_tokens = none;
    cached_input_tokens = none;
    output_tokens = none;
    cost_nano_usd = none;
    duration_ms = if verdict.rejected then some 0 else none;
    status = if verdict.rejected then "rejected" else "started";
    http_status = if verdict.rejected then rejection_status context.transport else none;
  }

  abbrev pub admission : Verdict → Outcome ℕ → Outcome Admission
  admission verdict (err e, ledger) = (err e, ledger)
  admission verdict (ok request_id, ledger) = (
    ok (
        if verdict.rejected
        then weekly_quota_exceeded
        else admitted request_id verdict.effective_model),
    ledger,
  )

module _ ⦃D : Decimals⦄ ⦃T : Times⦄ where
  open T use {OffsetDateTime}

  -- What precedes the INSERT: the time stamp and the decision.
  unfoldable pub assess :
      Bool
      → RequestContext
      → QuotaLimits
      → ModelCandidates
      → OffsetDateTime
      → Ledger
      → Result StoreError (ℤ × Verdict)
  assess answers context quota candidates now ledger = do
    requested_at_ms ← timestamp_ms now
    spent ← current_week_spend_nano_usd answers context.api_key_id now ledger
    verdict ← decide spent quota candidates
    ok (requested_at_ms, verdict)

  unfoldable pub begin_request :
      Bool × Bool
      → (Ledger → Ledger)
      → RequestContext
      → QuotaLimits
      → ModelCandidates
      → OffsetDateTime
      → Ledger
      → Outcome Admission
  begin_request (answers, accepts) others context quota candidates now ledger =
      elim (assess answers context quota candidates now ledger) [
        | err e ↦ (err e, others ledger)
        | ok (requested_at_ms, verdict) ↦
            admission verdict
              (insert accepts (request_row context requested_at_ms verdict) (others ledger))
      ]

unfoldable pub rejection_row : RequestContext → String → Option String → Option ℕ → ℤ → Row
rejection_row context model reasoning_effort http_status requested_at_ms = record {
  id = 0;
  requested_at_ms = requested_at_ms;
  finished_at_ms = some requested_at_ms;
  api_key_id = context.api_key_id;
  model = model;
  reasoning_effort = reasoning_effort;
  api_protocol = protocol_str context.api_protocol;
  transport = transport_str context.transport;
  input_tokens = none;
  cached_input_tokens = none;
  output_tokens = none;
  cost_nano_usd = none;
  duration_ms = some 0;
  status = "rejected";
  http_status = http_status;
}

module _ ⦃T : Times⦄ where
  open T use {OffsetDateTime}

  unfoldable pub record_rejection :
      Bool
      → RequestContext
      → String
      → Option String
      → Option ℕ
      → OffsetDateTime
      → Ledger
      → Outcome ℕ
  record_rejection accepts context model reasoning_effort http_status now ledger =
      elim (timestamp_ms now) [
        | err e ↦ (err e, ledger)
        | ok requested_at_ms ↦
            insert accepts
              (rejection_row context model reasoning_effort http_status requested_at_ms) ledger
      ]
