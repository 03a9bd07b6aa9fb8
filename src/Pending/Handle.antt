-- ===== src/Pending/Handle.antt =====
-- src/http_api/request.rs: `PendingRequest`. The task that each operation spawns runs to its end,
-- whether or not its caller waits for it. A panic is `none`.
use codex_api.Common.{ℕ, Bool, Option, none, some, Result, ok, err, map_err}
use codex_api.Store.Decimals.{Decimals}
use codex_api.Store.Times.{Times}
use codex_api.Store.Types.{FinalStatus, canceled, upstream_error, BillableUsage}
use codex_api.Store.Ledger.{Ledger}
use codex_api.Store.Requests.{Outcome}
use codex_api.Store.Finalize.{finalize_request}
use codex_api.Errors.Api.{ApiError, internal}

pub record OpenRequest : Type 0 where
  pub request_id : ℕ
  pub drop_status : FinalStatus
  pub drop_http_status : Option ℕ

-- The source's `State`.
pub data Handle : Type 0 where
  opened : OpenRequest → Handle
  finalized : Handle

unfoldable pub new : ℕ → Handle
new request_id =
    opened (record { request_id = request_id; drop_status = canceled; drop_http_status = none })

unfoldable pub response_started : ℕ → Handle → Option Handle
response_started status finalized = none
response_started status (opened o) = some (opened (record o { drop_http_status = some status }))

-- The open request, and the handle that is left.
unfoldable pub take_open : Handle → Option (OpenRequest × Handle)
take_open finalized = none
take_open (opened o) = some (o, finalized)

module _ ⦃D : Decimals⦄ ⦃T : Times⦄ where
  open T use {OffsetDateTime}

  -- What one call of the store meets: whether the database answers the read and accepts the write,
  -- what other tasks commit in between, and the clock.
  pub record Circumstances : Type 0 where
    pub db : Bool × Bool
    pub others : Ledger → Ledger
    pub now : OffsetDateTime

  abbrev pub finalize :
      Circumstances
      → ℕ
      → FinalStatus
      → Option ℕ
      → Option BillableUsage
      → Ledger
      → Outcome (Unit {0})
  finalize c id status http usage l = finalize_request c.db c.others id status http usage c.now l

  unfoldable pub finish :
      Circumstances
      → FinalStatus
      → Option ℕ
      → Option BillableUsage
      → Handle
      → Ledger
      → Option (Result ApiError (Unit {0}) × Handle × Ledger)
  finish c status http usage handle l = elim (take_open handle) [
    | none ↦ none
    | some (o, rest) ↦
        let (result, after) = finalize c o.request_id status http usage l in
        some (map_err (λ _. internal) result, rest, after)
  ]

  -- The second attempt has the status `upstream_error` and no usage.
  abbrev pub fall_back :
      Circumstances → ℕ → ℕ → Outcome (Unit {0}) → Result (Unit {0}) (Unit {0}) × Ledger
  fall_back c id http (ok _, l) = (ok tt, l)
  fall_back c id http (err _, l) = (err tt, (finalize c id upstream_error (some http) none l).1)

  unfoldable pub finish_terminal :
      Circumstances
      → Circumstances
      → FinalStatus
      → ℕ
      → ℕ
      → Option BillableUsage
      → Handle
      → Ledger
      → Option (Result (Unit {0}) (Unit {0}) × Handle × Ledger)
  finish_terminal c d status http fallback_http usage handle l = elim (take_open handle) [
    | none ↦ none
    | some (o, rest) ↦
        let (result, after) =
          fall_back d o.request_id fallback_http
            (finalize c o.request_id status (some http) usage l) in
        some (result, rest, after)
  ]

  -- `Drop::drop`
  unfoldable pub drop : Circumstances → Handle → Ledger → Handle × Ledger
  drop c finalized l = (finalized, l)
  drop c (opened o) l =
      (finalized, (finalize c o.request_id o.drop_status o.drop_http_status none l).1)
