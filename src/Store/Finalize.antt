-- ===== src/Store/Finalize.antt =====
-- src/store.rs: `finalize_request`, with the arguments of the operations of Store/Requests.
use codex_api.Common.{
  ℕ, ◌+◌, ◌-◌, ℤ, pos, negsuc, pos_part, neg_part, i64_bound, Bool, true, false, Option, none, some,
  Result, ok, err, ◌>>=◌, ◌>>◌, ensure, ok_or, nat_eq, if◌then◌else◌, ◌&&◌, min, map_option,
}
use codex_api.Store.Decimals.{Decimals}
use codex_api.Store.Times.{Times}
use codex_api.Store.Types.{
  BillableUsage, FinalStatus, StoreError, database, request_not_started, status_str,
}
use codex_api.Store.Ledger.{Row, Ledger, select_started, update_started, update_checks}
use codex_api.Store.Cost.{calculate_cost_nano_usd, token_count, timestamp_ms}
use codex_api.Store.Requests.{Outcome}

-- `finished.saturating_sub(requested).max(0)` on 64-bit integers.
unfoldable pub elapsed_ms : ℤ → ℤ → ℕ
elapsed_ms requested finished =
    min (i64_bound - 1)
      (pos_part finished + neg_part requested - (pos_part requested + neg_part finished))

-- The columns that the usage fills.
pub record Charge : Type 0 where
  pub input_tokens : Option ℕ
  pub cached_input_tokens : Option ℕ
  pub output_tokens : Option ℕ
  pub cost_nano_usd : Option ℤ

-- `CHECK (cost_nano_usd >= 0)`: the cost as the column holds it.
abbrev pub cost_fits : Option ℤ → Bool
cost_fits none = true
cost_fits (some (pos n)) = true
cost_fits (some (negsuc n)) = false

unfoldable pub finished_row : ℤ → ℤ → FinalStatus → Option ℕ → Charge → Row → Row
finished_row requested_at_ms finished_at_ms status http_status charge r = record r {
  finished_at_ms = some finished_at_ms;
  input_tokens = charge.input_tokens;
  cached_input_tokens = charge.cached_input_tokens;
  output_tokens = charge.output_tokens;
  cost_nano_usd = map_option pos_part charge.cost_nano_usd;
  duration_ms = some (elapsed_ms requested_at_ms finished_at_ms);
  status = status_str status;
  http_status = http_status;
}

-- The UPDATE: it must affect exactly one row.
unfoldable pub update : Bool → ℕ → (Row → Row) → Option ℤ → Ledger → Outcome (Unit {0})
update accepts request_id f cost ledger =
    if accepts && update_checks (cost_fits cost) request_id f ledger.rows
    then (let (rows, affected) = update_started request_id f ledger.rows in
        (
          (if nat_eq affected 1 then ok tt else err (request_not_started request_id)),
          record ledger { rows = rows },
        ))
    else (err database, ledger)

module _ ⦃D : Decimals⦄ where
  unfoldable pub charge_of : Option BillableUsage → Result StoreError Charge
  charge_of none = ok (record {
    input_tokens = none;
    cached_input_tokens = none;
    output_tokens = none;
    cost_nano_usd = none;
  })
  charge_of (some usage) = do
    input ← token_count usage.input_tokens
    cached ← token_count usage.cached_input_tokens
    output ← token_count usage.output_tokens
    cost ← calculate_cost_nano_usd usage
    ok (record {
      input_tokens = some input;
      cached_input_tokens = some cached;
      output_tokens = some output;
      cost_nano_usd = some cost;
    })

module _ ⦃D : Decimals⦄ ⦃T : Times⦄ where
  open T use {OffsetDateTime}

  -- What precedes the UPDATE: the row must be started, and the usage must have a cost.
  unfoldable pub settle :
      Bool → ℕ → Option BillableUsage → OffsetDateTime → Ledger → Result StoreError (ℤ × ℤ × Charge)
  settle answers request_id usage now ledger = do
    ensure answers database
    requested_at_ms ← ok_or (select_started request_id ledger.rows) (request_not_started request_id)
    finished_at_ms ← timestamp_ms now
    charge ← charge_of usage
    ok (requested_at_ms, finished_at_ms, charge)

  unfoldable pub finalize_request :
      Bool × Bool
      → (Ledger → Ledger)
      → ℕ
      → FinalStatus
      → Option ℕ
      → Option BillableUsage
      → OffsetDateTime
      → Ledger
      → Outcome (Unit {0})
  finalize_request (answers, accepts) others request_id status http_status usage now ledger =
      elim (settle answers request_id usage now ledger) [
        | err e ↦ (err e, others ledger)
        | ok (requested_at_ms, finished_at_ms, charge) ↦
            update accepts request_id
              (finished_row requested_at_ms finished_at_ms status http_status charge)
              charge.cost_nano_usd (others ledger)
      ]
