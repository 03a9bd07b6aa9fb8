-- ===== src/Store/Quota.antt =====
-- src/store.rs: the quota window and the comparison of spend with a limit.
use codex_api.Common.{
  ℕ, suc, ◌+◌, ◌-◌, ℤ, pos, negsuc, fits_i64, i64_bound, Bool, false, Option, none, some, String,
  Result, ok, ◌>>=◌, ◌>>◌, ensure, ok_or, ltb, if◌then◌else◌,
}
use codex_api.Store.Decimals.{Decimals}
use codex_api.Store.Times.{Times}
use codex_api.Store.Types.{
  QuotaLimits, ModelAccess, everything, fallback_only, blocked, StoreError, database,
  cost_out_of_range, timestamp_out_of_range,
}
use codex_api.Store.Ledger.{Ledger, sum_costs}
use codex_api.Store.Cost.{timestamp_ms}

-- n + k, as an integer.
unfoldable pub add_ℕ : ℤ → ℕ → ℤ
add_ℕ (pos n) k = pos (n + k)
add_ℕ (negsuc n) k = if ltb n k then pos (k - suc n) else negsuc (n - k)

-- `i64::checked_add` of a number that is not negative.
unfoldable pub checked_add_i64 : ℤ → ℕ → Option ℤ
checked_add_i64 n k = if fits_i64 (add_ℕ n k) then some (add_ℕ n k) else none

abbrev pub week_ms : ℕ
week_ms = 604_800_000

module _ ⦃D : Decimals⦄ where
  open D use {Decimal, from_ℕ, checked_mul, ge}

  unfoldable pub spend_meets_limit : Decimal → Option Decimal → Result StoreError Bool
  spend_meets_limit spent_nano_usd none = ok false
  spend_meets_limit spent_nano_usd (some limit) = do
    limit_nano_usd ← ok_or (checked_mul limit (from_ℕ 1_000_000_000)) cost_out_of_range
    ok (ge spent_nano_usd limit_nano_usd)

  unfoldable pub limited_access : Decimal → QuotaLimits → Bool → Result StoreError ModelAccess
  limited_access spent quota has_fallback = do
    hard_exceeded ← spend_meets_limit spent quota.hard_limit_usd
    if hard_exceeded then ok blocked else do
      soft_exceeded ← spend_meets_limit spent quota.weekly_limit_usd
      ok (if soft_exceeded then (if has_fallback then fallback_only else blocked) else everything)

module _ ⦃T : Times⦄ where
  open T use {OffsetDateTime, date, days_from_monday, sub_days, midnight}

  unfoldable pub monday_start : OffsetDateTime → OffsetDateTime
  monday_start now = midnight (sub_days (date now) (days_from_monday now))

  -- The window of `current_week_spend_nano_usd`.
  unfoldable pub week_window : OffsetDateTime → Result StoreError (ℤ × ℤ)
  week_window now = do
    week_start_ms ← timestamp_ms (monday_start now)
    next_week_ms ← ok_or (checked_add_i64 week_start_ms week_ms) timestamp_out_of_range
    ok (week_start_ms, next_week_ms)

-- The SELECT, which fails where the database does: `available` says whether it answers.
unfoldable pub query_spend : Bool → String → ℤ × ℤ → Ledger → Result StoreError ℕ
query_spend available api_key_id (week_start_ms, next_week_ms) ledger = do
  ensure available database
  let spent = sum_costs api_key_id week_start_ms next_week_ms ledger.rows
  ensure (ltb spent i64_bound) database
  ok spent

module _ ⦃D : Decimals⦄ ⦃T : Times⦄ where
  open D use {Decimal, from_ℕ}
  open T use {OffsetDateTime}

  unfoldable pub current_week_spend_nano_usd :
      Bool → String → OffsetDateTime → Ledger → Result StoreError Decimal
  current_week_spend_nano_usd available api_key_id now ledger = do
    window ← week_window now
    spent_nano_usd ← query_spend available api_key_id window ledger
    ok (from_ℕ spent_nano_usd)

  unfoldable pub model_access :
      Bool → String → QuotaLimits → Bool → OffsetDateTime → Ledger → Result StoreError ModelAccess
  model_access available api_key_id quota has_fallback now ledger = elim quota.weekly_limit_usd [
    | none ↦ ok everything
    | some _ ↦ do
      spent ← current_week_spend_nano_usd available api_key_id now ledger
      limited_access spent quota has_fallback
  ]
