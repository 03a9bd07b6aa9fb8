-- ===== src/Store/Cost.antt =====
-- src/store.rs: `calculate_cost_nano_usd`, `token_count` and the 64-bit conversions of time stamps.
use codex_api.Common.{
  ℕ, ◌-◌, ◌/◌, ℤ, pos, negsuc, fits_i64, i64_bound, Option, Result, ok, err, ◌>>=◌, ◌>>◌, ensure,
  ok_or, ltb, leb, if◌then◌else◌, and_then, transpose, map_option,
}
use codex_api.Store.Decimals.{Decimals}
use codex_api.Store.Times.{Times}
use codex_api.Store.Types.{
  BillableUsage, StoreError, invalid_usage, usage_out_of_range, cost_out_of_range,
  timestamp_out_of_range,
}

module _ ⦃D : Decimals⦄ where
  open D use {Decimal, from_ℕ, checked_mul, checked_add, round_half_up, to_i64}

  -- The weighted sum, in thousandths of a nano-USD before the last factor.
  unfoldable pub weighted_cost : BillableUsage → Option Decimal
  weighted_cost usage =
      and_then
        (and_then
          (and_then
            (checked_mul (from_ℕ (usage.input_tokens - usage.cached_input_tokens))
              usage.rates.input_usd_per_million)
            (λ value.
              and_then
                (checked_mul (from_ℕ usage.cached_input_tokens)
                  usage.rates.cached_input_usd_per_million)
                (λ cached_cost. checked_add value cached_cost)))
          (λ value.
            and_then (checked_mul (from_ℕ usage.output_tokens) usage.rates.output_usd_per_million)
              (λ output_cost. checked_add value output_cost)))
        (λ value. checked_mul value (from_ℕ 1000))

  unfoldable pub calculate_cost_nano_usd : BillableUsage → Result StoreError ℤ
  calculate_cost_nano_usd usage = do
    ensure (leb usage.cached_input_tokens usage.input_tokens) invalid_usage
    weighted ← ok_or (weighted_cost usage) cost_out_of_range
    ok_or (to_i64 (round_half_up weighted)) cost_out_of_range

unfoldable pub token_count : ℕ → Result StoreError ℕ
token_count value = if ltb value i64_bound then ok value else err usage_out_of_range

-- `div_euclid(1_000_000)`
unfoldable pub div_million : ℤ → ℤ
div_million (pos n) = pos (n / 1_000_000)
div_million (negsuc n) = negsuc (n / 1_000_000)

unfoldable pub to_i64_or_range : ℤ → Result StoreError ℤ
to_i64_or_range n = if fits_i64 n then ok n else err timestamp_out_of_range

module _ ⦃T : Times⦄ where
  open T use {OffsetDateTime, unix_timestamp_nanos, from_nanos}

  unfoldable pub timestamp_ns : OffsetDateTime → Result StoreError ℤ
  timestamp_ns value = to_i64_or_range (unix_timestamp_nanos value)

  unfoldable pub timestamp_ms : OffsetDateTime → Result StoreError ℤ
  timestamp_ms value = to_i64_or_range (div_million (unix_timestamp_nanos value))

  unfoldable pub optional_timestamp_ns : Option OffsetDateTime → Result StoreError (Option ℤ)
  optional_timestamp_ns value = transpose (map_option timestamp_ns value)
