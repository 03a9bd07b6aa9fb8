-- ===== src/Store/Exact.antt =====
-- The decimal arithmetic of src/store.rs where the crate loses no digit: the cost of a request is
-- the rounded exact value, and a limit is compared exactly.
use Prim.Native.Nat.{◌^◌}
use codex_api.Common.{
  ℕ, ◌+◌, ◌-◌, ◌*◌, ◌/◌, ◌≤◌, ◌<◌, ◌≡◌, pos, none, some, i64_bound, ok, err, ok_or, ltb, leb,
  le→leb, if◌then◌else◌, arith,
}
use codex_api.Store.Decimals.{Decimals}
use codex_api.Store.Types.{BillableUsage, cost_out_of_range}
use codex_api.Store.Cost.{weighted_cost, calculate_cost_nano_usd}
use codex_api.Store.Quota.{spend_meets_limit}

-- The exact cost in nano-USD, over `10 ^ scale`, of rates in USD per million tokens.
abbrev pub exact_cost : ℕ → ℕ → ℕ → ℕ → ℕ → ℕ → ℕ
exact_cost uncached cached output mi mc mo = (uncached * mi + cached * mc + output * mo) * 1000

-- Half a unit up: the rounding of `m / 10 ^ s`.
abbrev pub half_up : ℕ → ℕ → ℕ
half_up m s = (2 * m + 10 ^ s) / (2 * 10 ^ s)

in_range :
    (n : ℕ)
    → ok_or (if ltb n i64_bound then some (pos n) else none) cost_out_of_range
      ≡ (if ltb n i64_bound then ok (pos n) else err cost_out_of_range)
in_range n = ground arith

module _ ⦃D : Decimals⦄ where
  open D use {
    Decimal, from_ℕ, checked_mul, checked_add, ge, round_half_up, to_i64, IsExact, from_ℕ-IsExact,
    mul-IsExact, add-IsExact, ge-IsExact, round-IsExact, to_i64-IsExact,
  }

  mul_count :
      (n : ℕ) (d : Decimal) (m s : ℕ)
      → n < 2 ^ 64
      → IsExact d m s
      → n * m < 2 ^ 96
      → s ≤ 28
      → (c : Decimal) × (checked_mul (from_ℕ n) d ≡ some c) × IsExact c (n * m) s
  mul_count n d m s h x k l =
      let (c, e, y) = mul-IsExact (from_ℕ n) d n m 0 s (from_ℕ-IsExact n h) x k (omega arith) in
      let z : 0 + s ≡ s = omega arith in (c, e, rw z at y)

  count_mul :
      (n : ℕ) (d : Decimal) (m s : ℕ)
      → n < 2 ^ 64
      → IsExact d m s
      → m * n < 2 ^ 96
      → s ≤ 28
      → (c : Decimal) × (checked_mul d (from_ℕ n) ≡ some c) × IsExact c (m * n) s
  count_mul n d m s h x k l =
      let (c, e, y) = mul-IsExact d (from_ℕ n) m n s 0 x (from_ℕ-IsExact n h) k (omega arith) in
      let z : s + 0 ≡ s = omega arith in (c, e, rw z at y)

  module _ (usage : BillableUsage) (mi mc mo s : ℕ) (input_lt : usage.input_tokens < 2 ^ 64)
      (output_lt : usage.output_tokens < 2 ^ 64)
      (cached_le : usage.cached_input_tokens ≤ usage.input_tokens)
      (input_exact : IsExact usage.rates.input_usd_per_million mi s)
      (cached_exact : IsExact usage.rates.cached_input_usd_per_million mc s)
      (output_exact : IsExact usage.rates.output_usd_per_million mo s) (scale_le : s ≤ 28)
      (fits : exact_cost
          (usage.input_tokens - usage.cached_input_tokens)
          usage.cached_input_tokens
          usage.output_tokens
          mi
          mc
          mo
        < 2 ^ 96) where
    abbrev uncached : ℕ
    uncached = usage.input_tokens - usage.cached_input_tokens

    weighted_cost-IsExact :
        (w : Decimal) × (weighted_cost usage ≡ some w)
        × IsExact w
            (exact_cost
              (usage.input_tokens - usage.cached_input_tokens)
              usage.cached_input_tokens
              usage.output_tokens
              mi
              mc
              mo)
            s
    unfolding weighted_cost
    weighted_cost-IsExact =
        let (a, ea, xa) =
          mul_count uncached usage.rates.input_usd_per_million mi s (omega arith) input_exact
            (omega arith) scale_le in
        let (b, eb, xb) =
          mul_count usage.cached_input_tokens usage.rates.cached_input_usd_per_million mc s
            (omega arith) cached_exact (omega arith) scale_le in
        let (c, ec, xc) =
          mul_count usage.output_tokens usage.rates.output_usd_per_million mo s output_lt
            output_exact (omega arith) scale_le in
        let (d, ed, xd) = add-IsExact a b _ _ s xa xb (omega arith) in
        let (f, ef, xf) = add-IsExact d c _ _ s xd xc (omega arith) in
        let (g, eg, xg) = count_mul 1000 f _ s (omega arith) xf (omega arith) scale_le in
        (g, rw ea (rw eb (rw ed (rw ec (rw ef eg)))), xg)

    -- The cost of a usage whose cached tokens do not exceed its input tokens is the exact sum of
    -- the three products, times a thousand, rounded half up to a whole nano-USD, or the error if
    -- that does not fit in 64 bits: for rates of one scale, where the sum has a 96-bit coefficient.
    pub calculate_cost-exact : calculate_cost_nano_usd usage ≡ (
        if ltb
          (half_up
            (exact_cost
              (usage.input_tokens - usage.cached_input_tokens)
              usage.cached_input_tokens
              usage.output_tokens
              mi
              mc
              mo)
            s)
          i64_bound
        then ok (
            pos (
              half_up
                (exact_cost
                  (usage.input_tokens - usage.cached_input_tokens)
                  usage.cached_input_tokens
                  usage.output_tokens
                  mi
                  mc
                  mo)
                s))
        else err cost_out_of_range)
    unfolding calculate_cost_nano_usd
    calculate_cost-exact =
        let (w, e, x) = weighted_cost-IsExact in
        rw (le→leb _ _ cached_le)
          (rw e (rw (to_i64-IsExact (round_half_up w) _ (round-IsExact w _ s x)) (in_range _)))

  -- A limit that loses no digit is met exactly when the spend, in nano-USD, has reached it.
  pub spend_meets_limit-exact :
      (spent : ℕ) (limit : Decimal) (m s : ℕ)
      → spent < 2 ^ 64
      → IsExact limit m s
      → m * 1_000_000_000 < 2 ^ 96
      → s ≤ 28
      → spend_meets_limit (from_ℕ spent) (some limit)
        ≡ ok (leb (m * 1_000_000_000) (spent * 10 ^ s))
  unfolding spend_meets_limit
  spend_meets_limit-exact spent limit m s h x k l =
      let (c, e, y) = count_mul 1_000_000_000 limit m s (omega arith) x k l in
      rw e (rw (ge-IsExact (from_ℕ spent) c spent _ 0 s (from_ℕ-IsExact spent h) y) (ground arith))
