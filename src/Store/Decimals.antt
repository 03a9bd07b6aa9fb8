-- ===== src/Store/Decimals.antt =====
-- What src/store.rs and src/config.rs use of the crate rust_decimal: its operations, and what its
-- documentation says of them where no digit is lost (a 96-bit coefficient, a scale of at most 28).
use Prim.Native.Nat.{◌^◌}
use codex_api.Common.{
  ℕ, ◌+◌, ◌*◌, ◌/◌, ◌≤◌, ◌<◌, ◌≡◌, ℤ, pos, Bool, false, Option, none, some, leb, ltb, if◌then◌else◌,
  i64_bound,
}

pub record Decimals : Type 1 where
  pub Decimal : Type 0
  -- `Decimal::from` of a number that is not negative
  pub from_ℕ : ℕ → Decimal
  pub checked_mul : Decimal → Decimal → Option Decimal
  pub checked_add : Decimal → Decimal → Option Decimal
  -- `a >= b`
  pub ge : Decimal → Decimal → Bool
  -- `round_dp_with_strategy(0, RoundingStrategy::MidpointAwayFromZero)`
  pub round_half_up : Decimal → Decimal
  pub to_i64 : Decimal → Option ℤ
  -- `d < Decimal::ZERO`
  pub is_negative : Decimal → Bool
  -- The value is `coefficient / 10 ^ scale`, and not negative.
  pub IsExact : Decimal → ℕ → ℕ → Type 0
  pub from_ℕ-IsExact : (n : ℕ) → n < 2 ^ 64 → IsExact (from_ℕ n) n 0
  pub mul-IsExact :
      (a b : Decimal) (m n s t : ℕ)
      → IsExact a m s
      → IsExact b n t
      → m * n < 2 ^ 96
      → s + t ≤ 28
      → (c : Decimal) × (checked_mul a b ≡ some c) × IsExact c (m * n) (s + t)
  pub add-IsExact :
      (a b : Decimal) (m n s : ℕ)
      → IsExact a m s
      → IsExact b n s
      → m + n < 2 ^ 96
      → (c : Decimal) × (checked_add a b ≡ some c) × IsExact c (m + n) s
  pub ge-IsExact :
      (a b : Decimal) (m n s t : ℕ)
      → IsExact a m s
      → IsExact b n t
      → ge a b ≡ leb (n * 10 ^ s) (m * 10 ^ t)
  pub round-IsExact :
      (a : Decimal) (m s : ℕ)
      → IsExact a m s
      → IsExact (round_half_up a) ((2 * m + 10 ^ s) / (2 * 10 ^ s)) 0
  pub to_i64-IsExact :
      (a : Decimal) (m : ℕ)
      → IsExact a m 0
      → to_i64 a ≡ (if ltb m i64_bound then some (pos m) else none)
  pub nonneg-IsExact : (a : Decimal) (m s : ℕ) → IsExact a m s → is_negative a ≡ false
