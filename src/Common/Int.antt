-- ===== src/Common/Int.antt =====
-- Signed integers over the native numbers: time stamps in nanoseconds, and the 64-bit range.
use Prim.Native.Nat.{ℕ, suc, ◌+◌, ◌^◌, ◌≤◌, ◌<◌}
use mathlib.Core.Bool.{Bool}
use codex_api.Common.Tests.{ltb, leb}

-- `negsuc n` is -(n + 1).
pub data ℤ : Type 0 where
  pos : ℕ → ℤ
  negsuc : ℕ → ℤ

abbrev pub pos_part : ℤ → ℕ
pos_part (pos n) = n
pos_part (negsuc n) = 0

abbrev pub neg_part : ℤ → ℕ
neg_part (pos n) = 0
neg_part (negsuc n) = suc n

infix 50 ◌≤ℤ◌ ◌<ℤ◌
abbrev pub ◌≤ℤ◌ : ℤ → ℤ → Type 0
a ≤ℤ b = pos_part a + neg_part b ≤ pos_part b + neg_part a

abbrev pub ◌<ℤ◌ : ℤ → ℤ → Type 0
a <ℤ b = pos_part a + neg_part b < pos_part b + neg_part a

abbrev pub ltb_ℤ : ℤ → ℤ → Bool
ltb_ℤ a b = ltb (pos_part a + neg_part b) (pos_part b + neg_part a)

abbrev pub leb_ℤ : ℤ → ℤ → Bool
leb_ℤ a b = leb (pos_part a + neg_part b) (pos_part b + neg_part a)

abbrev pub i64_bound : ℕ
i64_bound = 2 ^ 63

abbrev pub fits_i64 : ℤ → Bool
fits_i64 (pos n) = ltb n i64_bound
fits_i64 (negsuc n) = ltb n i64_bound
