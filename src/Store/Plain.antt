-- ===== src/Store/Plain.antt =====
-- Instances of the interfaces to decimals and to time: a coefficient with a scale, and a number of
-- nanoseconds. They show that the laws can hold, and the examples run on them.
use Prim.Native.Nat.{◌^◌}
use codex_api.Common.{
  ℕ, ◌+◌, ◌-◌, ◌*◌, ◌/◌, ◌%◌, ◌≤◌, ◌<◌, ◌≡◌, refl, ℤ, pos, negsuc, Bool, true, false, ◌&&◌, Option,
  none, some, leb, ltb, nat_eq, if◌then◌else◌, i64_bound, arith, lt→ltb, le→leb,
}
use codex_api.Store.Decimals.{Decimals}
use codex_api.Store.Times.{Times, day_ns}

pub record Scaled : Type 0 where
  pub coefficient : ℕ
  pub scale : ℕ
  pub negative : Bool

abbrev pub scaled : ℕ → ℕ → Scaled
scaled m s = record { coefficient = m; scale = s; negative = false }

-- The pair as a value, which the operations match on.
abbrev pub mul_scaled : Scaled → Scaled → Option Scaled
mul_scaled a b =
    if ltb (a.coefficient * b.coefficient) (2 ^ 96) && leb (a.scale + b.scale) 28
    then some (scaled (a.coefficient * b.coefficient) (a.scale + b.scale))
    else none

abbrev pub add_scaled : Scaled → Scaled → Option Scaled
add_scaled a b =
    if nat_eq a.scale b.scale && ltb (a.coefficient + b.coefficient) (2 ^ 96)
    then some (scaled (a.coefficient + b.coefficient) a.scale)
    else none

abbrev pub ge_scaled : Scaled → Scaled → Bool
ge_scaled a b =
    if a.negative
    then false
    else if b.negative
    then true
    else leb (b.coefficient * 10 ^ a.scale) (a.coefficient * 10 ^ b.scale)

abbrev pub round_scaled : Scaled → Scaled
round_scaled a = scaled ((2 * a.coefficient + 10 ^ a.scale) / (2 * 10 ^ a.scale)) 0

abbrev pub to_i64_scaled : Scaled → Option ℤ
to_i64_scaled a = if ltb a.coefficient i64_bound then some (pos a.coefficient) else none

abbrev pub Exactly : Scaled → ℕ → ℕ → Type 0
Exactly a m s = a ≡ scaled m s

pub mul_scaled-Exactly :
    (a b : Scaled) (m n s t : ℕ)
    → Exactly a m s
    → Exactly b n t
    → m * n < 2 ^ 96
    → s + t ≤ 28
    → (c : Scaled) × (mul_scaled a b ≡ some c) × Exactly c (m * n) (s + t)
mul_scaled-Exactly a b m n s t p q h k =
    (scaled (m * n) (s + t), rw (p, q) (rw (lt→ltb _ _ h, le→leb _ _ k)), refl)

pub add_scaled-Exactly :
    (a b : Scaled) (m n s : ℕ)
    → Exactly a m s
    → Exactly b n s
    → m + n < 2 ^ 96
    → (c : Scaled) × (add_scaled a b ≡ some c) × Exactly c (m + n) s
add_scaled-Exactly a b m n s p q h = (scaled (m + n) s, rw (p, q) (ground arith), refl)

pub ge_scaled-Exactly :
    (a b : Scaled) (m n s t : ℕ)
    → Exactly a m s
    → Exactly b n t
    → ge_scaled a b ≡ leb (n * 10 ^ s) (m * 10 ^ t)
ge_scaled-Exactly a b m n s t p q = rw (p, q)

pub round_scaled-Exactly :
    (a : Scaled) (m s : ℕ)
    → Exactly a m s
    → Exactly (round_scaled a) ((2 * m + 10 ^ s) / (2 * 10 ^ s)) 0
round_scaled-Exactly a m s p = rw p

pub to_i64_scaled-Exactly :
    (a : Scaled) (m : ℕ)
    → Exactly a m 0
    → to_i64_scaled a ≡ (if ltb m i64_bound then some (pos m) else none)
to_i64_scaled-Exactly a m p = rw p

pub nonneg-Exactly : (a : Scaled) (m s : ℕ) → Exactly a m s → a.negative ≡ false
nonneg-Exactly a m s p = rw p

instance abbrev pub scaled_decimals : Decimals
scaled_decimals = record {
  Decimal = Scaled;
  from_ℕ = λ n. scaled n 0;
  checked_mul = mul_scaled;
  checked_add = add_scaled;
  ge = ge_scaled;
  round_half_up = round_scaled;
  to_i64 = to_i64_scaled;
  is_negative = λ a. a.negative;
  IsExact = Exactly;
  from_ℕ-IsExact = λ n h. refl;
  mul-IsExact = mul_scaled-Exactly;
  add-IsExact = add_scaled-Exactly;
  ge-IsExact = ge_scaled-Exactly;
  round-IsExact = round_scaled-Exactly;
  to_i64-IsExact = to_i64_scaled-Exactly;
  nonneg-IsExact = nonneg-Exactly;
}

-- Days since 1970; an instant before it counts as day 0.
abbrev pub day_of : ℤ → ℕ
day_of (pos n) = n / day_ns
day_of (negsuc n) = 0

pub day_of-weekday : (t : ℤ) (n : ℕ) → t ≡ pos n → (day_of t + 3) % 7 ≡ (n / day_ns + 3) % 7
day_of-weekday t n p = rw p

pub day_of-midnight :
    (t : ℤ) (n d : ℕ)
    → t ≡ pos n
    → d ≤ n / day_ns
    → pos ((day_of t - d) * day_ns) ≡ pos ((n / day_ns - d) * day_ns)
day_of-midnight t n d p h = rw p

instance abbrev pub nanosecond_times : Times
nanosecond_times = record {
  OffsetDateTime = ℤ;
  Date = ℕ;
  unix_timestamp_nanos = λ t. t;
  from_nanos = λ t. t;
  date = day_of;
  days_from_monday = λ t. (day_of t + 3) % 7;
  sub_days = λ d n. d - n;
  midnight = λ d. pos (d * day_ns);
  from_nanos-nanos = λ t. refl;
  weekday = day_of-weekday;
  midnight_days_ago = day_of-midnight;
}
