-- ===== src/Store/Times.antt =====
-- What src/store.rs uses of the crate time: instants, their nanoseconds since 1970, and the
-- calendar of UTC days.
use codex_api.Common.{ℕ, ◌+◌, ◌-◌, ◌*◌, ◌/◌, ◌%◌, ◌≤◌, ◌≡◌, ℤ, pos}

-- Nanoseconds in a day.
abbrev pub day_ns : ℕ
day_ns = 86_400_000_000_000

pub record Times : Type 1 where
  pub OffsetDateTime : Type 0
  pub Date : Type 0
  pub unix_timestamp_nanos : OffsetDateTime → ℤ
  -- The inverse, on the range of the type: `from_unix_timestamp_nanos`.
  pub from_nanos : ℤ → OffsetDateTime
  pub date : OffsetDateTime → Date
  -- `weekday().number_days_from_monday()`
  pub days_from_monday : OffsetDateTime → ℕ
  -- `date - Duration::days(n)`
  pub sub_days : Date → ℕ → Date
  -- `date.midnight().assume_utc()`
  pub midnight : Date → OffsetDateTime
  pub from_nanos-nanos : (t : OffsetDateTime) → from_nanos (unix_timestamp_nanos t) ≡ t
  -- 1 January 1970 was a Thursday.
  pub weekday :
      (t : OffsetDateTime) (n : ℕ)
      → unix_timestamp_nanos t ≡ pos n
      → days_from_monday t ≡ (n / day_ns + 3) % 7
  pub midnight_days_ago :
      (t : OffsetDateTime) (n d : ℕ)
      → unix_timestamp_nanos t ≡ pos n
      → d ≤ n / day_ns
      → unix_timestamp_nanos (midnight (sub_days (date t) d)) ≡ pos ((n / day_ns - d) * day_ns)
