-- ===== src/Store/Window.antt =====
-- The weekly window of src/store.rs, for instants from Monday 5 January 1970 on.
use codex_api.Common.{ℕ, ◌+◌, ◌-◌, ◌*◌, ◌/◌, ◌%◌, ◌≤◌, ◌<◌, ◌≡◌, pos, ok, ap, sym, ◌∙◌, arith}
use codex_api.Store.Times.{Times, day_ns}
use codex_api.Store.Cost.{timestamp_ms, to_i64_or_range, div_million}
use codex_api.Store.Quota.{week_window, monday_start, checked_add_i64, add_ℕ, week_ms}

-- A day in milliseconds, and the day in 1970 on which an instant lies.
abbrev pub day_ms : ℕ
day_ms = 86_400_000

-- The Monday on or before a day, in milliseconds.
unfoldable pub monday_ms : ℕ → ℕ
monday_ms n = (n / day_ns - (n / day_ns + 3) % 7) * day_ms

monday_ms-le : (n : ℕ) → monday_ms n ≤ n / 1_000_000
unfolding monday_ms
monday_ms-le n = omega arith

monday_ms-late : (n : ℕ) → 4 * day_ns ≤ n → 4 * day_ms ≤ monday_ms n
unfolding monday_ms
monday_ms-late n late = omega arith

-- A window starts at the midnight of a Monday and holds the instant; an instant that it holds has
-- the same window.
monday_ms-window :
    (n : ℕ)
    → 4 * day_ns ≤ n
    → (monday_ms n % day_ms ≡ 0)
      × ((monday_ms n / day_ms + 3) % 7 ≡ 0)
      × (monday_ms n ≤ n / 1_000_000)
      × (n / 1_000_000 < monday_ms n + week_ms)
unfolding monday_ms
monday_ms-window n late = (omega arith, omega arith, omega arith, omega arith)

monday_ms-same :
    (n k : ℕ)
    → 4 * day_ns ≤ n
    → monday_ms n ≤ k / 1_000_000
    → k / 1_000_000 < monday_ms n + week_ms
    → monday_ms k ≡ monday_ms n
unfolding monday_ms
monday_ms-same n k late from to = omega arith

module _ ⦃T : Times⦄ where
  open T use {
    OffsetDateTime, unix_timestamp_nanos, weekday, midnight_days_ago, date, days_from_monday,
  }

  monday_start-nanos :
      (now : OffsetDateTime) (n : ℕ)
      → unix_timestamp_nanos now ≡ pos n
      → 4 * day_ns ≤ n
      → unix_timestamp_nanos (monday_start now) ≡ pos (monday_ms n * 1_000_000)
  unfolding monday_start monday_ms
  monday_start-nanos now n e late =
      rw (weekday now n e, monday_start)
        (midnight_days_ago now n ((n / day_ns + 3) % 7) e (omega arith) ∙ ap pos (omega arith))

  week_window-eq :
      (now : OffsetDateTime) (n : ℕ)
      → unix_timestamp_nanos now ≡ pos n
      → 4 * day_ns ≤ n
      → n < 9_000_000_000_000_000_000 * 1_000_000
      → week_window now ≡ ok (pos (monday_ms n), pos (monday_ms n + week_ms))
  unfolding week_window timestamp_ms to_i64_or_range div_million checked_add_i64 add_ℕ
  week_window-eq now n e late early =
      rw (monday_start-nanos now n e late) (ground (arith, monday_ms-le n))

  -- The window that `current_week_spend_nano_usd` sums over starts at 00:00 UTC on a Monday, is a
  -- week long and contains the instant that it was asked for, for instants from Monday 5 January
  -- 1970 on whose milliseconds are below nine quintillion.
  pub week_window-contains :
      (now : OffsetDateTime) (n : ℕ)
      → unix_timestamp_nanos now ≡ pos n
      → 4 * day_ns ≤ n
      → n < 9_000_000_000_000_000_000 * 1_000_000
      → (start : ℕ) × (week_window now ≡ ok (pos start, pos (start + week_ms)))
        × (start % day_ms ≡ 0)
        × ((start / day_ms + 3) % 7 ≡ 0)
        × (start ≤ n / 1_000_000)
        × (n / 1_000_000 < start + week_ms)
  week_window-contains now n e late early =
      let p = monday_ms-window n late in
      (monday_ms n, week_window-eq now n e late early, p.0, p.1, p.2, p.3)

  -- Every instant in the window of `now`, later or earlier, has that same window, so that the weeks
  -- are a partition of the time: within the range of the previous theorem.
  pub week_window_same :
      (now other : OffsetDateTime) (n k from to : ℕ)
      → unix_timestamp_nanos now ≡ pos n
      → unix_timestamp_nanos other ≡ pos k
      → 4 * day_ns ≤ n
      → n < 9_000_000_000_000_000_000 * 1_000_000
      → k < 9_000_000_000_000_000_000 * 1_000_000
      → week_window now ≡ ok (pos from, pos to)
      → from ≤ k / 1_000_000
      → k / 1_000_000 < to
      → week_window other ≡ week_window now
  week_window_same now other n k from to e e' late early early' w after before =
      let w' = week_window-eq now n e late early in
      let f : from ≡ monday_ms n = cc in
      let t : to ≡ monday_ms n + week_ms = cc in
      let same : monday_ms k ≡ monday_ms n =
        monday_ms-same n k late (rw (← f) after) (rw (← t) before) in
      week_window-eq other k e' (omega (arith, monday_ms-late n late)) early' ∙ rw same (sym w')
