-- ===== src/Store/Ledger.antt =====
-- migrations/0001_store.sql and the statements of src/store.rs: the table `request_ledger` with
-- its CHECK constraints, the INSERT and UPDATE statements, and the sum of a week's costs.
use codex_api.Common.{
  ℕ, suc, ◌+◌, ℤ, leb_ℤ, ltb_ℤ, Bool, true, false, ◌&&◌, ◌||◌, Option, none, some, List, [], ◌∷◌,
  ◌++◌, String, str_eq, leb, nat_eq, if◌then◌else◌, any,
}

-- A row; integers that a constraint keeps from being negative are natural numbers.
pub record Row : Type 0 where
  pub id : ℕ
  pub requested_at_ms : ℤ
  pub finished_at_ms : Option ℤ
  pub api_key_id : String
  pub model : String
  pub reasoning_effort : Option String
  pub api_protocol : String
  pub transport : String
  pub input_tokens : Option ℕ
  pub cached_input_tokens : Option ℕ
  pub output_tokens : Option ℕ
  pub cost_nano_usd : Option ℕ
  pub duration_ms : Option ℕ
  pub status : String
  pub http_status : Option ℕ

-- The rows in the order of their insertion; AUTOINCREMENT gives a key that was never used.
pub record Ledger : Type 0 where
  pub rows : List Row
  pub next_id : ℕ

abbrev pub statuses : List String
statuses =
    "started" ∷ "completed" ∷ "incomplete" ∷ "rejected" ∷ "upstream_error" ∷ "canceled"
    ∷ "internal_error" ∷ []

abbrev cached_fits : Option ℕ → Option ℕ → Bool
cached_fits none input = true
cached_fits (some cached) none = false
cached_fits (some cached) (some input) = leb cached input

abbrev status_code : Option ℕ → Bool
status_code none = true
status_code (some n) = leb 100 n && leb n 599

-- The CHECK constraints of the table.
unfoldable pub checks : Row → Bool
checks r =
    (str_eq r.api_protocol "responses" || str_eq r.api_protocol "chat_completions")
    && (str_eq r.transport "http_sse" || str_eq r.transport "websocket")
    && cached_fits r.cached_input_tokens r.input_tokens
    && any (str_eq r.status) statuses
    && status_code r.http_status

-- INSERT: `none` if a constraint fails. The key of the new row is returned.
unfoldable pub insert_row : Row → Ledger → Option (ℕ × Ledger)
insert_row r l =
    let row : Row = record r { id = l.next_id } in
    if checks row
    then some (l.next_id, record { rows = l.rows ++ row ∷ []; next_id = suc l.next_id })
    else none

abbrev pub is_started : ℕ → Row → Bool
is_started id r = nat_eq r.id id && str_eq r.status "started"

-- SELECT requested_at_ms ... WHERE id = ? AND status = 'started'
unfoldable pub select_started : ℕ → List Row → Option ℤ
select_started id [] = none
select_started id (r ∷ rs) =
    if is_started id r then some r.requested_at_ms else select_started id rs

-- UPDATE ... WHERE id = ? AND status = 'started', with the number of rows affected.
unfoldable pub update_started : ℕ → (Row → Row) → List Row → List Row × ℕ
update_started id f [] = ([], 0)
update_started id f (r ∷ rs) =
    let (rest, n) = update_started id f rs in
    if is_started id r then (f r ∷ rest, suc n) else (r ∷ rest, n)

-- The constraints hold of every row that the UPDATE would write, `fits` among them.
unfoldable pub update_checks : Bool → ℕ → (Row → Row) → List Row → Bool
update_checks fits id f [] = true
update_checks fits id f (r ∷ rs) =
    let rest = update_checks fits id f rs in
    if is_started id r then fits && checks (f r) && rest else rest

-- A cost that the weekly sum counts.
abbrev pub cost_in : String → ℤ → ℤ → Row → ℕ
cost_in key from to r = elim r.cost_nano_usd [
  | none ↦ 0
  | some cost ↦
      if str_eq r.api_key_id key && leb_ℤ from r.requested_at_ms && ltb_ℤ r.requested_at_ms to
      then cost
      else 0
]

-- SELECT COALESCE(SUM(cost_nano_usd), 0) ...: SQLite's sum is exact, and it fails past 64 bits.
unfoldable pub sum_costs : String → ℤ → ℤ → List Row → ℕ
sum_costs key from to [] = 0
sum_costs key from to (r ∷ rs) = cost_in key from to r + sum_costs key from to rs
