-- ===== src/Store/Accounting.antt =====
-- What a finalization adds to the spend that src/store.rs compares with the limits.
use codex_api.Common.{
  inl, inr, ℕ, ◌+◌, ◌≡◌, refl, ℤ, leb_ℤ, ltb_ℤ, Bool, ◌&&◌, pos_part, Option, none, some, List, [],
  ◌∷◌, String, str_eq, eq_iff, ok, if◌then◌else◌, Bool-cases, Option-cases, Result-cases, arith,
}
use codex_api.Store.Decimals.{Decimals}
use codex_api.Store.Times.{Times}
use codex_api.Store.Types.{BillableUsage, FinalStatus}
use codex_api.Store.Ledger.{Row, Ledger, is_started, update_started, sum_costs, cost_in}
use codex_api.Store.Finalize.{update, finalize_request, finished_row, Charge, settle, charge_of}
use codex_api.Store.Invariant.{IsValid, IsSound, AllSound}
use codex_api.Store.Finality.{update-ok}

-- The row that is started under a key of the table, as it is in the ledger.
abbrev pub started_row : ℕ → List Row → Option Row
started_row id [] = none
started_row id (r ∷ rs) = if is_started id r then some r else started_row id rs

-- What a cost adds for an API key in a window, if it is charged to a row: all of it, if the row was
-- admitted for that key in that window.
abbrev pub charged_to : String → ℤ → ℤ → Row → Option ℤ → ℕ
charged_to key from to r none = 0
charged_to key from to r (some cost) =
    if str_eq r.api_key_id key && leb_ℤ from r.requested_at_ms && ltb_ℤ r.requested_at_ms to
    then pos_part cost
    else 0

cost_in-open :
    (key : String) (from to : ℤ) (r : Row)
    → IsSound r
    → r.status ≡ "started"
    → cost_in key from to r ≡ 0
cost_in-open key from to r s e = elim s.phased [
  | inl p ↦ let c = p.2 in ground arith
  | inr p ↦ absurd (p.0 e)
]

module _ (id : ℕ) (f : Row → Row) (key : String) (from to : ℤ) where
  sum_costs-untouched :
      (rs : List Row)
      → (update_started id f rs).1 ≡ 0
      → sum_costs key from to (update_started id f rs).0 ≡ sum_costs key from to rs
  unfolding update_started sum_costs
  sum_costs-untouched [] e = refl
  sum_costs-untouched (r ∷ rs) e = elim (Bool-cases (is_started id r)) [
    | inl h ↦ absurd (ground arith)
    | inr h ↦ rw (h, update_started) (omega (arith, sum_costs-untouched rs (ground arith)))
  ]

  sum_costs-update :
      (rs : List Row)
      → AllSound rs
      → (update_started id f rs).1 ≡ 1
      → (r : Row) × (started_row id rs ≡ some r)
        × (sum_costs key from to (update_started id f rs).0
            ≡ sum_costs key from to rs + cost_in key from to (f r))
  unfolding update_started sum_costs
  sum_costs-update [] s e = absurd (omega arith)
  sum_costs-update (r ∷ rs) s e = elim (Bool-cases (is_started id r)) [
    | inl h ↦ (
      r,
      rw (h, started_row) refl,
      rw (h, update_started)
          (omega (
            arith,
            sum_costs-untouched rs (ground arith),
            cost_in-open key from to r s.0 (ground (arith, eq_iff r.status "started")),
          )),
    )
    | inr h ↦
        let (x, started, sum) = sum_costs-update rs s.1 (ground arith) in
        (x, rw (h, started_row) started, rw (h, update_started) (omega (arith, sum)))
  ]

update-charges :
    (accepts : Bool) (id : ℕ) (f : Row → Row) (cost : Option ℤ) (l l' : Ledger) (key : String)
    (from to : ℤ)
    → AllSound l.rows
    → update accepts id f cost l ≡ (ok tt, l')
    → (r : Row) × (started_row id l.rows ≡ some r)
      × (sum_costs key from to l'.rows ≡ sum_costs key from to l.rows + cost_in key from to (f r))
unfolding update
update-charges accepts id f cost l l' key from to s h =
    let (r, started, sum) = sum_costs-update id f key from to l.rows s (ground arith) in
    (r, started, rw (update-ok accepts id f cost l l' h) sum)

cost_in-finished_row :
    (asked at : ℤ) (status : FinalStatus) (http : Option ℕ) (charge : Charge) (r : Row)
    (key : String) (from to : ℤ)
    → cost_in key from to (finished_row asked at status http charge r)
      ≡ charged_to key from to r charge.cost_nano_usd
unfolding finished_row
cost_in-finished_row asked at status http charge r key from to =
    elim (Option-cases charge.cost_nano_usd) [ inl p ↦ rw p refl | inr (cost, p) ↦ rw p refl ]

module _ ⦃D : Decimals⦄ ⦃T : Times⦄ where
  open T use {OffsetDateTime}

  -- In a valid ledger a successful finalization charges the row of the ledger that is started under
  -- its key: in every window that holds the time when this row was admitted, the spend of the API
  -- key that it was admitted for grows by exactly the cost of the usage, and the spend of any other
  -- API key, or in any other window, stays as it was.
  pub finalize_request-charges :
      (db : Bool × Bool) (others : Ledger → Ledger) (id : ℕ) (status : FinalStatus)
      (http : Option ℕ) (usage : Option BillableUsage) (now : OffsetDateTime) (l l' : Ledger)
      (key : String) (from to : ℤ)
      → IsValid (others l)
      → finalize_request db others id status http usage now l ≡ (ok tt, l')
      → (r : Row) × (charge : Charge) × (started_row id (others l).rows ≡ some r)
        × (charge_of usage ≡ ok charge)
        × (sum_costs key from to l'.rows
            ≡ sum_costs key from to (others l).rows + charged_to key from to r charge.cost_nano_usd)
  unfolding finalize_request settle
  finalize_request-charges (answers, accepts) others id status http usage now l l' key from to v h =
      elim (Result-cases (settle answers id usage now l)) [
        | inl (e, p) ↦ cc (rw (p, finalize_request) at h)
        | inr (a, p) ↦
            let (r, started, sum) =
              update-charges accepts id (finished_row a.0 a.1 status http a.2) a.2.cost_nano_usd
                (others l) l' key from to v.rows (rw (p, finalize_request) at h) in
            (
              r,
              a.2,
              started,
              ground arith,
              rw (← cost_in-finished_row a.0 a.1 status http a.2 r key from to) sum,
            )
      ]
