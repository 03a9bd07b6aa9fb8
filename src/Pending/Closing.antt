-- ===== src/Pending/Closing.antt =====
-- What the handle of a request (src/http_api/request.rs) guarantees of its row.
use codex_api.Common.{
  ℕ, ◌≡◌, refl, ◌⊎◌, inl, inr, ℤ, Bool, true, ◌&&◌, leb, Option, none, some, List, [], ◌∷◌, Result,
  ok, err, Bool-cases, Result-cases, Option-cases, arith,
}
use codex_api.Store.Decimals.{Decimals}
use codex_api.Store.Times.{Times}
use codex_api.Store.Types.{
  FinalStatus, completed, incomplete, rejected, upstream_error, canceled, internal_error,
  status_str, BillableUsage, StoreError, database,
}
use codex_api.Store.Ledger.{Row, Ledger, checks, select_started, update_checks}
use codex_api.Store.Cost.{timestamp_ms}
use codex_api.Store.Requests.{Outcome}
use codex_api.Store.Finalize.{
  Charge, charge_of, finished_row, update, settle, finalize_request, cost_fits,
}
use codex_api.Store.Invariant.{IsValid, AllSound, status_str-ne-started}
use codex_api.Store.Finality.{select-update}
use codex_api.Pending.Handle.{
  Handle, opened, finalized, OpenRequest, Circumstances, finish, finish_terminal, fall_back, drop,
  take_open,
}
use codex_api.Errors.Api.{ApiError}

abbrev pub nothing : Charge
nothing = record {
  input_tokens = none;
  cached_input_tokens = none;
  output_tokens = none;
  cost_nano_usd = none;
}

abbrev pub in_range : Option ℕ → Bool
in_range none = true
in_range (some n) = leb 100 n && leb n 599

checks-finished_row :
    (asked at : ℤ) (status : FinalStatus) (http : Option ℕ) (r : Row)
    → in_range http ≡ true
    → checks r ≡ true
    → checks (finished_row asked at status http nothing r) ≡ true
unfolding checks finished_row status_str
checks-finished_row asked at completed http r h c = ground arith
checks-finished_row asked at incomplete http r h c = ground arith
checks-finished_row asked at rejected http r h c = ground arith
checks-finished_row asked at upstream_error http r h c = ground arith
checks-finished_row asked at canceled http r h c = ground arith
checks-finished_row asked at internal_error http r h c = ground arith

update_checks-finished_row :
    (id : ℕ) (asked at : ℤ) (status : FinalStatus) (http : Option ℕ) (rs : List Row)
    → in_range http ≡ true
    → AllSound rs
    → update_checks true id (finished_row asked at status http nothing) rs ≡ true
unfolding update_checks
update_checks-finished_row id asked at status http [] h a = refl
update_checks-finished_row id asked at status http (r ∷ rs) h a = ground (
  arith,
  checks-finished_row asked at status http r h a.0.checked,
  update_checks-finished_row id asked at status http rs h a.1,
)

module _ ⦃D : Decimals⦄ ⦃T : Times⦄ where
  open T use {OffsetDateTime}

  -- The store answers, and no other task commits in between.
  abbrev pub calm : OffsetDateTime → Circumstances
  calm now = record { db = (true, true); others = λ m. m; now = now }

  update_closes :
      (accepts : Bool) (id : ℕ) (asked at : ℤ) (status : FinalStatus) (http : Option ℕ)
      (charge : Charge) (l : Ledger)
      → (select_started id
            (update accepts id
              (finished_row asked at status http charge)
              charge.cost_nano_usd
              l).1.rows
          ≡ none)
        ⊎ (update accepts id (finished_row asked at status http charge) charge.cost_nano_usd l
            ≡ (err database, l))
  unfolding update
  update_closes accepts id asked at status http charge l =
      let f = finished_row asked at status http charge in
      elim (Bool-cases (accepts && update_checks (cost_fits charge.cost_nano_usd) id f l.rows)) [
        | inl p ↦ inl (
            rw (p, update)
              (select-update id f (λ r. unfold finished_row in status_str-ne-started status)
                l.rows))
        | inr p ↦ inr (rw (p, update) refl)
      ]

  pub finalize_closes :
      (db : Bool × Bool) (id : ℕ) (status : FinalStatus) (http : Option ℕ)
      (usage : Option BillableUsage) (now : OffsetDateTime) (l : Ledger)
      → (select_started id (finalize_request db (λ m. m) id status http usage now l).1.rows ≡ none)
        ⊎ ((e : StoreError) × (finalize_request db (λ m. m) id status http usage now l
              ≡ (err e, l)))
  unfolding finalize_request
  finalize_closes (answers, accepts) id status http usage now l =
      elim (Result-cases (settle answers id usage now l)) [
        | inl (e, p) ↦ inr (e, rw (p, finalize_request) refl)
        | inr (a, p) ↦ elim (update_closes accepts id a.0 a.1 status http a.2 l) [
          | inl q ↦ inl (rw (p, finalize_request) q)
          | inr q ↦ inr (database, rw (p, finalize_request) q)
        ]
      ]

  pub finalize_nothing_closes :
      (id : ℕ) (status : FinalStatus) (http : Option ℕ) (now : OffsetDateTime) (at : ℤ) (l : Ledger)
      → IsValid l
      → timestamp_ms now ≡ ok at
      → in_range http ≡ true
      → select_started id (finalize_request (true, true) (λ m. m) id status http none now l).1.rows
        ≡ none
  unfolding finalize_request settle charge_of update
  finalize_nothing_closes id status http now at l v t h =
      elim (Option-cases (select_started id l.rows)) [
        | inl p ↦ rw (p, finalize_request) p
        | inr (asked, p) ↦
            let c = update_checks-finished_row id asked at status http l.rows h v.rows in
            rw (p, finalize_request)
              (rw (t, finalize_request)
                (rw (c, update)
                  (select-update id (finished_row asked at status http nothing)
                    (λ r. unfold finished_row in status_str-ne-started status) l.rows)))
      ]

  finalize_absent :
      (id : ℕ) (status : FinalStatus) (http : Option ℕ) (usage : Option BillableUsage)
      (now : OffsetDateTime) (l : Ledger)
      → select_started id l.rows ≡ none
      → select_started id (finalize_request (true, true) (λ m. m) id status http usage now l).1.rows
        ≡ none
  unfolding finalize_request settle
  finalize_absent id status http usage now l p = rw (p, finalize_request) p

  -- A handle that is dropped while it is open leaves its row closed, in a store that answers with
  -- no commit in between, for an HTTP status in the range of the table.
  pub drop_closes :
      (o : OpenRequest) (now : OffsetDateTime) (at : ℤ) (l : Ledger)
      → IsValid l
      → timestamp_ms now ≡ ok at
      → in_range o.drop_http_status ≡ true
      → select_started o.request_id (drop (calm now) (opened o) l).1.rows ≡ none
  unfolding drop
  drop_closes o now at l v t h =
      finalize_nothing_closes o.request_id o.drop_status o.drop_http_status now at l v t h

  -- Whatever becomes of the first attempt of `finish_terminal`, because the database refuses it or
  -- the usage has no cost, the row is closed afterwards: with no commit in between, a store that
  -- answers the second attempt, and a fallback status in the range of the table.
  pub finish_terminal_closes :
      (o : OpenRequest) (db : Bool × Bool) (first second : OffsetDateTime) (at : ℤ)
      (status : FinalStatus) (http fallback : ℕ) (usage : Option BillableUsage) (l : Ledger)
      → IsValid l
      → timestamp_ms second ≡ ok at
      → in_range (some fallback) ≡ true
      → (result : Result (Unit {0}) (Unit {0})) × (after : Ledger) × (finish_terminal
            (record { db = db; others = λ m. m; now = first })
            (calm second)
            status
            http
            fallback
            usage
            (opened o)
            l
          ≡ some (result, finalized, after))
        × (select_started o.request_id after.rows ≡ none)
  unfolding finish_terminal take_open
  finish_terminal_closes o db first second at status http fallback usage l v t h =
      let once = finalize_request db (λ m. m) o.request_id status (some http) usage first l in
      let end = fall_back (calm second) o.request_id fallback once in
      (
        end.0,
        end.1,
        refl,
        closed once (finalize_closes db o.request_id status (some http) usage first l),
      )
    where
      closed :
          (once : Outcome (Unit {0}))
          → ((select_started o.request_id once.1.rows ≡ none)
              ⊎ ((e : StoreError) × (once ≡ (err e, l))))
          → select_started o.request_id (fall_back (calm second) o.request_id fallback once).1.rows
            ≡ none
      closed (ok _, m) (inl p) = p
      closed (ok _, m) (inr (e, q)) = cc
      closed (err e, m) (inr (_, q)) =
          let same : m ≡ l = cc in
          rw same
            (finalize_nothing_closes o.request_id upstream_error (some fallback) second at l v t h)
      closed (err e, m) (inl p) =
          finalize_absent o.request_id upstream_error (some fallback) none second m p

  -- A handle settles its request once: after `finish` a further one panics, and the drop at the end
  -- of the handle's scope leaves the ledger as it is.
  pub finish_once :
      (c d : Circumstances) (status again : FinalStatus) (http http' : Option ℕ)
      (usage usage' : Option BillableUsage) (handle after : Handle) (l m n : Ledger)
      (r : Result ApiError (Unit {0}))
      → finish c status http usage handle l ≡ some (r, after, m)
      → (finish d again http' usage' after n ≡ none) × (drop d after n ≡ (finalized, n))
  unfolding finish drop take_open
  finish_once c d status again http http' usage usage' finalized after l m n r h = absurd cc
  finish_once c d status again http http' usage usage' (opened o) after l m n r h =
      let e : after ≡ finalized = cc in rw e (refl, refl)
