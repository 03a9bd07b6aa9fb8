-- ===== src/Store/Finality.antt =====
-- A closed request stays as it is: the guard `status = 'started'` of src/store.rs.
use codex_api.Common.{
  ℕ, ◌≡◌, ◌≢◌, refl, ℤ, Bool, true, false, Option, none, some, List, [], ◌∷◌, ◌++◌, String, eq_iff,
  ok, err, nat_eq, if◌then◌else◌, Bool-cases, Result-cases, arith, ◌&&◌, inl, inr,
}
use codex_api.Store.Decimals.{Decimals}
use codex_api.Store.Times.{Times}
use codex_api.Store.Types.{
  QuotaLimits, ModelCandidates, BillableUsage, RequestContext, FinalStatus, request_not_started,
}
use codex_api.Store.Ledger.{Row, Ledger, insert_row, select_started, update_started, update_checks}
use codex_api.Store.Cost.{timestamp_ms}
use codex_api.Store.Requests.{
  insert, request_row, begin_request, rejection_row, record_rejection, assess,
}
use codex_api.Store.Finalize.{finished_row, update, finalize_request, settle, cost_fits}
use codex_api.Store.Invariant.{status_str-ne-started, admission-ledger}

-- The row with a key.
abbrev pub get_row : ℕ → List Row → Option Row
get_row id [] = none
get_row id (r ∷ rs) = if nat_eq r.id id then some r else get_row id rs

module _ (id : ℕ) (f : Row → Row) (closes : (r : Row) → (f r).status ≢ "started") where
  pub select-update : (rs : List Row) → select_started id (update_started id f rs).0 ≡ none
  unfolding select_started update_started
  select-update [] = refl
  select-update (r ∷ rs) = ground (arith, select-update rs, closes r, eq_iff (f r).status "started")

get_row-append :
    (k : ℕ) (rs ss : List Row) (r : Row) → get_row k rs ≡ some r → get_row k (rs ++ ss) ≡ some r
get_row-append k [] ss r e = cc
get_row-append k (x ∷ xs) ss r e = ground (arith, get_row-append k xs ss r)

get_row-update :
    (id k : ℕ) (f : Row → Row) (rs : List Row) (r : Row)
    → ((x : Row) → (f x).id ≡ x.id)
    → r.status ≢ "started"
    → get_row k rs ≡ some r
    → get_row k (update_started id f rs).0 ≡ some r
unfolding update_started
get_row-update id k f [] r same closed e = cc
get_row-update id k f (x ∷ xs) r same closed e =
    ground (arith, same x, eq_iff x.status "started", get_row-update id k f xs r same closed)

insert-closed :
    (available : Bool) (x : Row) (l : Ledger) (k : ℕ) (r : Row)
    → get_row k l.rows ≡ some r
    → get_row k (insert available x l).1.rows ≡ some r
unfolding insert insert_row
insert-closed false x l k r e = e
insert-closed true x l k r e =
    ground (arith, get_row-append k l.rows (record x { id = l.next_id } ∷ []) r e)

update-closed :
    (accepts : Bool) (id : ℕ) (f : Row → Row) (cost : Option ℤ) (l : Ledger) (k : ℕ) (r : Row)
    → ((x : Row) → (f x).id ≡ x.id)
    → r.status ≢ "started"
    → get_row k l.rows ≡ some r
    → get_row k (update accepts id f cost l).1.rows ≡ some r
unfolding update
update-closed accepts id f cost l k r same closed e =
    elim (Bool-cases (accepts && update_checks (cost_fits cost) id f l.rows)) [
      | inl h ↦ rw (h, update) (get_row-update id k f l.rows r same closed e)
      | inr h ↦ rw (h, update) e
    ]

pub update-ok :
    (accepts : Bool) (id : ℕ) (f : Row → Row) (cost : Option ℤ) (l l' : Ledger)
    → update accepts id f cost l ≡ (ok tt, l')
    → l' ≡ record l { rows = (update_started id f l.rows).0 }
unfolding update
update-ok accepts id f cost l l' e = ground arith

module _ ⦃D : Decimals⦄ ⦃T : Times⦄ where
  open T use {OffsetDateTime}

  -- One step of the service on the ledger. An operation decides on what it read, any ledger `seen`,
  -- and writes to the ledger `l` that it finds.
  pub data Step (l : Ledger) : Ledger → Type 0 where
    begins :
        (db : Bool × Bool) (seen : Ledger) (context : RequestContext) (quota : QuotaLimits)
        (candidates : ModelCandidates) (now : OffsetDateTime)
        → Step l (begin_request db (λ _. l) context quota candidates now seen).1
    rejects :
        (accepts : Bool) (context : RequestContext) (model : String) (effort : Option String)
        (http : Option ℕ) (now : OffsetDateTime)
        → Step l (record_rejection accepts context model effort http now l).1
    finalizes :
        (db : Bool × Bool) (seen : Ledger) (id : ℕ) (status : FinalStatus) (http : Option ℕ)
        (usage : Option BillableUsage) (now : OffsetDateTime)
        → Step l (finalize_request db (λ _. l) id status http usage now seen).1

  pub data Reach (l : Ledger) : Ledger → Type 0 where
    here : Reach l l
    next : {m n : Ledger} → Reach l m → Step m n → Reach l n

  Step-closed :
      {l l' : Ledger} (k : ℕ) (r : Row)
      → r.status ≢ "started"
      → Step l l'
      → get_row k l.rows ≡ some r
      → get_row k l'.rows ≡ some r
  unfolding begin_request record_rejection finalize_request
  Step-closed {l} k r closed (begins (answers, accepts) seen context quota candidates now) e =
      elim (Result-cases (assess answers context quota candidates now seen)) [
        | inl (_, p) ↦ rw (p, begin_request) e
        | inr (a, p) ↦
            rw (p, begin_request)
              (rw (admission-ledger a.1 _)
                (insert-closed accepts (request_row context a.0 a.1) l k r e))
      ]
  Step-closed {l} k r closed (rejects accepts context model effort http now) e =
      elim (Result-cases (timestamp_ms now)) [
        | inl (_, p) ↦ rw (p, record_rejection) e
        | inr (at, p) ↦
            rw (p, record_rejection)
              (insert-closed accepts (rejection_row context model effort http at) l k r e)
      ]
  Step-closed {l} k r closed (finalizes (answers, accepts) seen id status http usage now) e =
      elim (Result-cases (settle answers id usage now seen)) [
        | inl (_, p) ↦ rw (p, finalize_request) e
        | inr (a, p) ↦
            rw (p, finalize_request)
              (update-closed accepts id (finished_row a.0 a.1 status http a.2) a.2.cost_nano_usd l k
                r (λ x. unfold finished_row in refl) closed e)
      ]

  -- Once a row of the ledger has left the status `started`, it is never changed again, whatever
  -- requests begin, are rejected or are finalized, in any interleaving and with stale reads.
  pub Reach-closed :
      {l l' : Ledger} (k : ℕ) (r : Row)
      → r.status ≢ "started"
      → Reach l l'
      → get_row k l.rows ≡ some r
      → get_row k l'.rows ≡ some r
  Reach-closed k r closed here e = e
  Reach-closed k r closed (next p s) e = Step-closed k r closed s (Reach-closed k r closed p e)

  -- After a successful finalization no row with that key is started, so that a second one, with
  -- whatever status and usage, reports that the request is not started and changes nothing.
  pub finalize_request_once :
      (db : Bool × Bool) (accepts : Bool) (others : Ledger → Ledger) (id : ℕ)
      (status status' : FinalStatus) (http http' : Option ℕ) (usage usage' : Option BillableUsage)
      (now now' : OffsetDateTime) (l l' : Ledger)
      → finalize_request db others id status http usage now l ≡ (ok tt, l')
      → finalize_request (true, accepts) (λ m. m) id status' http' usage' now' l'
        ≡ (err (request_not_started id), l')
  unfolding finalize_request settle
  finalize_request_once (answers, accepts') accepts others id status status' http http' usage usage'
        now now' l l' h =
      elim (Result-cases (settle answers id usage now l)) [
        | inl (e, p) ↦ cc (rw (p, finalize_request) at h)
        | inr (a, p) ↦
            again
              (update-ok accepts' id (finished_row a.0 a.1 status http a.2) a.2.cost_nano_usd
                (others l) l' (rw (p, finalize_request) at h))
              (select-update id (finished_row a.0 a.1 status http a.2)
                (λ r. unfold finished_row in status_str-ne-started status) (others l).rows)
      ]
    where
      again :
          {rows : List Row}
          → l' ≡ record (others l) { rows = rows }
          → select_started id rows ≡ none
          → finalize_request (true, accepts) (λ m. m) id status' http' usage' now' l'
            ≡ (err (request_not_started id), l')
      again e n = rw e (rw (n, settle, finalize_request))
