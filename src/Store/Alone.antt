-- ===== src/Store/Alone.antt =====
-- Which rows are open after an operation of src/store.rs, where no other task writes.
use codex_api.Common.{
  ℕ, suc, ◌≡◌, refl, ℤ, Bool, true, false, ◌&&◌, ◌||◌, Option, none, List, [], ◌∷◌, ◌++◌, String,
  str_eq, ok, err, nat_eq, Bool-cases, Result-cases, arith, inl, inr, subst,
}
use codex_api.Store.Decimals.{Decimals}
use codex_api.Store.Times.{Times}
use codex_api.Store.Types.{
  QuotaLimits, ModelCandidates, BillableUsage, StoreError, Admission, admitted,
  weekly_quota_exceeded, RequestContext, FinalStatus,
}
use codex_api.Store.Ledger.{
  Row, Ledger, checks, insert_row, is_started, select_started, update_started, update_checks,
}
use codex_api.Store.Cost.{timestamp_ms}
use codex_api.Store.Requests.{
  Outcome, Verdict, insert, request_row, begin_request, admission, rejection_row, record_rejection,
  assess,
}
use codex_api.Store.Finalize.{finished_row, update, finalize_request, settle, cost_fits}

-- No row is open but those that the test allows.
abbrev pub ClosedBut : (ℕ → Bool) → Ledger → Type 0
ClosedBut allowed l = (k : ℕ) → allowed k ≡ false → select_started k l.rows ≡ none

select-append :
    (k : ℕ) (rs : List Row) (r : Row)
    → is_started k r ≡ false
    → select_started k rs ≡ none
    → select_started k (rs ++ r ∷ []) ≡ none
unfolding select_started
select-append k [] r h e = rw h refl
select-append k (x ∷ xs) r h e = elim (Bool-cases (is_started k x)) [
  | inl p ↦ absurd (cc (rw (p, select_started) at e))
  | inr p ↦ rw p (select-append k xs r h (rw (p, select_started) at e))
]

select-others :
    (id k : ℕ) (f : Row → Row) (rs : List Row)
    → ((x : Row) → (f x).id ≡ x.id)
    → nat_eq id k ≡ false
    → select_started k (update_started id f rs).0 ≡ select_started k rs
unfolding select_started update_started
select-others id k f [] same h = refl
select-others id k f (x ∷ xs) same h = ground (arith, same x, select-others id k f xs same h)

update-others :
    (accepts : Bool) (id k : ℕ) (f : Row → Row) (cost : Option ℤ) (l : Ledger)
    → ((x : Row) → (f x).id ≡ x.id)
    → nat_eq id k ≡ false
    → select_started k (update accepts id f cost l).1.rows ≡ select_started k l.rows
unfolding update
update-others accepts id k f cost l same h =
    elim (Bool-cases (accepts && update_checks (cost_fits cost) id f l.rows)) [
      | inl p ↦ rw (p, update) (select-others id k f l.rows same h)
      | inr p ↦ rw (p, update) refl
    ]

insert-ClosedBut :
    (available : Bool) (r : Row) (allowed : ℕ → Bool) (l : Ledger)
    → str_eq r.status "started" ≡ false
    → ClosedBut allowed l
    → ClosedBut allowed (insert available r l).1
unfolding insert insert_row
insert-ClosedBut false r allowed l h c k a = c k a
insert-ClosedBut true r allowed l h c k a =
    elim (Bool-cases (checks (record r { id = l.next_id }))) [
      | inl p ↦
          rw (p, insert, insert_row)
            (select-append k l.rows (record r { id = l.next_id }) (rw h (ground arith)) (c k a))
      | inr p ↦ rw (p, insert, insert_row) (c k a)
    ]

insert-err :
    (available : Bool) (r : Row) (l after : Ledger) (e : StoreError)
    → insert available r l ≡ (err e, after)
    → l ≡ after
unfolding insert insert_row
insert-err false r l after e h = cc
insert-err true r l after e h = ground arith

or_false : (a b : Bool) → (a || b) ≡ false → (a ≡ false) × (b ≡ false)
or_false false b h = (refl, h)
or_false true b h = absurd cc

insert_started-ClosedBut :
    (available : Bool) (r : Row) (allowed : ℕ → Bool) (l after : Ledger) (id : ℕ)
    → insert available r l ≡ (ok id, after)
    → ClosedBut allowed l
    → ClosedBut (λ k. allowed k || nat_eq id k) after
unfolding insert insert_row
insert_started-ClosedBut false r allowed l after id h c k a = absurd cc
insert_started-ClosedBut true r allowed l after id h c k a =
    elim (Bool-cases (checks (record r { id = l.next_id }))) [
      | inl p ↦
          let q = rw (p, insert, insert_row) at h in
          let row : Row = record r { id = l.next_id } in
          let grown : Ledger = record { rows = l.rows ++ row ∷ []; next_id = suc l.next_id } in
          let e : grown ≡ after = cc in
          let same : l.next_id ≡ id = cc in
          let (b, d) = or_false (allowed k) (nat_eq id k) a in
          subst (λ (m : Ledger). select_started k m.rows ≡ none) e
            (select-append k l.rows row (rw same (rw d refl)) (c k b))
      | inr p ↦ absurd (cc (rw (p, insert, insert_row) at h))
    ]

module _ ⦃D : Decimals⦄ ⦃T : Times⦄ where
  open T use {OffsetDateTime}

  -- What an admission opens.
  abbrev pub OpensFor : (ℕ → Bool) → Outcome Admission → Type 0
  OpensFor allowed (ok (admitted id _), after) = ClosedBut (λ k. allowed k || nat_eq id k) after
  OpensFor allowed (ok weekly_quota_exceeded, after) = ClosedBut allowed after
  OpensFor allowed (err _, after) = ClosedBut allowed after

  rejected-OpensFor :
      (v : Verdict) (allowed : ℕ → Bool) (o : Outcome ℕ)
      → v.rejected ≡ true
      → ClosedBut allowed o.1
      → OpensFor allowed (admission v o)
  rejected-OpensFor v allowed (err e, l) p c = c
  rejected-OpensFor v allowed (ok id, l) p c = rw p c

  started-OpensFor :
      (v : Verdict) (allowed : ℕ → Bool) (r : Row) (accepts : Bool) (l : Ledger) (o : Outcome ℕ)
      → v.rejected ≡ false
      → ClosedBut allowed l
      → insert accepts r l ≡ o
      → OpensFor allowed (admission v o)
  started-OpensFor v allowed r accepts l (err e, after) p c h =
      subst (ClosedBut allowed) (insert-err accepts r l after e h) c
  started-OpensFor v allowed r accepts l (ok id, after) p c h =
      rw p (insert_started-ClosedBut accepts r allowed l after id h c)

  admission-OpensFor :
      (accepts : Bool) (context : RequestContext) (at : ℤ) (v : Verdict) (allowed : ℕ → Bool)
      (l : Ledger)
      → ClosedBut allowed l
      → OpensFor allowed (admission v (insert accepts (request_row context at v) l))
  admission-OpensFor accepts context at v allowed l c = elim (Bool-cases v.rejected) [
    | inl p ↦
        let r = request_row context at v in
        rejected-OpensFor v allowed (insert accepts r l) p
          (insert-ClosedBut accepts r allowed l (unfold request_row in rw p refl) c)
    | inr p ↦
        let r = request_row context at v in
        started-OpensFor v allowed r accepts l (insert accepts r l) p c refl
  ]

  pub begin_request-OpensFor :
      (db : Bool × Bool) (context : RequestContext) (quota : QuotaLimits)
      (candidates : ModelCandidates) (now : OffsetDateTime) (allowed : ℕ → Bool) (l : Ledger)
      → ClosedBut allowed l
      → OpensFor allowed (begin_request db (λ m. m) context quota candidates now l)
  unfolding begin_request
  begin_request-OpensFor (answers, accepts) context quota candidates now allowed l c =
      elim (Result-cases (assess answers context quota candidates now l)) [
        | inl (e, p) ↦ rw (p, begin_request) c
        | inr (a, p) ↦
            rw (p, begin_request) (admission-OpensFor accepts context a.0 a.1 allowed l c)
      ]

  pub record_rejection-ClosedBut :
      (accepts : Bool) (context : RequestContext) (model : String) (effort : Option String)
      (http : Option ℕ) (now : OffsetDateTime) (allowed : ℕ → Bool) (l : Ledger)
      → ClosedBut allowed l
      → ClosedBut allowed (record_rejection accepts context model effort http now l).1
  unfolding record_rejection
  record_rejection-ClosedBut accepts context model effort http now allowed l c =
      elim (Result-cases (timestamp_ms now)) [
        | inl (e, p) ↦ rw (p, record_rejection) c
        | inr (at, p) ↦
            rw (p, record_rejection)
              (insert-ClosedBut accepts (rejection_row context model effort http at) allowed l
                (unfold rejection_row in refl) c)
      ]

  pub finalize-others :
      (db : Bool × Bool) (id k : ℕ) (status : FinalStatus) (http : Option ℕ)
      (usage : Option BillableUsage) (now : OffsetDateTime) (l : Ledger)
      → nat_eq id k ≡ false
      → select_started k (finalize_request db (λ m. m) id status http usage now l).1.rows
        ≡ select_started k l.rows
  unfolding finalize_request
  finalize-others (answers, accepts) id k status http usage now l h =
      elim (Result-cases (settle answers id usage now l)) [
        | inl (e, p) ↦ rw (p, finalize_request) refl
        | inr (a, p) ↦
            rw (p, finalize_request)
              (update-others accepts id k (finished_row a.0 a.1 status http a.2) a.2.cost_nano_usd l
                (λ x. unfold finished_row in refl) h)
      ]
