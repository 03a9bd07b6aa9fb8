-- ===== src/Ws/Rows.antt =====
-- The rows that the store calls of src/ws.rs leave open, where the store answers and no other task
-- writes.
use codex_api.Common.{
  ℕ, ℤ, ◌≡◌, ◌∙◌, refl, sym, subst, ◌⊎◌, inl, inr, Bool, true, ◌||◌, Option, none, ok, err, nat_eq,
  Bool-cases, arith,
}
use codex_api.Store.Decimals.{Decimals}
use codex_api.Store.Times.{Times}
use codex_api.Store.Types.{
  FinalStatus, BillableUsage, StoreError, RequestContext, QuotaLimits, ModelCandidates,
}
use codex_api.Store.Ledger.{Ledger, select_started}
use codex_api.Store.Cost.{timestamp_ms}
use codex_api.Store.Requests.{begin_request}
use codex_api.Store.Invariant.{IsValid, finalize_request-IsValid, begin_request-IsValid}
use codex_api.Store.Alone.{ClosedBut, finalize-others, begin_request-OpensFor, OpensFor}
use codex_api.Pending.Handle.{Circumstances, finalize}
use codex_api.Pending.Closing.{calm, finalize_closes, finalize_nothing_closes}

equal_of : (n m : ℕ) → nat_eq n m ≡ true → n ≡ m
equal_of n m h = ground arith

module _ ⦃D : Decimals⦄ ⦃T : Times⦄ where
  open T use {OffsetDateTime}

  -- The store answers, no other task writes, and the clock is in range.
  pub record Calm (at : Circumstances) : Type 0 where
    pub instant : OffsetDateTime
    pub ms : ℤ
    pub same : at ≡ calm instant
    pub clock : timestamp_ms instant ≡ ok ms

  pub finalize-IsValid :
      (at : Circumstances) (id : ℕ) (status : FinalStatus) (usage : Option BillableUsage)
      (l : Ledger)
      → Calm at
      → IsValid l
      → IsValid (finalize at id status none usage l).1
  finalize-IsValid at id status usage l q v =
      subst (λ (a : Circumstances). IsValid (finalize a id status none usage l).1) (sym q.same)
        (finalize_request-IsValid (λ m. m) l v true true id status none usage q.instant)

  -- A row that is closed without usage leaves the others as they were.
  pub close-ClosedBut :
      (at : Circumstances) (id : ℕ) (status : FinalStatus) (allowed : ℕ → Bool) (l : Ledger)
      → Calm at
      → IsValid l
      → ClosedBut (λ k. allowed k || nat_eq id k) l
      → ClosedBut allowed (finalize at id status none none l).1
  close-ClosedBut at id status allowed l q v c k a =
      subst
        (λ (b : Circumstances). select_started k (finalize b id status none none l).1.rows ≡ none)
        (sym q.same)
        (elim (Bool-cases (nat_eq id k)) [
          | inl e ↦
              subst
                (λ j.
                  select_started j (finalize (calm q.instant) id status none none l).1.rows ≡ none)
                (equal_of id k e)
                (finalize_nothing_closes id status none q.instant q.ms l v q.clock refl)
          | inr e ↦
              finalize-others (true, true) id k status none none q.instant l e
              ∙ c k (rw (a, e) refl)
        ])

  -- With usage the row is closed, or the ledger is as it was.
  pub settle-ClosedBut :
      (at : Circumstances) (id : ℕ) (status : FinalStatus) (usage : Option BillableUsage)
      (allowed : ℕ → Bool) (l : Ledger)
      → Calm at
      → ClosedBut (λ k. allowed k || nat_eq id k) l
      → ClosedBut allowed (finalize at id status none usage l).1
        ⊎ ((e : StoreError) × (finalize at id status none usage l ≡ (err e, l)))
  settle-ClosedBut at id status usage allowed l q c =
      subst
        (λ (b : Circumstances).
          ClosedBut allowed (finalize b id status none usage l).1
          ⊎ ((e : StoreError) × (finalize b id status none usage l ≡ (err e, l))))
        (sym q.same)
        (elim (finalize_closes (true, true) id status none usage q.instant l) [
          | inr e ↦ inr e
          | inl closed ↦ inl (closes closed)
        ])
    where
      closes :
          select_started id (finalize (calm q.instant) id status none usage l).1.rows ≡ none
          → ClosedBut allowed (finalize (calm q.instant) id status none usage l).1
      closes closed k a = elim (Bool-cases (nat_eq id k)) [
        | inl e ↦
            subst
              (λ j.
                select_started j (finalize (calm q.instant) id status none usage l).1.rows ≡ none)
              (equal_of id k e) closed
        | inr e ↦
            finalize-others (true, true) id k status none usage q.instant l e ∙ c k (rw (a, e) refl)
      ]

  pub begin-IsValid :
      (at : Circumstances) (context : RequestContext) (quota : QuotaLimits)
      (candidates : ModelCandidates) (l : Ledger)
      → Calm at
      → IsValid l
      → IsValid (begin_request at.db at.others context quota candidates at.now l).1
  begin-IsValid at context quota candidates l q v =
      subst
        (λ (a : Circumstances).
          IsValid (begin_request a.db a.others context quota candidates a.now l).1)
        (sym q.same)
        (begin_request-IsValid (λ m. m) l v true true context quota candidates q.instant)

  pub begin-OpensFor :
      (at : Circumstances) (context : RequestContext) (quota : QuotaLimits)
      (candidates : ModelCandidates) (allowed : ℕ → Bool) (l : Ledger)
      → Calm at
      → ClosedBut allowed l
      → OpensFor allowed (begin_request at.db at.others context quota candidates at.now l)
  begin-OpensFor at context quota candidates allowed l q c =
      subst
        (λ (a : Circumstances).
          OpensFor allowed (begin_request a.db a.others context quota candidates a.now l))
        (sym q.same)
        (begin_request-OpensFor (true, true) context quota candidates q.instant allowed l c)
