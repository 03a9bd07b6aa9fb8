-- ===== src/Store/Invariant.antt =====
-- The invariant of the request ledger, kept by each operation of src/store.rs.
use codex_api.Common.{
  ℕ, suc, ◌≤◌, ◌≡◌, ◌≢◌, refl, ◌⊎◌, inl, inr, ℤ, Bool, true, false, Option, none, List, [], ◌∷◌,
  ◌++◌, String, eq_iff, ok, err, Bool-cases, Result-cases, arith, ◌&&◌,
}
use codex_api.Store.Decimals.{Decimals}
use codex_api.Store.Times.{Times}
use codex_api.Store.Types.{
  QuotaLimits, ModelCandidates, BillableUsage, RequestContext, FinalStatus, completed, incomplete,
  rejected, upstream_error, canceled, internal_error, status_str,
}
use codex_api.Store.Ledger.{
  Row, Ledger, checks, insert_row, is_started, update_started, update_checks,
}
use codex_api.Store.Cost.{timestamp_ms}
use codex_api.Store.Requests.{
  Outcome, insert, Verdict, request_row, begin_request, rejection_row, record_rejection, assess,
  admission,
}
use codex_api.Store.Finalize.{finished_row, update, finalize_request, Charge, settle, cost_fits}

-- The keys rise along the rows and stay below the next key.
abbrev pub Ascending : ℕ → List Row → ℕ → Type 0
Ascending lo [] hi = lo ≤ hi
Ascending lo (r ∷ rs) hi = (lo ≤ r.id) × Ascending (suc r.id) rs hi

-- A row is open, with nothing charged, or it is closed and has its end.
abbrev pub Phased : Row → Type 0
Phased r =
    ((r.status ≡ "started") × (r.finished_at_ms ≡ none) × (r.cost_nano_usd ≡ none))
    ⊎ ((r.status ≢ "started") × (r.finished_at_ms ≢ none))

-- A row meets the constraints of the table and is open or closed.
pub record IsSound (r : Row) : Type 0 where
  pub checked : checks r ≡ true
  pub phased : Phased r

abbrev pub AllSound : List Row → Type 0
AllSound [] = Unit
AllSound (r ∷ rs) = IsSound r × AllSound rs

pub record IsValid (l : Ledger) : Type 0 where
  pub keys : Ascending 0 l.rows l.next_id
  pub rows : AllSound l.rows

Ascending-append :
    (lo : ℕ) (rs : List Row) (hi : ℕ) (r : Row)
    → Ascending lo rs hi
    → r.id ≡ hi
    → Ascending lo (rs ++ r ∷ []) (suc hi)
Ascending-append lo [] hi r a e = omega arith
Ascending-append lo (x ∷ xs) hi r a e = (a.0, Ascending-append (suc x.id) xs hi r a.1 e)

AllSound-append : (rs : List Row) (r : Row) → AllSound rs → IsSound r → AllSound (rs ++ r ∷ [])
AllSound-append [] r a s = (s, tt)
AllSound-append (x ∷ xs) r a s = (a.0, AllSound-append xs r a.1 s)

insert-IsValid :
    (available : Bool) (r : Row) (l : Ledger)
    → Phased r
    → IsValid l
    → IsValid (insert available r l).1
unfolding insert insert_row
insert-IsValid false r l s v = v
insert-IsValid true r l s v = elim (Bool-cases (checks (record r { id = l.next_id }))) [
  | inl e ↦
      rw (e, insert)
        (record {
          keys = Ascending-append 0 l.rows l.next_id (record r { id = l.next_id }) v.keys refl;
          rows =
              AllSound-append l.rows (record r { id = l.next_id }) v.rows
                (record { checked = e; phased = s });
        })
  | inr e ↦ rw (e, insert) v
]

Ascending-update :
    (id : ℕ) (f : Row → Row) (lo : ℕ) (rs : List Row) (hi : ℕ)
    → ((r : Row) → (f r).id ≡ r.id)
    → Ascending lo rs hi
    → Ascending lo (update_started id f rs).0 hi
unfolding update_started
Ascending-update id f lo [] hi same a = a
Ascending-update id f lo (r ∷ rs) hi same a =
    ground (arith, Ascending-update id f (suc r.id) rs hi same a.1, same r)

AllSound-update :
    (fits : Bool) (id : ℕ) (f : Row → Row) (rs : List Row)
    → ((r : Row) → checks (f r) ≡ true → IsSound (f r))
    → update_checks fits id f rs ≡ true
    → AllSound rs
    → AllSound (update_started id f rs).0
unfolding update_started update_checks
AllSound-update fits id f [] s c a = tt
AllSound-update fits id f (r ∷ rs) s c a = elim (Bool-cases (is_started id r)) [
  | inl e ↦
      rw (e, update_started) (s r (ground arith), AllSound-update fits id f rs s (ground arith) a.1)
  | inr e ↦ rw (e, update_started) (a.0, AllSound-update fits id f rs s (ground arith) a.1)
]

update-IsValid :
    (accepts : Bool) (id : ℕ) (f : Row → Row) (cost : Option ℤ) (l : Ledger)
    → ((r : Row) → (f r).id ≡ r.id)
    → ((r : Row) → checks (f r) ≡ true → IsSound (f r))
    → IsValid l
    → IsValid (update accepts id f cost l).1
unfolding update
update-IsValid accepts id f cost l same s v =
    elim (Bool-cases (accepts && update_checks (cost_fits cost) id f l.rows)) [
      | inl e ↦
          rw (e, update)
            (record {
              keys = Ascending-update id f 0 l.rows l.next_id same v.keys;
              rows = AllSound-update (cost_fits cost) id f l.rows s (ground arith) v.rows;
            })
      | inr e ↦ rw (e, update) v
    ]

pub status_str-ne-started : (s : FinalStatus) → status_str s ≢ "started"
unfolding status_str
status_str-ne-started completed e = ground (arith, eq_iff "completed" "started")
status_str-ne-started incomplete e = ground (arith, eq_iff "incomplete" "started")
status_str-ne-started rejected e = ground (arith, eq_iff "rejected" "started")
status_str-ne-started upstream_error e = ground (arith, eq_iff "upstream_error" "started")
status_str-ne-started canceled e = ground (arith, eq_iff "canceled" "started")
status_str-ne-started internal_error e = ground (arith, eq_iff "internal_error" "started")

finished_row-IsSound :
    (asked now : ℤ) (status : FinalStatus) (http : Option ℕ) (charge : Charge) (r : Row)
    → checks (finished_row asked now status http charge r) ≡ true
    → IsSound (finished_row asked now status http charge r)
unfolding finished_row
finished_row-IsSound asked now status http charge r c = record {
  checked = c;
  phased = inr (status_str-ne-started status, λ e. cc);
}

module _ ⦃D : Decimals⦄ where
  request_row-Phased :
      (context : RequestContext) (at : ℤ) (v : Verdict) → Phased (request_row context at v)
  unfolding request_row
  request_row-Phased context at v = elim (Bool-cases v.rejected) [
    | inl p ↦ inr (rw p (λ e. ground (arith, eq_iff "rejected" "started")), rw p (λ e. cc))
    | inr p ↦ inl (rw p (refl, refl, refl))
  ]

  pub admission-ledger : (v : Verdict) (o : Outcome ℕ) → (admission v o).1 ≡ o.1
  admission-ledger v (ok id, l) = refl
  admission-ledger v (err e, l) = refl

module _ ⦃D : Decimals⦄ ⦃T : Times⦄ where
  open T use {OffsetDateTime}

  module _ (others : Ledger → Ledger) (l : Ledger) (v : IsValid (others l)) where
    -- What `begin_request` leaves is valid if the ledger that it writes to is.
    pub begin_request-IsValid :
        (answers accepts : Bool) (context : RequestContext) (quota : QuotaLimits)
        (candidates : ModelCandidates) (now : OffsetDateTime)
        → IsValid (begin_request (answers, accepts) others context quota candidates now l).1
    unfolding begin_request
    begin_request-IsValid answers accepts context quota candidates now =
        elim (Result-cases (assess answers context quota candidates now l)) [
          | inl (e, p) ↦ rw (p, begin_request) v
          | inr (a, p) ↦
              rw (p, begin_request)
                (rw (admission-ledger a.1 _) (
                  insert-IsValid accepts (request_row context a.0 a.1) (others l)
                    (request_row-Phased context a.0 a.1) v))
        ]

    -- What `finalize_request` leaves is valid if the ledger that it writes to is.
    pub finalize_request-IsValid :
        (answers accepts : Bool) (id : ℕ) (status : FinalStatus) (http : Option ℕ)
        (usage : Option BillableUsage) (now : OffsetDateTime)
        → IsValid (finalize_request (answers, accepts) others id status http usage now l).1
    unfolding finalize_request
    finalize_request-IsValid answers accepts id status http usage now =
        elim (Result-cases (settle answers id usage now l)) [
          | inl (e, p) ↦ rw (p, finalize_request) v
          | inr (a, p) ↦
              rw (p, finalize_request)
                (update-IsValid accepts id (finished_row a.0 a.1 status http a.2) a.2.cost_nano_usd
                  (others l) (λ r. unfold finished_row in refl)
                  (finished_row-IsSound a.0 a.1 status http a.2) v)
        ]

module _ ⦃T : Times⦄ where
  open T use {OffsetDateTime}

  rejection_row-Phased :
      (context : RequestContext) (model : String) (effort : Option String) (http : Option ℕ)
      (at : ℤ)
      → Phased (rejection_row context model effort http at)
  unfolding rejection_row
  rejection_row-Phased context model effort http at =
      inr (λ e. ground (arith, eq_iff "rejected" "started"), λ e. cc)

  -- A rejection keeps a valid ledger valid.
  pub record_rejection-IsValid :
      (accepts : Bool) (context : RequestContext) (model : String) (effort : Option String)
      (http : Option ℕ) (now : OffsetDateTime) (l : Ledger)
      → IsValid l
      → IsValid (record_rejection accepts context model effort http now l).1
  unfolding record_rejection
  record_rejection-IsValid accepts context model effort http now l v =
      elim (Result-cases (timestamp_ms now)) [
        | inl (e, p) ↦ rw (p, record_rejection) v
        | inr (at, p) ↦
            rw (p, record_rejection)
              (insert-IsValid accepts (rejection_row context model effort http at) l
                (rejection_row-Phased context model effort http at) v)
      ]
