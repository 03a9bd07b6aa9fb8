-- ===== src/Store/Reachable.antt =====
-- Every ledger that the operations of src/store.rs lead to is valid.
use codex_api.Store.Decimals.{Decimals}
use codex_api.Store.Times.{Times}
use codex_api.Store.Ledger.{Ledger}
use codex_api.Store.Invariant.{
  IsValid, begin_request-IsValid, finalize_request-IsValid, record_rejection-IsValid,
}
use codex_api.Store.Finality.{Step, begins, rejects, finalizes, Reach, here, next}

module _ ⦃D : Decimals⦄ ⦃T : Times⦄ where
  Step-IsValid : {l l' : Ledger} → IsValid l → Step l l' → IsValid l'
  Step-IsValid {l} v (begins (answers, accepts) seen context quota candidates now) =
      begin_request-IsValid (λ _. l) seen v answers accepts context quota candidates now
  Step-IsValid {l} v (rejects accepts context model effort http now) =
      record_rejection-IsValid accepts context model effort http now l v
  Step-IsValid {l} v (finalizes (answers, accepts) seen id status http usage now) =
      finalize_request-IsValid (λ _. l) seen v answers accepts id status http usage now

  -- Whatever requests begin, are rejected or are finalized, in any interleaving, with stale reads and
  -- whatever the database answers, a valid ledger stays valid: its keys rise and stay below the next
  -- key, and each row meets the constraints of the table and is open without a cost or closed with
  -- its end.
  pub Reach-IsValid : {l l' : Ledger} → IsValid l → Reach l l' → IsValid l'
  Reach-IsValid v here = v
  Reach-IsValid v (next p s) = Step-IsValid (Reach-IsValid v p) s
