-- ===== src/Infrastructure/Operations/Claiming.antt =====
-- The operation store and the laws that the upload service relies on.
use dms_core.Prelude.{
  ℕ, suc, Text, text_eq_iff, Option, none, some, ◌≡◌, ◌≢◌, refl, arith, sym, subst,
}
use dms_core.Domain.Models.{DateTime, UploadOperation, UploadOperationState, UploadOperationClaim}
use dms_core.Domain.Exec.{Outcome, ok, raised, pure, ◌>>=◌}
use dms_core.Domain.OperationLaws.{
  Operations, mark_operation, Claims, Marks, GetsOperation, OperationStoreLaws,
}
use dms_core.Infrastructure.Operations.{
  OperationRows, transaction, pending_operation, claim_new, claim_selected, claim_turn, claim_loop,
  after_new, claim_within, ended, claim, get, mark, operation_store,
}
use dms_core.Infrastructure.Operations.Laws.{OperationRowsLaws, Updated, Selects, Updates}

Updated-mark_operation :
    (state : UploadOperationState) (now : DateTime) (n : ℕ) (row o : Option UploadOperation)
    → Updated UploadOperationState.pending state now o n row
    → row ≡ mark_operation state now o
unfolding mark_operation
Updated-mark_operation state now n row none h = h.1
Updated-mark_operation state now n row (some o) h = ground arith

module _ {T : Type 0} (rows : OperationRows T) (laws : OperationRowsLaws rows) where
  pub gets_operation :
      (scope key : Text) (t : T)
      → GetsOperation laws.operations (laws.operations t) scope key (get rows scope key t)
  unfolding get
  gets_operation scope key t = ground (arith, laws.selects scope key t)

  -- How a claim ends from a table of operations: with a claim or a raise, never out of fuel.
  abbrev pub EndsFrom :
      Text → Text → Text → Text → Operations → Outcome (Option UploadOperationClaim) × T → Type 0
  EndsFrom scope key fingerprint document_id z (ok none, t') = ⊥
  EndsFrom scope key fingerprint document_id z (ok (some c), t') =
      Claims laws.operations z scope key fingerprint document_id (ok c, t')
  EndsFrom scope key fingerprint document_id z (raised e, t') = laws.operations t' ≡ z

  module _ (scope key fingerprint document_id : Text) (now : DateTime) where
    abbrev operation : UploadOperation
    operation = pending_operation scope key fingerprint document_id now

    abbrev NewOrTaken : T → Outcome (Option UploadOperationClaim) × T → Type 0
    NewOrTaken t (ok none, t') =
        (laws.operations t scope key ≢ none) × (laws.operations t' ≡ laws.operations t)
    NewOrTaken t (ok (some c), t') =
        Claims laws.operations (laws.operations t) scope key fingerprint document_id (ok c, t')
    NewOrTaken t (raised e, t') = laws.operations t' ≡ laws.operations t

    claim_new-NewOrTaken : (t : T) → NewOrTaken t (claim_new rows operation t)
    unfolding claim_new pending_operation
    claim_new-NewOrTaken t = ground (arith, laws.inserts operation t)

    abbrev Turns : T → Outcome (Option UploadOperationClaim) × T → Type 0
    Turns t (ok none, t') =
        (laws.operations t scope key ≡ none) × (laws.operations t' ≡ laws.operations t)
    Turns t (ok (some c), t') =
        Claims laws.operations (laws.operations t) scope key fingerprint document_id (ok c, t')
    Turns t (raised e, t') = laws.operations t' ≡ laws.operations t

    selected-Turns :
        (t u : T) (o : Option UploadOperation)
        → o ≡ laws.operations t scope key
        → laws.operations u ≡ laws.operations t
        → Turns t (transaction (λ _. claim_selected rows fingerprint now o u) t)
    unfolding claim_selected
    selected-Turns t u none e k = (sym e, k)
    selected-Turns t u (some o) e k = ground (
      arith,
      text_eq_iff o.fingerprint fingerprint,
      laws.placed t scope key o,
      laws.updates o.scope o.idempotency_key UploadOperationState.failed
          UploadOperationState.pending now u,
    )

    claim_turn-Turns : (t : T) → Turns t (claim_turn rows scope key fingerprint now t)
    unfolding claim_turn
    claim_turn-Turns t = turned (rows.select scope key t) (laws.selects scope key t)
      where
        turned :
            (x : Outcome (Option UploadOperation) × T)
            → Selects laws.operations (laws.operations t) scope key x
            → Turns t (transaction ((λ (_ : T). x) >>= claim_selected rows fingerprint now) t)
        turned (ok o, u) h = selected-Turns t u o h.0 h.1
        turned (raised e, u) h = refl

    abbrev Ends : T → Outcome (Option UploadOperationClaim) × T → Type 0
    Ends t x = EndsFrom scope key fingerprint document_id (laws.operations t) x

    -- Where there is a row, the first turn of the loop decides.
    claim_loop-Ends :
        (n : ℕ) (t : T)
        → laws.operations t scope key ≢ none
        → Ends t (claim_loop rows (suc n) scope key fingerprint now t)
    unfolding claim_loop
    claim_loop-Ends n t m = first (claim_turn rows scope key fingerprint now t) (claim_turn-Turns t)
      where
        first :
            (x : Outcome (Option UploadOperationClaim) × T)
            → Turns t x
            → Ends t (
                ((λ (_ : T). x) >>= λ c. elim c [
                  | none ↦ claim_loop rows n scope key fingerprint now
                  | some claim ↦ pure (some claim)
                ])
                  t)
        first (ok none, u) h = absurd (m h.0)
        first (ok (some c), u) h = h
        first (raised e, u) h = h

    claimed-Ends :
        (n : ℕ) (t : T)
        → Ends t ((claim_new rows operation >>= after_new rows (suc n) scope key fingerprint now) t)
    claimed-Ends n t = decided (claim_new rows operation t) (claim_new-NewOrTaken t)
      where
        decided :
            (x : Outcome (Option UploadOperationClaim) × T)
            → NewOrTaken t x
            → Ends t (((λ (_ : T). x) >>= after_new rows (suc n) scope key fingerprint now) t)
        decided (ok none, u) (m, k) =
            subst
              (λ z.
                EndsFrom scope key fingerprint document_id z
                  (claim_loop rows (suc n) scope key fingerprint now u))
              k (claim_loop-Ends n u (subst (λ z. z scope key ≢ none) (sym k) m))
        decided (ok (some c), u) h = h
        decided (raised e, u) h = h

  module _ (scope key fingerprint document_id : Text) where
    claim_within-EndsFrom :
        (n : ℕ) (t : T)
        → EndsFrom scope key fingerprint document_id
            (laws.operations t)
            (claim_within rows (suc n) scope key fingerprint document_id t)
    unfolding claim_within
    claim_within-EndsFrom n t = claimed-Ends scope key fingerprint document_id (rows.utcnow t) n t

    ended-Claims :
        (t : T) (x : Outcome (Option UploadOperationClaim) × T)
        → EndsFrom scope key fingerprint document_id (laws.operations t) x
        → Claims laws.operations
            (laws.operations t)
            scope
            key
            fingerprint
            document_id
            (((λ (_ : T). x) >>= ended rows) t)
    ended-Claims t (ok none, u) h = absurd h
    ended-Claims t (ok (some c), u) h = h
    ended-Claims t (raised e, u) h = h

    -- A claim with fuel for one turn of the loop or more, over statements that keep their laws,
    -- never runs out of it: it ends, with a claim or by raising. If it returns, its operation has
    -- the fingerprint of the claim and stands under the scope and the key; it was claimed and is
    -- pending, where there was none or it had failed (then with the document that it had), and
    -- else it is the one that was there and was not claimed. If it raises, no operation has
    -- changed.
    pub claim-Claims :
        (n : ℕ) (t : T)
        → EndsFrom scope key fingerprint document_id
            (laws.operations t)
            (claim_within rows (suc n) scope key fingerprint document_id t)
          × Claims laws.operations
              (laws.operations t)
              scope
              key
              fingerprint
              document_id
              (claim rows (suc n) scope key fingerprint document_id t)
    unfolding claim
    claim-Claims n t = let h = claim_within-EndsFrom n t in (h, ended-Claims t _ h)

  pub marks :
      (state : UploadOperationState) (scope key : Text) (t : T)
      → Marks laws.operations (laws.operations t) state scope key (mark rows scope key state t)
  unfolding mark
  marks state scope key t =
      marked (rows.update_state scope key UploadOperationState.pending state (rows.utcnow t) t)
        (laws.updates scope key UploadOperationState.pending state (rows.utcnow t) t)
    where
      marked :
          (x : Outcome ℕ × T)
          → Updates laws.operations
              (laws.operations t)
              scope
              key
              UploadOperationState.pending
              state
              (rows.utcnow t)
              x
          → Marks laws.operations
              (laws.operations t)
              state
              scope
              key
              (transaction ((λ (_ : T). x) >>= λ _. pure tt) t)
      marked (ok n, u) h = (
        rows.utcnow t,
        Updated-mark_operation state (rows.utcnow t) n _ (laws.operations t scope key) h,
      )
      marked (raised e, u) h = refl

  unfoldable pub operation_store_laws : (n : ℕ) → OperationStoreLaws (operation_store rows (suc n))
  unfolding operation_store
  operation_store_laws n = record {
    operations = laws.operations;
    claims = λ scope key fingerprint document_id t.
        (claim-Claims scope key fingerprint document_id n t).1;
    marks_succeeded = marks UploadOperationState.succeeded;
    marks_failed = marks UploadOperationState.failed;
    gets = gets_operation;
  }
