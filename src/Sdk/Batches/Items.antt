-- ===== src/Sdk/Batches/Items.antt =====
-- What a batch of reconciliations gives for each of its documents.
use dms_core.Prelude.{
  Text, Bool, true, false, not, Option, none, some, is_some, List, [], ◌∷◌, ◌≡◌, ◌⊎◌, inl, inr,
  refl, sym, subst,
}
use dms_core.Domain.Models.{DocumentPartition}
use dms_core.Domain.Errors.{Exc, error_code}
use dms_core.Domain.Exec.{Outcome, ok, raised, Exec, pure, ◌>>=◌, ◌>>◌}
use dms_core.Domain.Exec.Rules.{bind-ensures, catch-ensures}
use dms_core.Sdk.Types.{RecoveryAction, DocumentInspection, ReconciliationResult}
use dms_core.Sdk.World.{World, Backend}
use dms_core.Sdk.Reconciliation.{inspect_document, act, apply, reconcile_document}
use dms_core.Sdk.Reconciliation.Audit.{reconcile_document-Reports}
use dms_core.Sdk.Batches.{
  ReconciliationPlanItem, try_inspection, failed_item, reconcile_item, reconcile_each,
}

-- The result for an item: done, or an error in place of changes.
abbrev pub Answers : Bool → ReconciliationPlanItem → ReconciliationResult → Type 0
Answers dry item r =
    (r.document_id ≡ item.document_id)
    × (r.action ≡ item.action)
    × (((r.error_type ≡ none) × (r.applied ≡ not dry))
        ⊎ ((is_some r.error_type ≡ true) × (r.applied ≡ false)))

-- One result for each item, in order.
abbrev pub AnswersAll : Bool → List ReconciliationPlanItem → List ReconciliationResult → Type 0
AnswersAll dry [] [] = Unit
AnswersAll dry (item ∷ items) (r ∷ results) = Answers dry item r × AnswersAll dry items results
AnswersAll dry _ _ = ⊥

module _ {D B O : Type 0} (env : Backend D B O) where
  -- What `_apply` says of its result.
  abbrev Says : Text → RecoveryAction → Bool → Outcome ReconciliationResult → Type 0
  Says id a dry (ok r) =
      (r.document_id ≡ id) × (r.action ≡ a) × (r.error_type ≡ none) × (r.applied ≡ not dry)
  Says id a dry (raised e) = Unit

  abbrev result_of :
      Text → RecoveryAction → Bool → DocumentInspection → Exec (World D B O) ReconciliationResult
  result_of id a dry i = pure (record {
    document_id = id;
    action = a;
    applied = not dry;
    inspection = some i;
    error_type = none;
  })

  abbrev inspect_again :
      Text → RecoveryAction → Bool → DocumentPartition → Exec (World D B O) ReconciliationResult
  inspect_again id a dry p = inspect_document env id p >>= result_of id a dry

  abbrev SaysIn : Text → RecoveryAction → Bool → Outcome ReconciliationResult × World D B O → Type 0
  SaysIn id a dry x = Says id a dry x.0

  apply-Says :
      (id : Text) (a : RecoveryAction) (key : Option Text) (dry : Bool) (p : DocumentPartition)
      (w : World D B O)
      → SaysIn id a dry (apply env id a key dry p w)
  unfolding apply
  apply-Says id a key dry p w =
      bind-ensures (λ _. Unit) (SaysIn id a dry) (inspect_document env id p)
        (λ i. act env a id key dry p i >> inspect_again id a dry p) w tt
        (λ i v _.
          bind-ensures (λ _. Unit) (SaysIn id a dry) (act env a id key dry p i)
            (λ _. inspect_again id a dry p) v tt
            (λ _ u _.
              bind-ensures (λ _. Unit) (SaysIn id a dry) (inspect_document env id p)
                (result_of id a dry) u tt (λ j t _. (refl, refl, refl, refl)) (λ e t _. tt))
            (λ e t _. tt))
        (λ e t _. tt)

  abbrev pub Item :
      Bool → ReconciliationPlanItem → Outcome ReconciliationResult × World D B O → Type 0
  Item dry item (ok r, w) = Answers dry item r
  Item dry item (raised e, w) = ⊥

  abbrev Inspects : Outcome (Option DocumentInspection) × World D B O → Type 0
  Inspects (ok o, w) = Unit
  Inspects (raised e, w) = ⊥

  try_inspection-Inspects :
      (id : Text) (p : DocumentPartition) (w : World D B O) → Inspects (try_inspection env id p w)
  unfolding try_inspection
  try_inspection-Inspects id p w =
      catch-ensures (λ _. Unit) Inspects (inspect_document env id p >>= λ i. pure (some i))
        (λ e. pure none) w tt (λ i t _. tt) (λ e t _. tt)

  failed_item-Item :
      (dry : Bool) (item : ReconciliationPlanItem) (p : DocumentPartition) (e : Exc)
      (w : World D B O)
      → Item dry item (failed_item env item.document_id item.action p e w)
  unfolding failed_item
  failed_item-Item dry item p e w =
      bind-ensures Inspects (Item dry item) (try_inspection env item.document_id p)
        (λ i. pure (record {
          document_id = item.document_id;
          action = item.action;
          applied = false;
          inspection = i;
          error_type = some (error_code e);
        }))
        w (try_inspection-Inspects item.document_id p w) (λ i t _. (refl, refl, inr (refl, refl)))
        (λ x t h. h)

  reconcile_item-Item :
      (dry : Bool) (actor : Option Text) (p : DocumentPartition) (item : ReconciliationPlanItem)
      (w : World D B O)
      → Item dry item (reconcile_item env dry actor p item w)
  unfolding reconcile_item
  reconcile_item-Item dry actor p item w =
      catch-ensures (SaysIn item.document_id item.action dry) (Item dry item)
        (reconcile_document env item.document_id item.action item.storage_key dry actor p)
        (failed_item env item.document_id item.action p) w
        (subst (Says item.document_id item.action dry)
          (sym
            (reconcile_document-Reports env item.document_id item.action item.storage_key dry actor
              p w).0)
          (apply-Says item.document_id item.action item.storage_key dry p w))
        (λ r t h. (h.0, h.1, inl (h.2, h.3))) (λ e t h. failed_item-Item dry item p e t)

  abbrev pub Each :
      Bool
      → List ReconciliationPlanItem
      → Outcome (List ReconciliationResult) × World D B O
      → Type 0
  Each dry items (ok results, w) = AnswersAll dry items results
  Each dry items (raised e, w) = ⊥

  -- A batch goes through all its items, whichever of them fail: it ends with one result for each
  -- item, in order, which says that the action was done (and changes were made unless it was a dry
  -- run) or names an error and says that nothing was applied.
  pub reconcile_each-Each :
      (dry : Bool) (actor : Option Text) (p : DocumentPartition)
      (items : List ReconciliationPlanItem) (w : World D B O)
      → Each dry items (reconcile_each env dry actor p items w)
  unfolding reconcile_each
  reconcile_each-Each dry actor p [] w = tt
  reconcile_each-Each dry actor p (item ∷ items) w =
      bind-ensures (Item dry item) (Each dry (item ∷ items)) (reconcile_item env dry actor p item)
        (λ r. reconcile_each env dry actor p items >>= λ l. pure (r ∷ l)) w
        (reconcile_item-Item dry actor p item w)
        (λ r t h.
          bind-ensures (Each dry items) (Each dry (item ∷ items))
            (reconcile_each env dry actor p items) (λ l. pure (r ∷ l)) t
            (reconcile_each-Each dry actor p items t) (λ l u g. (h, g)) (λ e u g. g))
        (λ e t h. h)
