-- ===== src/Sdk/Batches/Running.antt =====
-- What a batch of reconciliations does: the worlds that its items go through.
use dms_core.Prelude.{
  Text, Bool, true, false, Option, none, some, List, [], ◌∷◌, ◌≡◌, ◌⊎◌, inl, inr, refl, ◌∙◌, subst,
}
use dms_core.Domain.Models.{DocumentPartition}
use dms_core.Domain.Errors.{Exc, error_code}
use dms_core.Domain.Exec.{Outcome, ok, raised, Exec, pure, ◌>>=◌}
use dms_core.Domain.Exec.Rules.{bind-ensures, catch-ensures}
use dms_core.Domain.Laws.{found}
use dms_core.Sdk.Types.{RecoveryAction, DocumentInspection, ReconciliationResult}
use dms_core.Sdk.World.{World, Backend, BackendLaws, table_of, bucket_of, Same}
use dms_core.Sdk.Reconciliation.{inspect_document, apply, reconcile_document}
use dms_core.Sdk.Reconciliation.Inspection.{report, Inspects, inspect_document-Inspects}
use dms_core.Sdk.Reconciliation.Applying.{Applies, not_inspected, apply-Applies}
use dms_core.Sdk.Reconciliation.Audit.{reconcile_document-Reports}
use dms_core.Sdk.Batches.{
  ReconciliationPlanItem, try_inspection, failed_item, reconcile_item, reconcile_each,
}

module _ {D B O : Type 0} (env : Backend D B O) (laws : BackendLaws env) (dry : Bool)
    (actor : Option Text) (p : DocumentPartition) where
  abbrev pub reconciled : ReconciliationPlanItem → Exec (World D B O) ReconciliationResult
  reconciled item = reconcile_document env item.document_id item.action item.storage_key dry actor p

  -- How an item may end, by what its action asks for and changes.
  abbrev AppliesItem :
      ReconciliationPlanItem → World D B O → Outcome ReconciliationResult × World D B O → Type 0
  AppliesItem item w x = Applies env laws item.document_id item.action item.storage_key dry p w x

  -- An inspection, if there is one, is the report on the stores.
  abbrev IsReport : Text → Option DocumentInspection → World D B O → Type 0
  IsReport id none v = Unit
  IsReport id (some i) v = i ≡ report id (found (table_of laws v) id p) (bucket_of laws v)

  -- The reconciliation of the item raised, and the result says so.
  abbrev FailsItem :
      ReconciliationPlanItem → World D B O → ReconciliationResult → World D B O → Type 0
  FailsItem item w r v =
      (e : Exc) × (u : World D B O) × (reconciled item w ≡ (raised e, u))
      × AppliesItem item w (raised e, u)
      × Same laws u v
      × (r.document_id ≡ item.document_id)
      × (r.action ≡ item.action)
      × (r.applied ≡ false)
      × (r.error_type ≡ some (error_code e))
      × IsReport item.document_id r.inspection v

  -- The step of a batch at one item.
  abbrev Settles :
      ReconciliationPlanItem → World D B O → ReconciliationResult → World D B O → Type 0
  Settles item w r v =
      ((reconciled item w ≡ (ok r, v)) × AppliesItem item w (ok r, v)) ⊎ FailsItem item w r v

  -- A batch steps through all its items in order, each from the world that the last one left.
  abbrev pub Runs :
      List ReconciliationPlanItem → World D B O → List ReconciliationResult → World D B O → Type 0
  Runs [] w [] w' = w' ≡ w
  Runs (item ∷ items) w (r ∷ results) w' =
      (v : World D B O) × Settles item w r v × Runs items v results w'
  Runs _ w _ w' = ⊥

  abbrev pub RunsTo :
      List ReconciliationPlanItem
      → World D B O
      → Outcome (List ReconciliationResult) × World D B O
      → Type 0
  RunsTo items w (ok results, w') = Runs items w results w'
  RunsTo items w (raised e, w') = ⊥

  abbrev Inspected : Text → World D B O → Outcome (Option DocumentInspection) × World D B O → Type 0
  Inspected id t (ok o, v) = IsReport id o v × Same laws t v
  Inspected id t (raised e, v) = Same laws t v

  abbrev Tried : Text → World D B O → Outcome (Option DocumentInspection) × World D B O → Type 0
  Tried id t (ok o, v) = IsReport id o v × Same laws t v
  Tried id t (raised e, v) = ⊥

  inspected :
      (id : Text) (t : World D B O)
      → Inspected id t ((inspect_document env id p >>= λ i. pure (some i)) t)
  inspected id t =
      bind-ensures (Inspects env laws id p t) (Inspected id t) (inspect_document env id p)
        (λ i. pure (some i)) t (inspect_document-Inspects env laws id p t)
        (λ i v h. (rw (h.1.0, h.1.1) h.0, h.1))
        (λ e v h. not_inspected env laws id RecoveryAction.mark_failed none dry p v t e h)

  try_inspection-Tried : (id : Text) (t : World D B O) → Tried id t (try_inspection env id p t)
  unfolding try_inspection
  try_inspection-Tried id t =
      catch-ensures (Inspected id t) (Tried id t) (inspect_document env id p >>= λ i. pure (some i))
        (λ e. pure none) t (inspected id t) (λ o v h. h) (λ e v h. (tt, h))

  abbrev SettlesTo :
      ReconciliationPlanItem → World D B O → Outcome ReconciliationResult × World D B O → Type 0
  SettlesTo item w (ok r, v) = Settles item w r v
  SettlesTo item w (raised e, v) = ⊥

  -- What `apply` has done, the reconciliation around it has done.
  as_Applies :
      (item : ReconciliationPlanItem) (w : World D B O)
      (x y : Outcome ReconciliationResult × World D B O)
      → y.0 ≡ x.0
      → y.1.db ≡ x.1.db
      → y.1.bucket ≡ x.1.bucket
      → AppliesItem item w x
      → AppliesItem item w y
  as_Applies item w (ok r, t) (o, u) e d b h = rw (e, d, b) h
  as_Applies item w (raised x, t) (o, u) e d b h = rw (e, d, b) h

  reconciled-AppliesItem :
      (item : ReconciliationPlanItem) (w : World D B O) → AppliesItem item w (reconciled item w)
  reconciled-AppliesItem item w =
      let h =
        reconcile_document-Reports env item.document_id item.action item.storage_key dry actor p
          w in
      as_Applies item w (apply env item.document_id item.action item.storage_key dry p w)
        (reconciled item w) h.0 h.1 h.2
        (apply-Applies env laws item.document_id item.action item.storage_key dry p w)

  failed_item-SettlesTo :
      (item : ReconciliationPlanItem) (w : World D B O) (e : Exc) (u : World D B O)
      → reconciled item w ≡ (raised e, u)
      → SettlesTo item w (failed_item env item.document_id item.action p e u)
  unfolding failed_item
  failed_item-SettlesTo item w e u h =
      bind-ensures (Tried item.document_id u) (SettlesTo item w)
        (try_inspection env item.document_id p)
        (λ i. pure (record {
          document_id = item.document_id;
          action = item.action;
          applied = false;
          inspection = i;
          error_type = some (error_code e);
        }))
        u (try_inspection-Tried item.document_id u)
        (λ o v g. inr (
          e,
          u,
          h,
          subst (AppliesItem item w) h (reconciled-AppliesItem item w),
          g.1,
          refl,
          refl,
          refl,
          refl,
          g.0,
        ))
        (λ x v g. g)

  reconcile_item-SettlesTo :
      (item : ReconciliationPlanItem) (w : World D B O)
      → SettlesTo item w (reconcile_item env dry actor p item w)
  unfolding reconcile_item
  reconcile_item-SettlesTo item w =
      catch-ensures (λ x. reconciled item w ≡ x) (SettlesTo item w) (reconciled item)
        (failed_item env item.document_id item.action p) w refl
        (λ r v h. inl (h, subst (AppliesItem item w) h (reconciled-AppliesItem item w)))
        (λ e u h. failed_item-SettlesTo item w e u h)

  pub reconcile_each-RunsTo :
      (items : List ReconciliationPlanItem) (w : World D B O)
      → RunsTo items w (reconcile_each env dry actor p items w)
  unfolding reconcile_each
  reconcile_each-RunsTo [] w = refl
  reconcile_each-RunsTo (item ∷ items) w =
      bind-ensures (SettlesTo item w) (RunsTo (item ∷ items) w)
        (reconcile_item env dry actor p item)
        (λ r. reconcile_each env dry actor p items >>= λ l. pure (r ∷ l)) w
        (reconcile_item-SettlesTo item w)
        (λ r v h.
          bind-ensures (RunsTo items v) (RunsTo (item ∷ items) w)
            (reconcile_each env dry actor p items) (λ l. pure (r ∷ l)) v
            (reconcile_each-RunsTo items v) (λ l u g. (v, h, g)) (λ e u g. g))
        (λ e v h. h)

module _ {D B O : Type 0} (env : Backend D B O) (laws : BackendLaws env) (actor : Option Text)
    (p : DocumentPartition) where
  dry_item-Same :
      (item : ReconciliationPlanItem) (w : World D B O) (r : ReconciliationResult) (v : World D B O)
      → Settles env laws true actor p item w r v
      → Same laws w v
  dry_item-Same item w r v (inl h) = h.1.0.1
  dry_item-Same item w r v (inr (e, u, h, inl (t, inl b), s, _, _, _, _, _)) = (s.0 ∙ t, s.1 ∙ b)
  dry_item-Same item w r v (inr (e, u, h, inl (t, inr n), s, _, _, _, _, _)) = absurd cc
  dry_item-Same item w r v (inr (e, u, h, inr d, s, _, _, _, _, _)) = (s.0 ∙ d.1.0, s.1 ∙ d.1.1)

  -- A dry run leaves the table and the bucket as they were.
  pub dry_run-Same :
      (items : List ReconciliationPlanItem) (w : World D B O) (l : List ReconciliationResult)
      (w' : World D B O)
      → Runs env laws true actor p items w l w'
      → Same laws w w'
  dry_run-Same [] w [] w' h = rw h (refl, refl)
  dry_run-Same [] w (r ∷ l) w' h = absurd h
  dry_run-Same (item ∷ items) w [] w' h = absurd h
  dry_run-Same (item ∷ items) w (r ∷ l) w' (v, s, h) =
      let a = dry_item-Same item w r v s in
      let b = dry_run-Same items v l w' h in (b.0 ∙ a.0, b.1 ∙ a.1)
