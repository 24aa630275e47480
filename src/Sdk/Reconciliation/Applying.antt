-- ===== src/Sdk/Reconciliation/Applying.antt =====
-- Reconciling one document: the inspection, the action, and the inspection after it.
use dms_core.Prelude.{Text, Bool, true, false, not, Option, none, some, ◌≡◌, ◌⊎◌, inl, inr, refl}
use dms_core.Domain.Models.{DocumentPartition}
use dms_core.Domain.Errors.{Exc, metadata_store_error, storage_error}
use dms_core.Domain.Exec.{Outcome, Exec, ok, raised, pure, ◌>>=◌}
use dms_core.Domain.Exec.Rules.{bind-ensures}
use dms_core.Domain.Laws.{found}
use dms_core.Sdk.Types.{RecoveryAction, DocumentInspection, ReconciliationResult}
use dms_core.Sdk.World.{World, Backend, BackendLaws, table_of, bucket_of, Same}
use dms_core.Sdk.Reconciliation.{act, inspect_document, apply}
use dms_core.Sdk.Reconciliation.Inspection.{report, Inspects, inspect_document-Inspects}
use dms_core.Sdk.Reconciliation.Actions.{Requires, Effect, Spares, Acts}
use dms_core.Sdk.Reconciliation.Completing.{complete_deletion-Completes}
use dms_core.Sdk.Reconciliation.Marking.{mark_document_failed-Marks}
use dms_core.Sdk.Reconciliation.Purging.{purge_orphan-Purges}

module _ {D B O : Type 0} (env : Backend D B O) (laws : BackendLaws env) (id : Text)
    (action : RecoveryAction) (key : Option Text) (dry : Bool) (p : DocumentPartition) where
  act-Acts :
      (a : RecoveryAction) (w : World D B O) (i : DocumentInspection)
      → i ≡ report id (found (table_of laws w) id p) (bucket_of laws w)
      → Acts env laws a id key dry p
          (table_of laws w)
          (bucket_of laws w)
          (act env a id key dry p i w)
  unfolding act
  act-Acts RecoveryAction.purge_orphan_object w i e =
      purge_orphan-Purges env laws id dry p w key i e
  act-Acts RecoveryAction.complete_deletion_soft w i e =
      complete_deletion-Completes env laws id key dry p w false i e
  act-Acts RecoveryAction.complete_deletion_hard w i e =
      complete_deletion-Completes env laws id key dry p w true i e
  act-Acts RecoveryAction.mark_failed w i e = mark_document_failed-Marks env laws id key dry p w i e

  -- The action was allowed and has done what it is for, or nothing in a dry run.
  abbrev pub Done : World D B O → World D B O → Type 0
  Done w w' =
      Requires env.sha256 action id key p (table_of laws w) (bucket_of laws w)
      × Effect dry action id key p (table_of laws w) (bucket_of laws w) (table_of laws w')
          (bucket_of laws w')

  abbrev pub Applies : World D B O → Outcome ReconciliationResult × World D B O → Type 0
  Applies w (ok r, w') =
      Done w w'
      × (r ≡ record {
        document_id = id;
        action = action;
        applied = not dry;
        inspection = some (report id (found (table_of laws w') id p) (bucket_of laws w'));
        error_type = none;
      })
  Applies w (raised e, w') =
      Spares env laws dry action key (table_of laws w) (bucket_of laws w) w' ⊎ Done w w'

  abbrev after_second : DocumentInspection → Exec (World D B O) ReconciliationResult
  after_second i = pure (record {
    document_id = id;
    action = action;
    applied = not dry;
    inspection = some i;
    error_type = none;
  })

  abbrev after_act : Unit {0} → Exec (World D B O) ReconciliationResult
  after_act _ = inspect_document env id p >>= after_second

  abbrev after_first : DocumentInspection → Exec (World D B O) ReconciliationResult
  after_first i = act env action id key dry p i >>= after_act

  pub not_inspected :
      (w t : World D B O) (e : Exc) → Inspects env laws id p t (raised e, w) → Same laws t w
  not_inspected w t metadata_store_error h = h
  not_inspected w t storage_error h = h
  not_inspected w t e h = absurd h

  after_act-Applies : (w t : World D B O) → Done w t → Applies w (after_act tt t)
  after_act-Applies w t d =
      bind-ensures (Inspects env laws id p t) (Applies w) (inspect_document env id p) after_second t
        (inspect_document-Inspects env laws id p t)
        (λ i u h. (rw (h.1.0, h.1.1) d, rw (h.0, h.1.0, h.1.1) refl))
        (λ e u h. let s = not_inspected u t e h in inr (rw (s.0, s.1) d))

  abbrev ActsFrom : World D B O → Outcome (Unit {0}) × World D B O → Type 0
  ActsFrom w x = Acts env laws action id key dry p (table_of laws w) (bucket_of laws w) x

  after_first-Applies :
      (w t : World D B O) (i : DocumentInspection)
      → Inspects env laws id p w (ok i, t)
      → Applies w (after_first i t)
  after_first-Applies w t i h =
      bind-ensures (ActsFrom w) (Applies w) (act env action id key dry p i) after_act t
        (rw (h.1.0, h.1.1) at (act-Acts action t i (rw (h.1.0, h.1.1) h.0)))
        (λ _ u g. after_act-Applies w u g) (λ _ u g. inl g)

  pub apply-Applies : (w : World D B O) → Applies w (apply env id action key dry p w)
  unfolding apply
  apply-Applies w =
      bind-ensures (Inspects env laws id p w) (Applies w) (inspect_document env id p) after_first w
        (inspect_document-Inspects env laws id p w) (λ i t h. after_first-Applies w t i h)
        (λ e t h. let s = not_inspected t w e h in inl (s.0, inl s.1))
