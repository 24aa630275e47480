-- ===== src/Sdk/Batches.antt =====
-- Batches of reconciliations: `reconcile_documents`, `execute_reconciliation_plan` and
-- `_reconcile_item` of dms/sdk/reconciliation.py, with `BatchReconciliationResult` and
-- `ReconciliationPlan` of dms/sdk/types.py.
pub mod Items
pub mod Running
pub mod Counters
pub mod Executing
use dms_core.Prelude.{
  ℕ, ◌+◌, ◌-◌, Text, Bool, true, false, not, ◌&&◌, Option, none, some, is_some, List, [], ◌∷◌, map,
  filter, any, length, ◌||◌, ℤ, pos, is_negative, is_positive, exceeds, if◌then◌else◌,
}
use dms_core.Domain.Models.{
  DocumentStatus, DocumentPartition, DocumentMetadata, partition_eq, status_eq,
}
use dms_core.Domain.Errors.{Exc, validation_error, error_code}
use dms_core.Domain.Exec.{Exec, pure, raise, catch, raise_if, ◌>>=◌, ◌>>◌}
use dms_core.Sdk.Types.{RecoveryAction, DocumentInspection, ReconciliationResult}
use dms_core.Sdk.World.{World, Backend}
use dms_core.Sdk.Documents.Listing.{list_internal}
use dms_core.Sdk.Reconciliation.{inspect_document, reconcile_document}

pub record BatchReconciliationResult : Type 0 where
  pub partition : DocumentPartition
  pub status : DocumentStatus
  pub action : RecoveryAction
  pub dry_run : Bool
  pub offset : ℤ
  pub limit : ℤ
  pub items : List ReconciliationResult

pub record ReconciliationPlanItem : Type 0 where
  pub document_id : Text
  pub action : RecoveryAction
  pub storage_key : Option Text

pub record ReconciliationPlan : Type 0 where
  pub partition : DocumentPartition
  pub status : DocumentStatus
  pub action : RecoveryAction
  pub items : List ReconciliationPlanItem

abbrev pub action_eq : RecoveryAction → RecoveryAction → Bool
action_eq RecoveryAction.complete_deletion_soft RecoveryAction.complete_deletion_soft = true
action_eq RecoveryAction.complete_deletion_hard RecoveryAction.complete_deletion_hard = true
action_eq RecoveryAction.mark_failed RecoveryAction.mark_failed = true
action_eq RecoveryAction.purge_orphan_object RecoveryAction.purge_orphan_object = true
action_eq _ _ = false

-- `sum(… for item in items)`
unfoldable pub count : (ReconciliationResult → Bool) → List ReconciliationResult → ℕ
count p [] = 0
count p (r ∷ l) = let rest = count p l in if p r then 1 + rest else rest

abbrev pub scanned : BatchReconciliationResult → ℕ
scanned b = length b.items

abbrev pub failed : BatchReconciliationResult → ℕ
failed b = count (λ r. is_some r.error_type) b.items

abbrev pub eligible : BatchReconciliationResult → ℕ
eligible b = scanned b - failed b

abbrev pub applied : BatchReconciliationResult → ℕ
applied b = count (λ r. r.applied && not (is_some r.error_type)) b.items

abbrev pub skipped : BatchReconciliationResult → ℕ
skipped b = eligible b - applied b

abbrev pub inspected_key : Option DocumentInspection → Option Text
inspected_key none = none
inspected_key (some i) = i.storage_key

unfoldable pub planned : ReconciliationResult → ReconciliationPlanItem
planned r = record {
  document_id = r.document_id;
  action = r.action;
  storage_key =
      if action_eq r.action RecoveryAction.purge_orphan_object
      then inspected_key r.inspection
      else none;
}

-- `ReconciliationPlan(…)`; none is the ValueError
unfoldable pub reconciliation_plan :
    DocumentPartition
    → DocumentStatus
    → RecoveryAction
    → List ReconciliationPlanItem
    → Option ReconciliationPlan
reconciliation_plan partition status action items =
    if any (λ item. not (action_eq item.action action)) items
    then none
    else some (record { partition = partition; status = status; action = action; items = items })

-- none is a ValueError
unfoldable pub to_plan : BatchReconciliationResult → Option ReconciliationPlan
to_plan b =
    if not b.dry_run
    then none
    else reconciliation_plan b.partition b.status b.action
        (map planned (filter (λ r. not (is_some r.error_type)) b.items))

abbrev pub is_recovery_status : DocumentStatus → Bool
is_recovery_status status =
    status_eq status DocumentStatus.failed || status_eq status DocumentStatus.deleting

abbrev pub candidate : RecoveryAction → DocumentMetadata → ReconciliationPlanItem
candidate action m = record { document_id = m.document_id; action = action; storage_key = none }

module _ {D B O : Type 0} (env : Backend D B O) where
  abbrev Call : Type 0 → Type 0
  Call A = Exec (World D B O) A

  -- the inspection after an error, if there is one
  unfoldable pub try_inspection : Text → DocumentPartition → Call (Option DocumentInspection)
  try_inspection document_id partition =
      catch (inspect_document env document_id partition >>= λ i. pure (some i)) λ e. pure none

  unfoldable pub failed_item :
      Text → RecoveryAction → DocumentPartition → Exc → Call ReconciliationResult
  failed_item document_id action partition exc =
      try_inspection document_id partition >>= λ inspection. pure (record {
        document_id = document_id;
        action = action;
        applied = false;
        inspection = inspection;
        error_type = some (error_code exc);
      })

  unfoldable pub reconcile_item :
      Bool → Option Text → DocumentPartition → ReconciliationPlanItem → Call ReconciliationResult
  reconcile_item dry_run actor partition item =
      catch
        (reconcile_document env item.document_id item.action item.storage_key dry_run actor
          partition)
        (failed_item item.document_id item.action partition)

  unfoldable pub reconcile_each :
      Bool
      → Option Text
      → DocumentPartition
      → List ReconciliationPlanItem
      → Call (List ReconciliationResult)
  reconcile_each dry_run actor partition [] = pure []
  reconcile_each dry_run actor partition (item ∷ items) = do
    result ← reconcile_item dry_run actor partition item
    results ← reconcile_each dry_run actor partition items
    pure (result ∷ results)

  -- `_validate_recovery_page` and `_list_recovery_candidates` of dms/sdk/implementation.py
  unfoldable pub validate_recovery_page : DocumentStatus → ℤ → ℤ → Call (Unit {0})
  validate_recovery_page status offset limit = do
    raise_if (not (is_recovery_status status)) validation_error
    raise_if (is_negative offset) validation_error
    raise_if (not (is_positive limit) || exceeds limit 1000) validation_error

  unfoldable pub list_recovery_candidates :
      DocumentStatus → ℤ → ℤ → DocumentPartition → Call (List DocumentMetadata)
  list_recovery_candidates status offset limit partition = do
    validate_recovery_page status offset limit
    list_internal env partition offset limit (some status) []

  unfoldable pub select_candidates :
      DocumentStatus
      → ℤ
      → ℤ
      → DocumentPartition
      → Option (List DocumentMetadata)
      → Call (List DocumentMetadata)
  select_candidates status offset limit partition none =
      list_recovery_candidates status offset limit partition
  select_candidates status offset limit partition (some selected) = pure selected

  unfoldable pub reconcile_documents :
      DocumentStatus
      → RecoveryAction
      → ℤ
      → ℤ
      → Bool
      → Option Text
      → DocumentPartition
      → Option (List DocumentMetadata)
      → Call BatchReconciliationResult
  reconcile_documents status action offset limit dry_run actor partition candidates = do
    selected ← select_candidates status offset limit partition candidates
    items ← reconcile_each dry_run actor partition (map (candidate action) selected)
    pure (record {
      partition = partition;
      status = status;
      action = action;
      dry_run = dry_run;
      offset = offset;
      limit = limit;
      items = items;
    })

  unfoldable pub execute_reconciliation_plan :
      ReconciliationPlan → DocumentPartition → Option Text → Call BatchReconciliationResult
  execute_reconciliation_plan plan partition actor = do
    raise_if (not (partition_eq plan.partition partition)) validation_error
    results ← reconcile_each false actor partition plan.items
    pure (record {
      partition = partition;
      status = plan.status;
      action = plan.action;
      dry_run = false;
      offset = pos 0;
      limit = pos (length plan.items);
      items = results;
    })
