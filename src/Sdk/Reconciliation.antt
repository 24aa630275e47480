-- ===== src/Sdk/Reconciliation.antt =====
-- `ReconciliationCoordinator` of dms/sdk/reconciliation.py: inspection of one document and the
-- recovery actions. The overrides that the facade hands in are taken to be the coordinator's own
-- methods and those of the document service.
pub mod Inspection
pub mod Audit
pub mod Purging
pub mod Applying
pub mod Marking
pub mod Completing
pub mod Actions
use dms_core.Prelude.{
  Text, is_blank, starts_with, Bool, true, false, not, ◌||◌, Option, none, some, List, [], ◌∷◌,
  ◌++◌, if◌then◌else◌,
}
use dms_core.Domain.Models.{DocumentStatus, DocumentPartition, DocumentMetadata}
use dms_core.Domain.Errors.{
  Exc, validation_error, document_not_found_error, storage_error, metadata_store_error,
  is_lookup_error, error_code,
}
use dms_core.Domain.Exec.{
  Outcome, ok, raised, Exec, pure, raise, catch, raise_if, unless, ◌>>=◌, ◌>>◌,
}
use dms_core.Sdk.Types.{
  RecoveryIssue, RecoveryAction, DocumentInspection, ReconciliationResult, RecoveryAuditEvent,
}
use dms_core.Sdk.World.{World, Backend, on_db, on_bucket, on_audit}
use dms_core.Sdk.Documents.{get_internal_metadata, set_status}
use dms_core.Sdk.Upload.Keys.{document_prefix}

-- The `if` chain of `inspect_document`, on the status and whether the object exists.
unfoldable pub consistent_issue : DocumentStatus → Bool → Bool × RecoveryIssue
consistent_issue DocumentStatus.deleted false = (true, RecoveryIssue.clean)
consistent_issue _ false = (false, RecoveryIssue.object_missing)
consistent_issue DocumentStatus.deleting true = (false, RecoveryIssue.deletion_incomplete)
consistent_issue DocumentStatus.failed true = (false, RecoveryIssue.failed_status)
consistent_issue _ true = (true, RecoveryIssue.clean)

unfoldable pub missing_inspection : Text → DocumentInspection
missing_inspection document_id = record {
  document_id = document_id;
  metadata_exists = false;
  object_exists = none;
  status = none;
  consistent = false;
  issue = RecoveryIssue.metadata_missing;
  storage_key = none;
}

unfoldable pub found_inspection : Text → DocumentMetadata → Bool → DocumentInspection
found_inspection document_id metadata object_exists = record {
  document_id = document_id;
  metadata_exists = true;
  object_exists = some object_exists;
  status = some metadata.status;
  consistent = (consistent_issue metadata.status object_exists).0;
  issue = (consistent_issue metadata.status object_exists).1;
  storage_key = some metadata.storage_key;
}

-- `inspection.object_exists is not False`
abbrev pub may_exist : Option Bool → Bool
may_exist (some false) = false
may_exist _ = true

-- `inspection.status is not DocumentStatus.DELETING`
abbrev pub not_deleting : Option DocumentStatus → Bool
not_deleting (some DocumentStatus.deleting) = false
not_deleting _ = true

unfoldable pub audit_event :
    Text → RecoveryAction → Bool → Option Text → Bool → Bool → Option Text → RecoveryAuditEvent
audit_event document_id action dry_run actor succeeded applied error_type = record {
  document_id = document_id;
  action = action;
  dry_run = dry_run;
  succeeded = succeeded;
  applied = applied;
  actor = actor;
  error_type = error_type;
}

module _ {D B O : Type 0} (env : Backend D B O) where
  abbrev Call : Type 0 → Type 0
  Call A = Exec (World D B O) A

  -- the first `try` of `inspect_document`
  unfoldable pub load_for_inspection : Text → DocumentPartition → Call (Option DocumentMetadata)
  load_for_inspection document_id partition =
      catch
        (on_db (env.metadata_store.get_metadata document_id partition) >>= λ metadata.
          pure (some metadata))
        λ e. if is_lookup_error e then pure none else raise metadata_store_error

  unfoldable pub inspect_loaded : Text → Option DocumentMetadata → Call DocumentInspection
  inspect_loaded document_id none = pure (missing_inspection document_id)
  inspect_loaded document_id (some metadata) = do
    object_exists ←
        catch (on_bucket (env.object_store.object_exists document_id metadata.storage_key))
          λ e. raise storage_error
    pure (found_inspection document_id metadata object_exists)

  unfoldable pub inspect_document : Text → DocumentPartition → Call DocumentInspection
  inspect_document document_id partition =
      load_for_inspection document_id partition >>= inspect_loaded document_id

  -- the branch of `_apply` for PURGE_ORPHAN_OBJECT, on the storage key that the caller supplies
  unfoldable pub purge_orphan :
      Text → Option Text → Bool → DocumentPartition → DocumentInspection → Call (Unit {0})
  purge_orphan document_id none dry_run partition inspection = do
    raise_if inspection.metadata_exists validation_error
    raise validation_error
  purge_orphan document_id (some storage_key) dry_run partition inspection = do
    raise_if inspection.metadata_exists validation_error
    raise_if (is_blank storage_key) validation_error
    raise_if (not (starts_with storage_key (document_prefix env.sha256 partition document_id)))
        validation_error
    exists ←
        catch (on_bucket (env.object_store.object_exists document_id storage_key))
          λ e. raise storage_error
    raise_if (not exists) validation_error
    unless dry_run (
        catch (on_bucket (env.object_store.delete_object document_id storage_key))
          λ e. raise storage_error)

  -- the deletion that COMPLETE_DELETION_HARD and COMPLETE_DELETION_SOFT complete
  unfoldable pub delete_marked : Text → Bool → DocumentPartition → Call (Unit {0})
  delete_marked document_id true partition =
      on_db (env.metadata_store.hard_delete document_id partition)
  delete_marked document_id false partition =
      on_db (env.metadata_store.mark_deleted document_id partition) >>= λ _. pure tt

  unfoldable pub complete_deletion :
      Text → Bool → Bool → DocumentPartition → DocumentInspection → Call (Unit {0})
  complete_deletion document_id hard dry_run partition inspection = do
    raise_if (not inspection.metadata_exists) document_not_found_error
    raise_if (not_deleting inspection.status || may_exist inspection.object_exists) validation_error
    unless dry_run
        (catch (delete_marked document_id hard partition) λ e. raise metadata_store_error)

  unfoldable pub mark_document_failed :
      Text → Bool → DocumentPartition → DocumentInspection → Call (Unit {0})
  mark_document_failed document_id dry_run partition inspection = do
    raise_if (not inspection.metadata_exists) document_not_found_error
    raise_if (may_exist inspection.object_exists) validation_error
    unless dry_run (
        get_internal_metadata env document_id partition >>= λ metadata.
        set_status env metadata DocumentStatus.failed >>= λ _. pure tt)

  unfoldable pub act :
      RecoveryAction
      → Text
      → Option Text
      → Bool
      → DocumentPartition
      → DocumentInspection
      → Call (Unit {0})
  act RecoveryAction.purge_orphan_object document_id storage_key dry_run partition =
      purge_orphan document_id storage_key dry_run partition
  act RecoveryAction.complete_deletion_soft document_id storage_key dry_run partition =
      complete_deletion document_id false dry_run partition
  act RecoveryAction.complete_deletion_hard document_id storage_key dry_run partition =
      complete_deletion document_id true dry_run partition
  act RecoveryAction.mark_failed document_id storage_key dry_run partition =
      mark_document_failed document_id dry_run partition

  unfoldable pub apply :
      Text → RecoveryAction → Option Text → Bool → DocumentPartition → Call ReconciliationResult
  apply document_id action storage_key dry_run partition = do
    inspection ← inspect_document document_id partition
    act action document_id storage_key dry_run partition inspection
    inspection_after ← inspect_document document_id partition
    pure (record {
      document_id = document_id;
      action = action;
      applied = not dry_run;
      inspection = some inspection_after;
      error_type = none;
    })

  -- A hook that raises is logged.
  unfoldable pub hand_over :
      Option (RecoveryAuditEvent → Exec (List RecoveryAuditEvent) (Unit {0}))
      → RecoveryAuditEvent
      → Call (Unit {0})
  hand_over none event = pure tt
  hand_over (some hook) event = catch (on_audit (hook event)) λ e. pure tt

  -- `_emit_recovery_audit` of dms/sdk/implementation.py
  unfoldable pub emit_audit : RecoveryAuditEvent → Call (Unit {0})
  emit_audit event = hand_over env.recovery_audit_hook event

  unfoldable pub reconcile_document :
      Text
      → RecoveryAction
      → Option Text
      → Bool
      → Option Text
      → DocumentPartition
      → Call ReconciliationResult
  unfolding audit_event emit_audit
  reconcile_document document_id action storage_key dry_run actor partition = do
    result ← catch (apply document_id action storage_key dry_run partition) λ exc. do
      emit_audit (audit_event document_id action dry_run actor false false (some (error_code exc)))
      raise exc
    emit_audit (audit_event document_id action dry_run actor true result.applied none)
    pure result
