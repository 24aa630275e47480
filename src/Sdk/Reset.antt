-- ===== src/Sdk/Reset.antt =====
-- `_reset_data` of dms/sdk/implementation.py: behind the access check every store is cleared, and
-- the failures are collected.
pub mod Clearing
use dms_core.Prelude.{
  ℕ, Text, Bool, true, false, ◌&&◌, Option, none, some, List, [], ◌∷◌, ◌++◌, if◌then◌else◌,
}
use dms_core.Domain.Models.{DocumentPartition}
use dms_core.Domain.Errors.{Exc, other_error, data_reset_error, DataResetResult, StoreName}
use dms_core.Domain.Exec.{Outcome, ok, raised, Exec, pure, raise, catch, ◌>>=◌, ◌>>◌}
use dms_core.Domain.Interfaces.{UploadOperationStore}
use dms_core.Sdk.Contracts.{partition_operation_scope_prefix}
use dms_core.Sdk.Access.{AccessContext, DocumentAccessPolicy, enforce_access}
use dms_core.Sdk.World.{World, Backend, on_db, on_bucket, on_ops}

-- What became of one store: the count, and whether its call returned.
pub record StoreReset : Type 0 where
  pub count : ℕ
  pub done : Bool

-- `getattr(exc, "dms_deleted_count", 0)`
abbrev pub partial_count : Exc → ℕ
partial_count (other_error n) = n
partial_count _ = 0

-- The store's name, where its call did not return.
abbrev pub failed_name : StoreName → StoreReset → List StoreName
failed_name name r = if r.done then [] else name ∷ []

module _ {D B O : Type 0} (env : Backend D B O) where
  abbrev Call : Type 0 → Type 0
  Call A = Exec (World D B O) A

  abbrev pub clear_objects : Option DocumentPartition → Exec B ℕ
  clear_objects none = env.object_store.clear_all
  clear_objects (some partition) = env.object_store.clear_partition partition

  abbrev pub clear_metadata : Option DocumentPartition → Exec D ℕ
  clear_metadata none = env.metadata_store.clear_all
  clear_metadata (some partition) = env.metadata_store.clear_partition partition

  -- without an operation store there is nothing to count
  abbrev pub clear_operations :
      Option (UploadOperationStore O) → Option DocumentPartition → Exec O ℕ
  clear_operations none partition = pure 0
  clear_operations (some store) none = store.clear_all none
  clear_operations (some store) (some partition) =
      store.clear_all (some (partition_operation_scope_prefix env.sha256 partition))

  -- one turn of the loop over the stores
  unfoldable pub reset_store : Call ℕ → Call StoreReset
  reset_store clear =
      catch (clear >>= λ n. pure (record { count = n; done = true }))
        λ exc. pure (record { count = partial_count exc; done = false })

  unfoldable pub reset_result : StoreReset → StoreReset → StoreReset → DataResetResult
  reset_result objects metadata operations = record {
    metadata_deleted = metadata.count;
    objects_deleted = objects.count;
    upload_operations_deleted = operations.count;
    ready_for_data_load = objects.done && (metadata.done && operations.done);
  }

  unfoldable pub finish_reset : StoreReset → StoreReset → StoreReset → Call DataResetResult
  finish_reset objects metadata operations =
      if objects.done && (metadata.done && operations.done)
      then pure (reset_result objects metadata operations)
      else raise (
          data_reset_error (reset_result objects metadata operations) (
            failed_name StoreName.objects objects
            ++ (failed_name StoreName.metadata metadata
                ++ failed_name StoreName.upload_operations operations)))

  -- the body after the access check
  unfoldable pub reset_stores : Option DocumentPartition → Call DataResetResult
  reset_stores partition = do
    objects ← reset_store (on_bucket (clear_objects partition))
    metadata ← reset_store (on_db (clear_metadata partition))
    operations ← reset_store (on_ops (clear_operations env.operation_store partition))
    finish_reset objects metadata operations

  unfoldable pub reset_data :
      Option DocumentAccessPolicy
      → Text
      → Option DocumentPartition
      → Option AccessContext
      → Call DataResetResult
  reset_data policy operation partition context =
      enforce_access env policy operation context none >> reset_stores partition
