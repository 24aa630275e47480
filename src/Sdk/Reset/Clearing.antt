-- ===== src/Sdk/Reset/Clearing.antt =====
-- How a data reset ends, from how the calls of the stores end.
use dms_core.Prelude.{
  ℕ, Text, codes, ap, Option, none, some, List, [], ◌∷◌, ◌++◌, ◌≡◌, ◌≢◌, ◌⊎◌, inl, inr, refl, true,
  false, Bool-cases, arith,
}
use dms_core.Domain.Models.{PartitionKind, DocumentPartition, kind_value}
use dms_core.Domain.Errors.{
  other_error, access_denied_error, data_reset_error, DataResetResult, StoreName,
}
use dms_core.Domain.Exec.{Outcome, Exec, ok, raised}
use dms_core.Domain.Interfaces.{Bytes, UploadOperationStore}
use dms_core.Sdk.Contracts.{
  encode_utf8, partition_storage_segment, partition_operation_scope_prefix,
}
use dms_core.Sdk.Access.{AccessContext, DocumentAccessPolicy, passes, enforce_access}
use dms_core.Sdk.Access.Permits.{Permits, passes-Permits, passes_denied}
use dms_core.Sdk.World.{World, Backend}
use dms_core.Sdk.Reset.{
  partial_count, clear_objects, clear_metadata, clear_operations, reset_store, reset_result,
  finish_reset, reset_stores, reset_data,
}

-- What a store has deleted: a partial count travels on the exception, if on any.
abbrev pub count_of : Outcome ℕ → ℕ
count_of (ok n) = n
count_of (raised (other_error n)) = n
count_of (raised _) = 0

-- The count that the loop takes.
abbrev taken : Outcome ℕ → ℕ
taken (ok n) = n
taken (raised e) = partial_count e

taken-count_of : (o : Outcome ℕ) → taken o ≡ count_of o
taken-count_of (ok n) = refl
taken-count_of (raised (other_error n)) = refl
taken-count_of (raised e) = refl

-- The store's name, if its call raised.
abbrev pub culprit : StoreName → Outcome ℕ → List StoreName
culprit name (ok n) = []
culprit name (raised e) = name ∷ []

abbrev pub culprits : Outcome ℕ → Outcome ℕ → Outcome ℕ → List StoreName
culprits o m u =
    culprit StoreName.objects o
    ++ (culprit StoreName.metadata m ++ culprit StoreName.upload_operations u)

abbrev pub Counts : Outcome ℕ → Outcome ℕ → Outcome ℕ → DataResetResult → Type 0
Counts o m u r =
    (r.objects_deleted ≡ count_of o)
    × (r.metadata_deleted ≡ count_of m)
    × (r.upload_operations_deleted ≡ count_of u)

-- How a reset ends, from how the calls of the three stores end.
abbrev pub Verdict : Outcome ℕ → Outcome ℕ → Outcome ℕ → Outcome DataResetResult → Type 0
Verdict o m u (ok r) = (culprits o m u ≡ []) × Counts o m u r × (r.ready_for_data_load ≡ true)
Verdict o m u (raised (data_reset_error r failed)) =
    (culprits o m u ≢ [])
    × (failed ≡ culprits o m u)
    × Counts o m u r
    × (r.ready_for_data_load ≡ false)
Verdict o m u (raised _) = ⊥

abbrev word : PartitionKind → Text
word PartitionKind.personal = codes "personal"
word PartitionKind.group = codes "group"

-- What the scopes of a partition's upload operations start with.
abbrev pub owned_scopes : (Bytes → Text) → DocumentPartition → Text
owned_scopes sha256 p =
    codes "partition:"
    ++ (word p.kind ++ (codes ":" ++ (sha256 (encode_utf8 p.partition_id) ++ codes ":")))

kind_value-word : (k : PartitionKind) → kind_value k ≡ word k
kind_value-word PartitionKind.personal = refl
kind_value-word PartitionKind.group = refl

partition_operation_scope_prefix-owned_scopes :
    (sha256 : Bytes → Text) (p : DocumentPartition)
    → partition_operation_scope_prefix sha256 p ≡ owned_scopes sha256 p
unfolding partition_operation_scope_prefix partition_storage_segment
partition_operation_scope_prefix-owned_scopes sha256 p = rw (kind_value-word p.kind) refl

module _ {D B O : Type 0} (env : Backend D B O) where
  -- The call that each store is owed, for a partition or for everything.
  abbrev pub objects_call : Option DocumentPartition → Exec B ℕ
  objects_call none = env.object_store.clear_all
  objects_call (some partition) = env.object_store.clear_partition partition

  abbrev pub metadata_call : Option DocumentPartition → Exec D ℕ
  metadata_call none = env.metadata_store.clear_all
  metadata_call (some partition) = env.metadata_store.clear_partition partition

  abbrev pub operations_call :
      Option (UploadOperationStore O) → Option DocumentPartition → O → Outcome ℕ × O
  operations_call none _ t = (ok 0, t)
  operations_call (some store) none t = store.clear_all none t
  operations_call (some store) (some partition) t =
      store.clear_all (some (owned_scopes env.sha256 partition)) t

  objects_call-clear_objects : (p : Option DocumentPartition) → clear_objects env p ≡ objects_call p
  objects_call-clear_objects none = refl
  objects_call-clear_objects (some p) = refl

  metadata_call-clear_metadata :
      (p : Option DocumentPartition) → clear_metadata env p ≡ metadata_call p
  metadata_call-clear_metadata none = refl
  metadata_call-clear_metadata (some p) = refl

  operations_call-clear_operations :
      (s : Option (UploadOperationStore O)) (p : Option DocumentPartition) (t : O)
      → clear_operations env s p t ≡ operations_call s p t
  operations_call-clear_operations none p t = refl
  operations_call-clear_operations (some s) none t = refl
  operations_call-clear_operations (some s) (some p) t =
      ap (λ x. s.clear_all (some x) t) (partition_operation_scope_prefix-owned_scopes env.sha256 p)

  module _ (p : Option DocumentPartition) where
    -- Every store was called once, and the outcome is the one that their outcomes call for.
    abbrev pub CallsAll : World D B O → Outcome DataResetResult × World D B O → Type 0
    CallsAll w x =
        let o = objects_call p w.bucket in
        let m = metadata_call p w.db in
        let u = operations_call env.operation_store p w.ops in
        (x.1 ≡ record w { bucket = o.1; db = m.1; ops = u.1 }) × Verdict o.0 m.0 u.0 x.0

    reset_stores-CallsAll : (w : World D B O) → CallsAll w (reset_stores env p w)
    unfolding reset_stores reset_store finish_reset reset_result
    reset_stores-CallsAll w =
        rw
          (
            ← objects_call-clear_objects p,
            ← metadata_call-clear_metadata p,
            ← operations_call-clear_operations env.operation_store p w.ops,
          )
          (ground (
            arith,
            taken-count_of (clear_objects env p w.bucket).0,
            taken-count_of (clear_metadata env p w.db).0,
            taken-count_of (clear_operations env env.operation_store p w.ops).0,
          ))

    module _ (policy : Option DocumentAccessPolicy) (operation : Text)
        (context : Option AccessContext) where
      -- Permitted, the stores were all called; otherwise the call was denied and did nothing.
      abbrev pub ResetsAll : World D B O → Outcome DataResetResult × World D B O → Type 0
      ResetsAll w x =
          (Permits policy operation context none × CallsAll w x)
          ⊎ ((¬ Permits policy operation context none) × (x ≡ (raised access_denied_error, w)))

      -- A data reset that the policy permits, asked about the operation and the caller's context,
      -- calls `clear_all` of every store once, or for a partition `clear_partition` of the object
      -- and metadata stores and `clear_all` with the partition's prefix of the operation store,
      -- where there is one, also after another one has failed. It returns the counts if all of them
      -- return; otherwise it raises DataResetError with the counts, the partial ones of the
      -- exceptions included, and the names of exactly the stores that failed. Not permitted, it
      -- raises AccessDeniedError and does nothing.
      pub reset_data-ResetsAll :
          (w : World D B O) → ResetsAll w (reset_data env policy operation p context w)
      unfolding reset_data enforce_access
      reset_data-ResetsAll w = elim (Bool-cases (passes policy operation context none)) [
        | inl e ↦
            rw e (inl (passes-Permits policy operation context none e, reset_stores-CallsAll w))
        | inr e ↦ rw e (inr (passes_denied policy operation context none e, refl))
      ]
