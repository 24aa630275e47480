-- ===== src/Sdk/Reconciliation/Inspection.antt =====
-- What an inspection reports of the table and the bucket.
use dms_core.Prelude.{
  Text, Bool, true, false, Option, none, some, is_some, ◌≡◌, refl, ap, ◌∙◌, arith,
}
use dms_core.Domain.Models.{DocumentPartition, DocumentMetadata, DocumentStatus}
use dms_core.Domain.Errors.{Exc, metadata_store_error, storage_error}
use dms_core.Domain.Exec.{Outcome, ok, raised}
use dms_core.Domain.Exec.Rules.{bind-ensures}
use dms_core.Domain.Laws.{Bucket, found}
use dms_core.Sdk.Types.{DocumentInspection, RecoveryIssue}
use dms_core.Sdk.World.{World, Backend, BackendLaws, table_of, bucket_of, Same}
use dms_core.Sdk.Reconciliation.{
  consistent_issue, missing_inspection, found_inspection, load_for_inspection, inspect_loaded,
  inspect_document,
}

-- The only documents whose record and object agree: the object is gone and the status is DELETED,
-- or the object is there and the status is UPLOADED, AVAILABLE or DELETED.
abbrev agrees : DocumentStatus → Bool → Bool
agrees DocumentStatus.deleting present = false
agrees DocumentStatus.failed present = false
agrees DocumentStatus.deleted present = true
agrees DocumentStatus.uploaded present = present
agrees DocumentStatus.available present = present

-- The issue of a status, for a document without and with an object.
abbrev issue_of : DocumentStatus → Bool → RecoveryIssue
issue_of DocumentStatus.uploaded false = RecoveryIssue.object_missing
issue_of DocumentStatus.uploaded true = RecoveryIssue.clean
issue_of DocumentStatus.available false = RecoveryIssue.object_missing
issue_of DocumentStatus.available true = RecoveryIssue.clean
issue_of DocumentStatus.deleting false = RecoveryIssue.object_missing
issue_of DocumentStatus.deleting true = RecoveryIssue.deletion_incomplete
issue_of DocumentStatus.failed false = RecoveryIssue.object_missing
issue_of DocumentStatus.failed true = RecoveryIssue.failed_status
issue_of DocumentStatus.deleted false = RecoveryIssue.clean
issue_of DocumentStatus.deleted true = RecoveryIssue.clean

-- The report that a record, if there is one, and a bucket call for.
unfoldable pub report : Text → Option DocumentMetadata → Bucket → DocumentInspection
report id none bucket = record {
  document_id = id;
  metadata_exists = false;
  object_exists = none;
  status = none;
  consistent = false;
  issue = RecoveryIssue.metadata_missing;
  storage_key = none;
}
report id (some m) bucket = record {
  document_id = id;
  metadata_exists = true;
  object_exists = some (is_some (bucket m.storage_key));
  status = some m.status;
  consistent = agrees m.status (is_some (bucket m.storage_key));
  issue = issue_of m.status (is_some (bucket m.storage_key));
  storage_key = some m.storage_key;
}

missing_inspection-report :
    (id : Text) (bucket : Bucket) → missing_inspection id ≡ report id none bucket
unfolding missing_inspection report
missing_inspection-report id bucket = refl

consistent_issue-agrees :
    (s : DocumentStatus) (present : Bool)
    → consistent_issue s present ≡ (agrees s present, issue_of s present)
unfolding consistent_issue
consistent_issue-agrees DocumentStatus.uploaded false = refl
consistent_issue-agrees DocumentStatus.uploaded true = refl
consistent_issue-agrees DocumentStatus.available false = refl
consistent_issue-agrees DocumentStatus.available true = refl
consistent_issue-agrees DocumentStatus.deleting false = refl
consistent_issue-agrees DocumentStatus.deleting true = refl
consistent_issue-agrees DocumentStatus.failed false = refl
consistent_issue-agrees DocumentStatus.failed true = refl
consistent_issue-agrees DocumentStatus.deleted false = refl
consistent_issue-agrees DocumentStatus.deleted true = refl

found_inspection-report :
    (id : Text) (m : DocumentMetadata) (bucket : Bucket)
    → found_inspection id m (is_some (bucket m.storage_key)) ≡ report id (some m) bucket
unfolding found_inspection report
found_inspection-report id m bucket =
    rw (consistent_issue-agrees m.status (is_some (bucket m.storage_key))) refl

module _ {D B O : Type 0} (env : Backend D B O) (laws : BackendLaws env) (id : Text)
    (p : DocumentPartition) where
  abbrev Loads : World D B O → Outcome (Option DocumentMetadata) × World D B O → Type 0
  Loads w (ok o, t) = (o ≡ found (table_of laws w) id p) × Same laws w t
  Loads w (raised metadata_store_error, t) = Same laws w t
  Loads w (raised _, t) = ⊥

  load-Loads : (w : World D B O) → Loads w (load_for_inspection env id p w)
  unfolding load_for_inspection
  load-Loads w = ground (arith, laws.db.gets id p w.db)

  -- The report is the right one and nothing has changed, or a store could not be read.
  abbrev pub Inspects : World D B O → Outcome DocumentInspection × World D B O → Type 0
  Inspects w (ok i, t) =
      (i ≡ report id (found (table_of laws w) id p) (bucket_of laws w)) × Same laws w t
  Inspects w (raised metadata_store_error, t) = Same laws w t
  Inspects w (raised storage_error, t) = Same laws w t
  Inspects w (raised _, t) = ⊥

  inspect_loaded-Inspects :
      (w t : World D B O) (o : Option DocumentMetadata)
      → Loads w (ok o, t)
      → Inspects w (inspect_loaded env id o t)
  unfolding inspect_loaded
  inspect_loaded-Inspects w t none h = (
    missing_inspection-report id (bucket_of laws w) ∙ ap (λ o. report id o (bucket_of laws w)) h.0,
    h.1,
  )
  inspect_loaded-Inspects w t (some m) h = ground (
    arith,
    laws.objects.tests id m.storage_key t.bucket,
    found_inspection-report id m (bucket_of laws t),
  )

  load_failed :
      (w : World D B O) (e : Exc) (t : World D B O)
      → Loads w (raised e, t)
      → Inspects w (raised e, t)
  load_failed w metadata_store_error t h = h
  load_failed w e t h = absurd h

  -- An inspection, over stores that keep their laws, changes neither the table nor the bucket. If it
  -- returns, the report is the one that the record found in the partition and the object under its
  -- storage key call for: METADATA_MISSING without a record; else the record's status and key,
  -- whether the object is there, and consistent and without issue exactly for a DELETED document
  -- and for an UPLOADED or AVAILABLE one with its object, with OBJECT_MISSING for every other
  -- without its object, DELETION_INCOMPLETE for a DELETING and FAILED_STATUS for a FAILED one with
  -- it. If it raises, the error is MetadataStoreError or StorageError.
  pub inspect_document-Inspects : (w : World D B O) → Inspects w (inspect_document env id p w)
  unfolding inspect_document
  inspect_document-Inspects w =
      bind-ensures (Loads w) (Inspects w) (load_for_inspection env id p) (inspect_loaded env id) w
        (load-Loads w) (λ o t h. inspect_loaded-Inspects w t o h) (load_failed w)
