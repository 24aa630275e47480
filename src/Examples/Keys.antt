-- ===== src/Examples/Keys.antt =====
-- The theorems on idempotency keys at concrete worlds.
use dms_core.Prelude.{text_eq, codes, true, false, none, some, [], ◌≢◌, refl}
use dms_core.Domain.Models.{UploadOperation, UploadOperationState, DocumentStatus}
use dms_core.Domain.Exec.{ok}
use dms_core.Domain.Interfaces.{UploadOperationStore}
use dms_core.Domain.OperationLaws.{Operations, Claims}
use dms_core.Infrastructure.Operations.{operation_store, claim_within, claim}
use dms_core.Infrastructure.Operations.Claiming.{EndsFrom, claim-Claims, operation_store_laws}
use dms_core.Sdk.Types.{public_metadata}
use dms_core.Sdk.World.{World}
use dms_core.Sdk.Upload.Keyed.{upload_keyed}
use dms_core.Sdk.Upload.Replaying.{scope_of, UploadsOnce, upload_keyed-UploadsOnce}
use dms_core.Sdk.Upload.Retrying.{upload_keyed_stuck}
use dms_core.Examples.Memory.{Db, Objects, now, lookup}
use dms_core.Examples.Memory.Laws.{db_laws}
use dms_core.Examples.Rows.{operations, rows, rows_laws}
use dms_core.Examples.Assembly.{Ops, env, laws, ada, document, world}
use dms_core.Examples.Uploads.{request}

abbrev store : UploadOperationStore Operations
store = operation_store rows 1

claim-Claims_example :
    EndsFrom rows rows_laws
      (codes "s")
      (codes "k")
      (codes "f")
      (codes "d")
      (operations (λ scope key. none))
      (claim_within rows 1 (codes "s") (codes "k") (codes "f") (codes "d") (λ scope key. none))
    × Claims operations
        (operations (λ scope key. none))
        (codes "s")
        (codes "k")
        (codes "f")
        (codes "d")
        (claim rows 1 (codes "s") (codes "k") (codes "f") (codes "d") (λ scope key. none))
unfolding rows_laws
claim-Claims_example =
    claim-Claims rows rows_laws (codes "s") (codes "k") (codes "f") (codes "d") 0
      (λ scope key. none)

upload_keyed-UploadsOnce_example :
    UploadsOnce env laws store
      (operation_store_laws rows rows_laws 0)
      request
      (codes "sum")
      (codes "s")
      (codes "k")
      ada
      (world false false)
      (upload_keyed env store request (codes "sum") (codes "k") (codes "s") ada (world false false))
upload_keyed-UploadsOnce_example =
    upload_keyed-UploadsOnce env laws store (operation_store_laws rows rows_laws 0) request
      (codes "sum") (codes "s") (codes "k") ada (world false false)

-- The upload of "a" has failed after it was registered.
abbrev failed : UploadOperation
failed = record {
  scope = codes "s";
  idempotency_key = codes "k";
  fingerprint = codes "f";
  document_id = codes "a";
  state = UploadOperationState.failed;
  created_at = now;
  updated_at = now;
}

abbrev after_failure : World Db Objects Ops
after_failure = record (world false false) { ops = λ scope key. some failed }

upload_keyed_stuck_example :
    (upload_keyed env store request (codes "sum") (codes "k") (codes "s") ada after_failure).0
    ≢ ok (record {
      document_id = codes "a";
      metadata = public_metadata (document (codes "a") DocumentStatus.available);
      created = true;
    })
unfolding db_laws lookup operation_store_laws rows_laws text_eq
upload_keyed_stuck_example =
    upload_keyed_stuck env laws store (operation_store_laws rows rows_laws 0) request (codes "sum")
      (codes "s") (codes "k") ada after_failure
      (record failed {
        scope =
            scope_of env laws store (operation_store_laws rows rows_laws 0) request (codes "sum")
              (codes "s") (codes "k") ada;
      })
      (document (codes "a") DocumentStatus.available) b'a' [] refl refl refl refl
      (record {
        document_id = codes "a";
        metadata = public_metadata (document (codes "a") DocumentStatus.available);
        created = true;
      })
