-- ===== src/Examples/Recovery.antt =====
-- The theorems on reconciliation and data resets at concrete worlds.
use dms_core.Prelude.{true, codes, false, none, some, []}
use dms_core.Sdk.Types.{RecoveryAction}
use dms_core.Sdk.Reconciliation.{inspect_document, apply, reconcile_document}
use dms_core.Sdk.Reconciliation.Inspection.{Inspects, inspect_document-Inspects}
use dms_core.Sdk.Reconciliation.Audit.{Reports, reconcile_document-Reports}
use dms_core.Sdk.Reset.{reset_data}
use dms_core.Sdk.Reset.Clearing.{ResetsAll, reset_data-ResetsAll}
use dms_core.Examples.Assembly.{env, laws, ada, world}

-- "c" is being deleted and its object is gone.
inspect_document-Inspects_example :
    Inspects env laws
      (codes "c")
      ada
      (world false false)
      (inspect_document env (codes "c") ada (world false false))
inspect_document-Inspects_example =
    inspect_document-Inspects env laws (codes "c") ada (world false false)

reconcile_document-Reports_example :
    Reports env
      (codes "c")
      RecoveryAction.complete_deletion_soft
      false
      (some (codes "ops"))
      []
      (apply env
        (codes "c")
        RecoveryAction.complete_deletion_soft
        none
        false
        ada
        (world false false))
      (reconcile_document env
        (codes "c")
        RecoveryAction.complete_deletion_soft
        none
        false
        (some (codes "ops"))
        ada
        (world false false))
reconcile_document-Reports_example =
    reconcile_document-Reports env (codes "c") RecoveryAction.complete_deletion_soft none false
      (some (codes "ops")) ada (world false false)

-- Storage is down.
reset_data-ResetsAll_example :
    ResetsAll env
      (some ada)
      none
      (codes "data.clear_partition")
      none
      (world false true)
      (reset_data env none (codes "data.clear_partition") (some ada) none (world false true))
reset_data-ResetsAll_example =
    reset_data-ResetsAll env (some ada) none (codes "data.clear_partition") none (world false true)
