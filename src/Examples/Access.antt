-- ===== src/Examples/Access.antt =====
-- The theorems on denied calls at a concrete world.
use dms_core.Prelude.{codes, true, false, none, some}
use dms_core.Sdk.Access.{DocumentAccessPolicy, delete_document}
use dms_core.Sdk.Access.Denial.{Refuses, delete_document-Refuses}
use dms_core.Sdk.Types.{RecoveryAction}
use dms_core.Sdk.Facade.{get_document_content, reconcile_document}
use dms_core.Sdk.Facade.Guarding.{
  GuardsContent, get_document_content-GuardsContent, RefusesRecovery,
  reconcile_document-RefusesRecovery,
}
use dms_core.Examples.Assembly.{env, laws, ada, world}

abbrev nobody : DocumentAccessPolicy
nobody = record { allows = λ operation context metadata. some false }

delete_document-Refuses_example :
    Refuses env laws
      (some nobody)
      (codes "a")
      ada
      true
      none
      (world false false)
      (delete_document env (some nobody) (codes "a") ada true none (world false false))
delete_document-Refuses_example =
    delete_document-Refuses env laws (some nobody) (codes "a") ada true none (world false false)
      (λ m h z. cc)

get_document_content-GuardsContent_example :
    GuardsContent env laws
      (some nobody)
      none
      ada
      (codes "a")
      (world false false)
      (get_document_content env (some nobody) none ada (codes "a") (world false false))
get_document_content-GuardsContent_example =
    get_document_content-GuardsContent env laws (some nobody) none ada (codes "a")
      (world false false)

-- Nothing is registered under "z".
reconcile_document-RefusesRecovery_example :
    RefusesRecovery env laws (some nobody) none ada (codes "z") (world false false) (
      reconcile_document env
        (some nobody)
        none
        ada
        (codes "z")
        RecoveryAction.purge_orphan_object
        (some (codes "k"))
        false
        none
        (world false false))
reconcile_document-RefusesRecovery_example =
    reconcile_document-RefusesRecovery env laws nobody none ada (codes "z") (world false false)
      RecoveryAction.purge_orphan_object (some (codes "k")) false none (λ z. cc)
