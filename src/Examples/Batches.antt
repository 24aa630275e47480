-- ===== src/Examples/Batches.antt =====
-- The theorems on batches of reconciliations at concrete worlds.
use dms_core.Prelude.{codes, false, none, [], ◌∷◌}
use dms_core.Domain.Models.{DocumentStatus}
use dms_core.Sdk.Types.{RecoveryAction}
use dms_core.Sdk.Batches.{ReconciliationPlan, execute_reconciliation_plan}
use dms_core.Sdk.Batches.Counters.{Batches}
use dms_core.Sdk.Batches.Executing.{Executes, execute_reconciliation_plan-Executes}
use dms_core.Examples.Assembly.{env, laws, ada, world}

abbrev plan : ReconciliationPlan
plan = record {
  partition = ada;
  status = DocumentStatus.deleting;
  action = RecoveryAction.complete_deletion_soft;
  items =
      record {
        document_id = codes "c";
        action = RecoveryAction.complete_deletion_soft;
        storage_key = none;
      }
      ∷ [];
}

execute_reconciliation_plan-Executes_example :
    Executes env laws plan ada none
      (world false false)
      (execute_reconciliation_plan env plan ada none (world false false))
execute_reconciliation_plan-Executes_example =
    execute_reconciliation_plan-Executes env laws plan ada none (world false false)
