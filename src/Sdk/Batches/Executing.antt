-- ===== src/Sdk/Batches/Executing.antt =====
-- How the execution of a plan ends.
use dms_core.Prelude.{
  Text, true, false, not, Option, List, length, ◌≡◌, ◌≢◌, refl, arith, pos, not-false,
}
use dms_core.Domain.Models.{DocumentPartition, partition_eq, partition_eq_iff}
use dms_core.Domain.Errors.{validation_error}
use dms_core.Domain.Exec.{Outcome, ok, raised, Exec, pure, ◌>>=◌}
use dms_core.Domain.Exec.Rules.{bind-ensures, guard-ensures}
use dms_core.Sdk.Types.{ReconciliationResult}
use dms_core.Sdk.World.{World, Backend, BackendLaws}
use dms_core.Sdk.Batches.{
  BatchReconciliationResult, ReconciliationPlan, reconcile_each, execute_reconciliation_plan,
}
use dms_core.Sdk.Batches.Running.{Runs, RunsTo, reconcile_each-RunsTo}
use dms_core.Sdk.Batches.Items.{AnswersAll, Each, reconcile_each-Each}

module _ {D B O : Type 0} (env : Backend D B O) (laws : BackendLaws env) (plan : ReconciliationPlan)
    (p : DocumentPartition) (actor : Option Text) where
  abbrev pub Executes : World D B O → Outcome BatchReconciliationResult × World D B O → Type 0
  Executes w (ok b, w') =
      (plan.partition ≡ p)
      × AnswersAll false plan.items b.items
      × Runs env laws false actor p plan.items w b.items w'
      × (b.dry_run ≡ false)
  Executes w (raised validation_error, w') = (plan.partition ≢ p) × (w' ≡ w)
  Executes w (raised _, w') = ⊥

  abbrev executed : List ReconciliationResult → Exec (World D B O) BatchReconciliationResult
  executed results = pure (record {
    partition = p;
    status = plan.status;
    action = plan.action;
    dry_run = false;
    offset = pos 0;
    limit = pos (length plan.items);
    items = results;
  })

  -- A plan for another partition is refused and nothing is touched. Any other plan, over stores that
  -- keep their laws, is executed to its end, whichever items fail: each item is reconciled in
  -- order, from the world that the last one left, and the batch has one result for each: the one
  -- of the reconciliation, whose action was allowed and has changed exactly what it is for, or,
  -- where the reconciliation raised, one with its error's code that says that nothing was applied;
  -- the inspection after an error changes no store.
  pub execute_reconciliation_plan-Executes :
      (w : World D B O) → Executes w (execute_reconciliation_plan env plan p actor w)
  unfolding execute_reconciliation_plan
  execute_reconciliation_plan-Executes w =
      guard-ensures (Executes w) (not (partition_eq plan.partition p)) validation_error
        (reconcile_each env false actor p plan.items >>= executed) w (λ h. ((λ e. other h e), refl))
        (λ h.
          bind-ensures
            (λ x. Each env false plan.items x × RunsTo env laws false actor p plan.items w x)
            (Executes w) (reconcile_each env false actor p plan.items) executed w
            (
              reconcile_each-Each env false actor p plan.items w,
              reconcile_each-RunsTo env laws false actor p plan.items w,
            )
            (λ l t g. (
              (partition_eq_iff plan.partition p).0 (not-false (partition_eq plan.partition p) h),
              g.0,
              g.1,
              refl,
            ))
            (λ e t g. absurd g.0))
    where
      other : not (partition_eq plan.partition p) ≡ true → plan.partition ≡ p → ⊥
      other h e = absurd (ground (arith, (partition_eq_iff plan.partition p).1 e))
