-- ===== src/Sdk/Batches/Counters.antt =====
-- The counters of a batch, and the plan that a dry run exports.
use dms_core.Prelude.{
  ◌+◌, Text, Bool, true, false, not, ◌&&◌, Option, none, some, is_some, List, map, filter, ◌≡◌, ℤ,
}
use dms_core.Domain.Models.{DocumentStatus, DocumentPartition, DocumentMetadata}
use dms_core.Domain.Exec.{Outcome, ok, raised}
use dms_core.Sdk.Types.{RecoveryAction, ReconciliationResult}
use dms_core.Sdk.World.{World, Backend, BackendLaws, Same}
use dms_core.Sdk.Batches.{
  ReconciliationPlanItem, BatchReconciliationResult, scanned, failed, applied, skipped, planned,
  to_plan, candidate,
}
use dms_core.Sdk.Batches.Running.{Runs}
use dms_core.Sdk.Batches.Items.{AnswersAll}

abbrev has_failed : ReconciliationResult → Bool
has_failed r = is_some r.error_type

abbrev was_applied : ReconciliationResult → Bool
was_applied r = r.applied && not (is_some r.error_type)

abbrev successes : List ReconciliationResult → List ReconciliationPlanItem
successes l = map planned (filter (λ r. not (is_some r.error_type)) l)

-- What a batch of one action tells.
abbrev pub Tells :
    DocumentPartition
    → DocumentStatus
    → RecoveryAction
    → Bool
    → List DocumentMetadata
    → BatchReconciliationResult
    → Type 0
Tells p status a dry selected b =
    AnswersAll dry (map (candidate a) selected) b.items
    × (applied b + skipped b + failed b ≡ scanned b)
    × (dry ≡ true
        → (applied b ≡ 0)
          × (to_plan b
              ≡ some (record {
                partition = p;
                status = status;
                action = a;
                items = successes b.items;
              })))
    × (dry ≡ false → (skipped b ≡ 0) × (to_plan b ≡ none))

abbrev pub batch :
    DocumentPartition
    → DocumentStatus
    → RecoveryAction
    → Bool
    → ℤ
    → ℤ
    → List ReconciliationResult
    → BatchReconciliationResult
batch p status a dry offset limit l = record {
  partition = p;
  status = status;
  action = a;
  dry_run = dry;
  offset = offset;
  limit = limit;
  items = l;
}

module _ {D B O : Type 0} (env : Backend D B O) (laws : BackendLaws env) where
  abbrev pub Batches :
      DocumentPartition
      → DocumentStatus
      → RecoveryAction
      → Bool
      → Option Text
      → List DocumentMetadata
      → World D B O
      → Outcome BatchReconciliationResult × World D B O
      → Type 0
  Batches p status a dry actor selected w (ok b, w') =
      Tells p status a dry selected b
      × Runs env laws dry actor p (map (candidate a) selected) w b.items w'
      × (dry ≡ true → Same laws w w')
  Batches p status a dry actor selected w (raised e, w') = ⊥
