-- ===== src/Domain/OperationLaws.antt =====
-- What the upload service relies on of the store of upload operations: how each call, whether it
-- returns or raises, relates the operations before and after it.
use dms_core.Prelude.{Text, true, false, Option, none, some, ◌≡◌, ◌≢◌}
use dms_core.Domain.Models.{DateTime, UploadOperation, UploadOperationState, UploadOperationClaim}
use dms_core.Domain.Errors.{is_lookup_error}
use dms_core.Domain.Exec.{Outcome, ok, raised}
use dms_core.Domain.Interfaces.{UploadOperationStore}

-- The operations by scope and key.
abbrev pub Operations : Type 0
Operations = Text → Text → Option UploadOperation

-- A claim takes what is free or has failed; anything else it only reads.
abbrev pub ClaimedFrom : Text → Option UploadOperation → UploadOperationClaim → Type 0
ClaimedFrom document_id none c =
    (c.claimed ≡ true)
    × (c.operation.state ≡ UploadOperationState.pending)
    × (c.operation.document_id ≡ document_id)
ClaimedFrom document_id (some o) c =
    ((o.state ≡ UploadOperationState.failed)
      → (c.claimed ≡ true)
        × (c.operation.state ≡ UploadOperationState.pending)
        × (c.operation.document_id ≡ o.document_id))
    × ((o.state ≢ UploadOperationState.failed) → (c.claimed ≡ false) × (c.operation ≡ o))

-- An operation that is pending gets the state; any other is kept.
unfoldable pub mark_operation :
    UploadOperationState → DateTime → Option UploadOperation → Option UploadOperation
mark_operation state now none = none
mark_operation state now (some o) = elim o.state [
  | UploadOperationState.pending ↦ some (record o { state = state; updated_at = now })
  | UploadOperationState.succeeded ↦ some o
  | UploadOperationState.failed ↦ some o
]

module _ {O : Type 0} (operations : O → Operations) (t : Operations) where
  abbrev pub Claims : Text → Text → Text → Text → Outcome UploadOperationClaim × O → Type 0
  Claims scope key fingerprint document_id (ok c, o) =
      (c.operation.fingerprint ≡ fingerprint)
      × ClaimedFrom document_id (t scope key) c
      × (operations o scope key ≡ some c.operation)
  Claims scope key fingerprint document_id (raised e, o) = operations o ≡ t

  abbrev pub Marks : UploadOperationState → Text → Text → Outcome (Unit {0}) × O → Type 0
  Marks state scope key (ok _, o) =
      (now : DateTime) × (operations o scope key ≡ mark_operation state now (t scope key))
  Marks state scope key (raised e, o) = operations o ≡ t

  abbrev pub GetsOperation : Text → Text → Outcome UploadOperation × O → Type 0
  GetsOperation scope key (ok u, o) = (t scope key ≡ some u) × (operations o ≡ t)
  GetsOperation scope key (raised e, o) =
      (is_lookup_error e ≡ true → t scope key ≡ none) × (operations o ≡ t)

pub record OperationStoreLaws {O : Type 0} (store : UploadOperationStore O) : Type 0 where
  pub operations : O → Operations
  pub claims :
      (scope key fingerprint document_id : Text) (o : O)
      → Claims operations
          (operations o)
          scope
          key
          fingerprint
          document_id
          (store.claim scope key fingerprint document_id o)
  pub marks_succeeded :
      (scope key : Text) (o : O)
      → Marks operations
          (operations o)
          UploadOperationState.succeeded
          scope
          key
          (store.mark_succeeded scope key o)
  pub marks_failed :
      (scope key : Text) (o : O)
      → Marks operations
          (operations o)
          UploadOperationState.failed
          scope
          key
          (store.mark_failed scope key o)
  pub gets :
      (scope key : Text) (o : O)
      → GetsOperation operations (operations o) scope key (store.get scope key o)
