-- ===== src/Infrastructure/Operations/Laws.antt =====
-- What the operation store relies on of the statements on its table.
use dms_core.Prelude.{ℕ, Text, true, false, Option, none, some, ◌≡◌, ◌≢◌}
use dms_core.Domain.Models.{DateTime, UploadOperation, UploadOperationState}
use dms_core.Domain.Errors.{is_integrity_error, is_lookup_error}
use dms_core.Domain.Exec.{Outcome, ok, raised}
use dms_core.Domain.OperationLaws.{Operations}
use dms_core.Infrastructure.Operations.{OperationRows}

-- What an update of the rows in the state `from` gives for a row: the count and the row after it.
abbrev pub Updated :
    UploadOperationState
    → UploadOperationState
    → DateTime
    → Option UploadOperation
    → ℕ
    → Option UploadOperation
    → Type 0
Updated from to now none n row = (n ≡ 0) × (row ≡ none)
Updated from to now (some o) n row =
    (o.state ≡ from → (n ≡ 1) × (row ≡ some (record o { state = to; updated_at = now })))
    × (o.state ≢ from → (n ≡ 0) × (row ≡ some o))

module _ {T : Type 0} (operations : T → Operations) (t : Operations) where
  -- The primary key is unique: an insertion fails with IntegrityError where there is a row.
  abbrev pub Inserts : UploadOperation → Outcome (Unit {0}) × T → Type 0
  Inserts o (ok _, t') =
      (t o.scope o.idempotency_key ≡ none) × (operations t' o.scope o.idempotency_key ≡ some o)
  Inserts o (raised e, t') = is_integrity_error e ≡ true → t o.scope o.idempotency_key ≢ none

  abbrev pub Selects : Text → Text → Outcome (Option UploadOperation) × T → Type 0
  Selects scope key (ok o, t') = (o ≡ t scope key) × (operations t' ≡ t)
  Selects scope key (raised e, t') = (is_lookup_error e ≡ false) × (operations t' ≡ t)

  abbrev pub Updates :
      Text → Text → UploadOperationState → UploadOperationState → DateTime → Outcome ℕ × T → Type 0
  Updates scope key from to now (ok n, t') =
      Updated from to now (t scope key) n (operations t' scope key)
  Updates scope key from to now (raised e, t') = Unit

pub record OperationRowsLaws {T : Type 0} (rows : OperationRows T) : Type 0 where
  pub operations : T → Operations
  -- a row stands under its own scope and key
  pub placed :
      (t : T) (scope key : Text) (o : UploadOperation)
      → operations t scope key ≡ some o
      → (o.scope ≡ scope) × (o.idempotency_key ≡ key)
  pub inserts :
      (o : UploadOperation) (t : T) → Inserts operations (operations t) o (rows.insert o t)
  pub selects :
      (scope key : Text) (t : T)
      → Selects operations (operations t) scope key (rows.select scope key t)
  pub updates :
      (scope key : Text) (from to : UploadOperationState) (now : DateTime) (t : T)
      → Updates operations
          (operations t)
          scope
          key
          from
          to
          now
          (rows.update_state scope key from to now t)
