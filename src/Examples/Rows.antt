-- ===== src/Examples/Rows.antt =====
-- A table of upload operations as a function, with SQL's answers.
use dms_core.Prelude.{
  ℕ, Text, text_eq, text_eq_refl, Bool, true, false, ◌&&◌, Option, none, some, [], is_some, ◌≡◌,
  refl, arith, if◌then◌else◌,
}
use dms_core.Domain.Models.{DateTime, UploadOperation, UploadOperationState}
use dms_core.Domain.Errors.{integrity_error}
use dms_core.Domain.Exec.{ok, raised, Exec, pure}
use dms_core.Domain.OperationLaws.{Operations}
use dms_core.Infrastructure.Operations.{OperationRows}
use dms_core.Infrastructure.Operations.Laws.{Inserts, Updates, OperationRowsLaws}
use dms_core.Examples.Memory.{now}

abbrev state_eq : UploadOperationState → UploadOperationState → Bool
state_eq UploadOperationState.pending UploadOperationState.pending = true
state_eq UploadOperationState.succeeded UploadOperationState.succeeded = true
state_eq UploadOperationState.failed UploadOperationState.failed = true
state_eq _ _ = false

state_eq-true : (s t : UploadOperationState) → state_eq s t ≡ true → s ≡ t
state_eq-true UploadOperationState.pending UploadOperationState.pending h = refl
state_eq-true UploadOperationState.succeeded UploadOperationState.succeeded h = refl
state_eq-true UploadOperationState.failed UploadOperationState.failed h = refl
state_eq-true UploadOperationState.pending UploadOperationState.succeeded h = cc
state_eq-true UploadOperationState.pending UploadOperationState.failed h = cc
state_eq-true UploadOperationState.succeeded UploadOperationState.pending h = cc
state_eq-true UploadOperationState.succeeded UploadOperationState.failed h = cc
state_eq-true UploadOperationState.failed UploadOperationState.pending h = cc
state_eq-true UploadOperationState.failed UploadOperationState.succeeded h = cc

state_eq_refl : (s : UploadOperationState) → state_eq s s ≡ true
state_eq_refl UploadOperationState.pending = refl
state_eq_refl UploadOperationState.succeeded = refl
state_eq_refl UploadOperationState.failed = refl

abbrev put_row : Text → Text → Option UploadOperation → Operations → Operations
put_row scope key row t s k = if text_eq scope s && text_eq key k then row else t s k

-- A row shows the scope and the key that it stands under.
abbrev placed_row : Text → Text → Option UploadOperation → Option UploadOperation
placed_row scope key none = none
placed_row scope key (some o) = some (record o { scope = scope; idempotency_key = key })

abbrev pub operations : Operations → Operations
operations t scope key = placed_row scope key (t scope key)

abbrev update_row :
    Text
    → Text
    → UploadOperationState
    → UploadOperationState
    → DateTime
    → Option UploadOperation
    → Exec Operations ℕ
update_row scope key from to at none t = (ok 0, t)
update_row scope key from to at (some o) t =
    if state_eq o.state from
    then (ok 1, put_row scope key (some (record o { state = to; updated_at = at })) t)
    else (ok 0, t)

abbrev pub rows : OperationRows Operations
rows = record {
  utcnow = λ t. now;
  insert = λ o t.
      if is_some (t o.scope o.idempotency_key)
      then (raised integrity_error, t)
      else (ok tt, put_row o.scope o.idempotency_key (some o) t);
  select = λ scope key t. (ok (operations t scope key), t);
  update_state = λ scope key from to at t. update_row scope key from to at (t scope key) t;
  select_scopes = λ prefix. pure [];
  delete = λ o t. (ok tt, put_row o.scope o.idempotency_key none t);
}

pub placed :
    (t : Operations) (scope key : Text) (o : UploadOperation)
    → operations t scope key ≡ some o
    → (o.scope ≡ scope) × (o.idempotency_key ≡ key)
placed t scope key o e = ground arith

pub inserts :
    (o : UploadOperation) (t : Operations) → Inserts operations (operations t) o (rows.insert o t)
inserts o t = ground (arith, text_eq_refl o.scope, text_eq_refl o.idempotency_key)

pub updated :
    (scope key : Text) (from to : UploadOperationState) (at : DateTime) (t : Operations)
    (row : Option UploadOperation)
    → row ≡ t scope key
    → Updates operations (operations t) scope key from to at (update_row scope key from to at row t)
updated scope key from to at t none e = ground arith
updated scope key from to at t (some o) e =
    ground (
      arith,
      text_eq_refl scope,
      text_eq_refl key,
      state_eq-true o.state from,
      state_eq_refl o.state,
    )

unfoldable pub rows_laws : OperationRowsLaws rows
rows_laws = record {
  operations = operations;
  placed = placed;
  inserts = inserts;
  selects = λ scope key t. (refl, refl);
  updates = λ scope key from to at t. updated scope key from to at t (t scope key) refl;
}
