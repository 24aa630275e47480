-- ===== src/Infrastructure/Operations.antt =====
-- `SqlAlchemyUploadOperationStore` of dms/infrastructure/metadata/operations.py over a table of
-- rows. A row is read as the record that `_domain` makes of it. SQLAlchemy's statements are a
-- parameter.
pub mod Laws
pub mod Claiming
use dms_core.Prelude.{
  ℕ, zero, suc, Text, text_eq, Bool, true, false, not, ◌==◌, Option, none, some, List, [], ◌∷◌,
  length, if◌then◌else◌,
}
use dms_core.Domain.Models.{DateTime, UploadOperation, UploadOperationState, UploadOperationClaim}
use dms_core.Domain.Errors.{
  Exc, idempotency_conflict_error, lookup_error, is_integrity_error, other_error,
}
use dms_core.Domain.Exec.{
  Outcome, ok, raised, Exec, pure, raise, gets, catch, raise_if, ◌>>=◌, ◌>>◌,
}
use dms_core.Domain.Interfaces.{UploadOperationStore}

-- The statements that the store executes on its table, and the clock.
pub record OperationRows (T : Type 0) : Type 0 where
  pub utcnow : T → DateTime
  -- `session.add` with `session.flush`
  pub insert : UploadOperation → Exec T (Unit {0})
  -- `select … where scope and key`
  pub select : Text → Text → Exec T (Option UploadOperation)
  -- `update … where scope and key and state = from`, which gives the row count
  pub update_state : Text → Text → UploadOperationState → UploadOperationState → DateTime → Exec T ℕ
  -- `select`, with `where scope like prefix%`
  pub select_scopes : Option Text → Exec T (List UploadOperation)
  pub delete : UploadOperation → Exec T (Unit {0})

-- `with self._sessions.begin()`: what was written before an exception is rolled back.
abbrev pub transaction : {T A : Type 0} → Exec T A → Exec T A
transaction m t = let (r, t') = m t in elim r [ ok a ↦ (ok a, t') | raised e ↦ (raised e, t) ]

-- `record.state == UploadOperationState.FAILED.value`
abbrev pub is_failed : UploadOperationState → Bool
is_failed UploadOperationState.failed = true
is_failed _ = false

unfoldable pub pending_operation : Text → Text → Text → Text → DateTime → UploadOperation
pending_operation scope key fingerprint document_id now = record {
  scope = scope;
  idempotency_key = key;
  fingerprint = fingerprint;
  document_id = document_id;
  state = UploadOperationState.pending;
  created_at = now;
  updated_at = now;
}

module _ {T : Type 0} (rows : OperationRows T) where
  -- the first transaction of `claim`; none when the row is there
  unfoldable pub claim_new : UploadOperation → Exec T (Option UploadOperationClaim)
  claim_new operation =
      catch
        (transaction
          (rows.insert operation >> pure (some (record { operation = operation; claimed = true }))))
        λ e. if is_integrity_error e then pure none else raise e

  -- the row that was selected; none is the `continue` of the loop
  unfoldable pub claim_selected :
      Text → DateTime → Option UploadOperation → Exec T (Option UploadOperationClaim)
  claim_selected fingerprint now none = pure none
  claim_selected fingerprint now (some o) = do
    raise_if (not (text_eq o.fingerprint fingerprint)) idempotency_conflict_error
    changed ←
        if is_failed o.state
        then rows.update_state o.scope o.idempotency_key UploadOperationState.failed
            UploadOperationState.pending now
        else pure 0
    pure (
        some (
          if changed == 0 then record { operation = o; claimed = false } else record {
            operation = record o { state = UploadOperationState.pending; updated_at = now };
            claimed = true;
          }))

  -- one turn of the `while True` loop
  unfoldable pub claim_turn : Text → Text → Text → DateTime → Exec T (Option UploadOperationClaim)
  claim_turn scope key fingerprint now =
      transaction (rows.select scope key >>= claim_selected fingerprint now)

  -- the loop, for as many turns as there is fuel; none is a loop that has not ended yet
  unfoldable pub claim_loop :
      ℕ → Text → Text → Text → DateTime → Exec T (Option UploadOperationClaim)
  claim_loop zero scope key fingerprint now = pure none
  claim_loop (suc n) scope key fingerprint now = claim_turn scope key fingerprint now >>= λ c.
      elim c [ none ↦ claim_loop n scope key fingerprint now | some claim ↦ pure (some claim) ]

  abbrev pub after_new :
      ℕ
      → Text
      → Text
      → Text
      → DateTime
      → Option UploadOperationClaim
      → Exec T (Option UploadOperationClaim)
  after_new fuel scope key fingerprint now none = claim_loop fuel scope key fingerprint now
  after_new fuel scope key fingerprint now (some c) = pure (some c)

  -- `claim`, with fuel for so many turns of its loop; none is a loop that has not ended yet
  unfoldable pub claim_within : ℕ → Text → Text → Text → Text → Exec T (Option UploadOperationClaim)
  claim_within fuel scope key fingerprint document_id = gets rows.utcnow >>= λ now.
      claim_new (pending_operation scope key fingerprint document_id now)
      >>= after_new fuel scope key fingerprint now

  -- what stands for a loop that goes on is never reached where there is fuel for one turn
  abbrev pub ended : Option UploadOperationClaim → Exec T UploadOperationClaim
  ended none = raise (other_error 0)
  ended (some c) = pure c

  unfoldable pub claim : ℕ → Text → Text → Text → Text → Exec T UploadOperationClaim
  claim fuel scope key fingerprint document_id =
      claim_within fuel scope key fingerprint document_id >>= ended

  unfoldable pub get : Text → Text → Exec T UploadOperation
  get scope key = rows.select scope key >>= λ o. elim o [
    | none ↦ raise lookup_error
    | some operation ↦ pure operation
  ]

  unfoldable pub mark : Text → Text → UploadOperationState → Exec T (Unit {0})
  mark scope key state = transaction (
      gets rows.utcnow >>= λ now.
      rows.update_state scope key UploadOperationState.pending state now >>= λ _. pure tt)

  unfoldable pub delete_all : List UploadOperation → Exec T (Unit {0})
  delete_all [] = pure tt
  delete_all (o ∷ l) = rows.delete o >> delete_all l

  unfoldable pub clear_all : Option Text → Exec T ℕ
  clear_all scope_prefix =
      transaction
        (rows.select_scopes scope_prefix >>= λ records. delete_all records >> pure (length records))

  unfoldable pub operation_store : ℕ → UploadOperationStore T
  operation_store fuel = record {
    claim = claim fuel;
    get = get;
    mark_succeeded = λ scope key. mark scope key UploadOperationState.succeeded;
    mark_failed = λ scope key. mark scope key UploadOperationState.failed;
    clear_all = clear_all;
  }
