-- ===== src/Sdk/Reconciliation/Audit.antt =====
-- The audit trail of reconciliation.
use dms_core.Prelude.{
  Text, Bool, true, false, Option, none, some, List, ◌≡◌, refl, ap, sym, ◌∙◌, subst, arith,
}
use dms_core.Domain.Models.{DocumentPartition, DocumentMetadata}
use dms_core.Domain.Errors.{Exc, error_code}
use dms_core.Domain.Exec.{Outcome, Exec, ok, raised, pure, raise, catch, ◌>>=◌, ◌>>◌}
use dms_core.Sdk.Types.{
  RecoveryAction, RecoveryAuditEvent, ReconciliationResult, DocumentInspection,
}
use dms_core.Sdk.World.{World, Backend}
use dms_core.Sdk.Keeping.{
  keeps_rest, KeepsRest, get_internal_metadata-KeepsRest, set_status-KeepsRest,
}
use dms_core.Sdk.Reconciliation.{
  load_for_inspection, inspect_loaded, inspect_document, purge_orphan, delete_marked,
  complete_deletion, mark_document_failed, act, apply, audit_event, emit_audit, hand_over,
  reconcile_document,
}

-- The event that an outcome calls for.
abbrev pub event_of :
    Text → RecoveryAction → Bool → Option Text → Outcome ReconciliationResult → RecoveryAuditEvent
event_of id a dry actor_id (ok r) = record {
  document_id = id;
  action = a;
  dry_run = dry;
  succeeded = true;
  applied = r.applied;
  actor = actor_id;
  error_type = none;
}
event_of id a dry actor_id (raised e) = record {
  document_id = id;
  action = a;
  dry_run = dry;
  succeeded = false;
  applied = false;
  actor = actor_id;
  error_type = some (error_code e);
}

-- The event of the program is the one that the outcome calls for.
audit_event-returned :
    (id : Text) (a : RecoveryAction) (dry : Bool) (actor : Option Text) (r : ReconciliationResult)
    → audit_event id a dry actor true r.applied none ≡ event_of id a dry actor (ok r)
unfolding audit_event
audit_event-returned id a dry actor r = refl

audit_event-raised :
    (id : Text) (a : RecoveryAction) (dry : Bool) (actor : Option Text) (e : Exc)
    → audit_event id a dry actor false false (some (error_code e))
      ≡ event_of id a dry actor (raised e)
unfolding audit_event
audit_event-raised id a dry actor e = refl

module _ {D B O : Type 0} (env : Backend D B O) where
  inspect_loaded-KeepsRest :
      (id : Text) (o : Option DocumentMetadata) → KeepsRest (inspect_loaded env id o)
  unfolding inspect_loaded
  inspect_loaded-KeepsRest id none = search keeps_rest
  inspect_loaded-KeepsRest id (some m) = search keeps_rest

  inspect_document-KeepsRest :
      (id : Text) (p : DocumentPartition) → KeepsRest (inspect_document env id p)
  unfolding inspect_document load_for_inspection
  inspect_document-KeepsRest id p = search (keeps_rest, inspect_loaded-KeepsRest)

  purge_orphan-KeepsRest :
      (id : Text) (key : Option Text) (dry : Bool) (p : DocumentPartition) (i : DocumentInspection)
      → KeepsRest (purge_orphan env id key dry p i)
  unfolding purge_orphan
  purge_orphan-KeepsRest id none dry p i = search keeps_rest
  purge_orphan-KeepsRest id (some k) dry p i = search keeps_rest depth 12

  delete_marked-KeepsRest :
      (id : Text) (hard : Bool) (p : DocumentPartition) → KeepsRest (delete_marked env id hard p)
  unfolding delete_marked
  delete_marked-KeepsRest id true p = search keeps_rest
  delete_marked-KeepsRest id false p = search keeps_rest

  complete_deletion-KeepsRest :
      (id : Text) (hard dry : Bool) (p : DocumentPartition) (i : DocumentInspection)
      → KeepsRest (complete_deletion env id hard dry p i)
  unfolding complete_deletion
  complete_deletion-KeepsRest id hard dry p i = search (keeps_rest, delete_marked-KeepsRest)

  mark_document_failed-KeepsRest :
      (id : Text) (dry : Bool) (p : DocumentPartition) (i : DocumentInspection)
      → KeepsRest (mark_document_failed env id dry p i)
  unfolding mark_document_failed
  mark_document_failed-KeepsRest id dry p i =
      search (keeps_rest, get_internal_metadata-KeepsRest, set_status-KeepsRest) depth 9

  act-KeepsRest :
      (a : RecoveryAction) (id : Text) (key : Option Text) (dry : Bool) (p : DocumentPartition)
      (i : DocumentInspection)
      → KeepsRest (act env a id key dry p i)
  unfolding act
  act-KeepsRest RecoveryAction.purge_orphan_object id key dry p i =
      purge_orphan-KeepsRest id key dry p i
  act-KeepsRest RecoveryAction.complete_deletion_soft id key dry p i =
      complete_deletion-KeepsRest id false dry p i
  act-KeepsRest RecoveryAction.complete_deletion_hard id key dry p i =
      complete_deletion-KeepsRest id true dry p i
  act-KeepsRest RecoveryAction.mark_failed id key dry p i =
      mark_document_failed-KeepsRest id dry p i

  apply-KeepsRest :
      (id : Text) (a : RecoveryAction) (key : Option Text) (dry : Bool) (p : DocumentPartition)
      → KeepsRest (apply env id a key dry p)
  unfolding apply
  apply-KeepsRest id a key dry p =
      search (keeps_rest, inspect_document-KeepsRest, act-KeepsRest) depth 9

  -- The trail after an event has been handed to the hook, where there is one.
  abbrev pub trail :
      Option (RecoveryAuditEvent → Exec (List RecoveryAuditEvent) (Unit {0}))
      → RecoveryAuditEvent
      → List RecoveryAuditEvent
      → List RecoveryAuditEvent
  trail none event l = l
  trail (some hook) event l = (hook event l).1

  -- Handing an event over always returns and changes nothing but the trail.
  abbrev Emits : RecoveryAuditEvent → World D B O → Outcome (Unit {0}) × World D B O → Type 0
  Emits event w x =
      (x.0 ≡ ok tt) × (x.1 ≡ record w { audit = trail env.recovery_audit_hook event w.audit })

  hand_over-Emits :
      (hook : Option (RecoveryAuditEvent → Exec (List RecoveryAuditEvent) (Unit {0})))
      (event : RecoveryAuditEvent) (w : World D B O)
      → ((hand_over env hook event w).0 ≡ ok tt)
        × ((hand_over env hook event w).1 ≡ record w { audit = trail hook event w.audit })
  unfolding hand_over
  hand_over-Emits none event w = (refl, refl)
  hand_over-Emits (some hook) event w = ground arith

  emit_audit-Emits :
      (event : RecoveryAuditEvent) (w : World D B O) → Emits event w (emit_audit env event w)
  unfolding emit_audit
  emit_audit-Emits event w = hand_over-Emits env.recovery_audit_hook event w

  -- A call after an event runs on the world with the longer trail.
  after_event :
      {A : Type 0} (event : RecoveryAuditEvent) (k : Exec (World D B O) A) (w : World D B O)
      → (emit_audit env event >> k) w
        ≡ k (record w { audit = trail env.recovery_audit_hook event w.audit })
  after_event event k w = go (emit_audit env event w) (emit_audit-Emits event w)
    where
      go :
          (x : Outcome (Unit {0}) × World D B O)
          → Emits event w x
          → ((λ (_ : World D B O). x) >> k) w
            ≡ k (record w { audit = trail env.recovery_audit_hook event w.audit })
      go (ok _, t) h = ap k h.1
      go (raised e, t) h = cc

  abbrev after_apply :
      Text
      → RecoveryAction
      → Bool
      → Option Text
      → ReconciliationResult
      → Exec (World D B O) ReconciliationResult
  after_apply id a dry actor result =
      emit_audit env (audit_event id a dry actor true result.applied none) >> pure result

  -- The body of `reconcile_document` around a call of `_apply`.
  abbrev around :
      Text
      → RecoveryAction
      → Bool
      → Option Text
      → Exec (World D B O) ReconciliationResult
      → Exec (World D B O) ReconciliationResult
  around id a dry actor m =
      catch m (λ exc.
        emit_audit env (audit_event id a dry actor false false (some (error_code exc)))
        >> raise exc)
      >>= after_apply id a dry actor

  -- `_apply` ended as `x` from a world with the trail `l`; `y` ends alike and reports that.
  abbrev pub Reports :
      Text
      → RecoveryAction
      → Bool
      → Option Text
      → List RecoveryAuditEvent
      → Outcome ReconciliationResult × World D B O
      → Outcome ReconciliationResult × World D B O
      → Type 0
  Reports id a dry actor l x y =
      (y.0 ≡ x.0)
      × (y.1.db ≡ x.1.db)
      × (y.1.bucket ≡ x.1.bucket)
      × (y.1.ops ≡ x.1.ops)
      × (y.1.audit ≡ trail env.recovery_audit_hook (event_of id a dry actor x.0) l)

  around-Reports :
      (id : Text) (a : RecoveryAction) (dry : Bool) (actor : Option Text) (w : World D B O)
      (x : Outcome ReconciliationResult × World D B O)
      → x.1.audit ≡ w.audit
      → Reports id a dry actor w.audit x (around id a dry actor (λ _. x) w)
  around-Reports id a dry actor w (ok r, t) h =
      let event = audit_event id a dry actor true r.applied none in
      rw (after_event event (pure r) t) (
        refl,
        refl,
        refl,
        refl,
        ap (trail env.recovery_audit_hook event) h
            ∙ ap (λ x. trail env.recovery_audit_hook x w.audit)
                (audit_event-returned id a dry actor r),
      )
  around-Reports id a dry actor w (raised e, t) h =
      let event = audit_event id a dry actor false false (some (error_code e)) in
      subst
        (λ y.
          Reports id a dry actor w.audit (raised e, t)
            (((λ (_ : World D B O). y) >>= after_apply id a dry actor) t))
        (sym (after_event event (raise {A = ReconciliationResult} e) t))
        (
          refl,
          refl,
          refl,
          refl,
          ap (trail env.recovery_audit_hook event) h
              ∙ ap (λ x. trail env.recovery_audit_hook x w.audit)
                  (audit_event-raised id a dry actor e),
        )

  -- A reconciliation ends as `_apply` does, with the stores as `_apply` left them; the audit trail
  -- is the one before the call with exactly one event handed to the hook, where there is one,
  -- even if the hook raises. The event names the document, the action, the dry run and the actor,
  -- and reports the success and whether changes were applied, or the error's code and that nothing
  -- was applied.
  pub reconcile_document-Reports :
      (id : Text) (a : RecoveryAction) (key : Option Text) (dry : Bool) (actor : Option Text)
      (p : DocumentPartition) (w : World D B O)
      → Reports id a dry actor w.audit
          (apply env id a key dry p w)
          (reconcile_document env id a key dry actor p w)
  unfolding reconcile_document
  reconcile_document-Reports id a key dry actor p w =
      around-Reports id a dry actor w (apply env id a key dry p w)
        (ap (λ r. r.1) ((apply-KeepsRest id a key dry p).at w))
