-- ===== src/Sdk/Reconciliation/Purging.antt =====
-- The recovery action that purges an orphan object.
use dms_core.Prelude.{
  not-false, is_blank, Text, Bool, true, false, not, Option, none, some, is_some, starts_with,
  remove, ◌≡◌, inl, inr, refl, ap, ◌∙◌, sym,
}
use dms_core.Domain.Models.{DocumentPartition}
use dms_core.Domain.Errors.{validation_error, storage_error}
use dms_core.Domain.Exec.{Outcome, Exec, ok, raised, catch, raise, raise_if, unless, ◌>>=◌, ◌>>◌}
use dms_core.Domain.Exec.Rules.{bind-ensures, catch-ensures, guard-ensures}
use dms_core.Domain.Laws.{found, TestsObject, DeletesObject}
use dms_core.Sdk.Types.{RecoveryAction, DocumentInspection}
use dms_core.Sdk.World.{World, Backend, BackendLaws, table_of, bucket_of, Same, on_bucket}
use dms_core.Sdk.Upload.Keys.{document_prefix}
use dms_core.Sdk.Reconciliation.{purge_orphan}
use dms_core.Sdk.Reconciliation.Inspection.{report}
use dms_core.Sdk.Reconciliation.Actions.{purge_guard, Acts}

module _ {D B O : Type 0} (env : Backend D B O) (laws : BackendLaws env) (id : Text) (dry : Bool)
    (p : DocumentPartition) (w : World D B O) where
  abbrev Purges : Option Text → Outcome (Unit {0}) × World D B O → Type 0
  Purges key x =
      Acts env laws RecoveryAction.purge_orphan_object id key dry p (table_of laws w)
        (bucket_of laws w) x

  module _ (k : Text) where
    abbrev delete_step : Exec (World D B O) (Unit {0})
    delete_step = catch (on_bucket (env.object_store.delete_object id k)) λ e. raise storage_error

    abbrev exists_step : Exec (World D B O) Bool
    exists_step = catch (on_bucket (env.object_store.object_exists id k)) λ e. raise storage_error

    abbrev after_exists : Bool → Exec (World D B O) (Unit {0})
    after_exists exists = raise_if (not exists) validation_error >> unless dry delete_step

    abbrev owned_step : Exec (World D B O) (Unit {0})
    owned_step = exists_step >>= after_exists

    abbrev is_owned : Bool
    is_owned = starts_with k (document_prefix env.sha256 p id)

    abbrev given_step : Exec (World D B O) (Unit {0})
    given_step = raise_if (not is_owned) validation_error >> owned_step

    abbrev orphan_step : Exec (World D B O) (Unit {0})
    orphan_step = raise_if (is_blank k) validation_error >> given_step

    module _ (f : found (table_of laws w) id p ≡ none) (owned : is_owned ≡ true) where
      ready-Purges :
          (t : World D B O)
          → Same laws w t
          → is_some (bucket_of laws w k) ≡ true
          → (d : Bool) → d ≡ dry
          → Purges (some k) (unless d delete_step t)
      ready-Purges t s there true e = rw (← e) ((k, refl, f, owned, there), s)
      ready-Purges t s there false e =
          catch-ensures
            (λ x.
              (table_of laws x.1 ≡ table_of laws t)
              × DeletesObject laws.objects.bucket (bucket_of laws t) k (x.0, x.1.bucket))
            (Purges (some k)) (on_bucket (env.object_store.delete_object id k))
            (λ _. raise storage_error) t (refl, laws.objects.deletes id k t.bucket)
            (λ _ u h.
              rw (← e) (
                (k, refl, f, owned, there),
                (h.0 ∙ s.0, (k, refl, h.1 ∙ ap (λ b. remove b k) s.1)),
              ))
            (λ _ u h. (h.0 ∙ s.0, inr (sym e, refl, (k, refl, λ j n. h.1 j n ∙ ap (λ b. b j) s.1))))

      after_exists-Purges :
          (exists : Bool) (t : World D B O)
          → Same laws w t
          → exists ≡ is_some (bucket_of laws w k)
          → Purges (some k) (after_exists exists t)
      after_exists-Purges true t s e = ready-Purges t s (sym e) dry refl
      after_exists-Purges false t s e = (s.0, inl s.1)

      abbrev Probes : Outcome Bool × World D B O → Type 0
      Probes (ok exists, t) = (exists ≡ is_some (bucket_of laws w k)) × Same laws w t
      Probes (raised _, t) = Same laws w t

      exists_step-Probes : Probes (exists_step w)
      exists_step-Probes =
          catch-ensures
            (λ x.
              (table_of laws x.1 ≡ table_of laws w)
              × TestsObject laws.objects.bucket (bucket_of laws w) k (x.0, x.1.bucket))
            Probes (on_bucket (env.object_store.object_exists id k)) (λ _. raise storage_error) w
            (refl, laws.objects.tests id k w.bucket) (λ _ t h. (h.1.0, (h.0, h.1.1))) (λ _ t h. h)

      owned-Purges : Purges (some k) (owned_step w)
      owned-Purges =
          bind-ensures Probes (Purges (some k)) exists_step after_exists w exists_step-Probes
            (λ exists t h. after_exists-Purges exists t h.1 h.0) (λ _ t h. (h.0, inl h.1))

    given-Purges : found (table_of laws w) id p ≡ none → Purges (some k) (orphan_step w)
    given-Purges f =
        guard-ensures (Purges (some k)) (is_blank k) validation_error given_step w
          (λ _. (refl, inl refl))
          (λ _.
            guard-ensures (Purges (some k)) (not is_owned) validation_error owned_step w
              (λ _. (refl, inl refl)) (λ owned. owned-Purges f (not-false is_owned owned)))

  pub purge_orphan-Purges :
      (key : Option Text) (i : DocumentInspection)
      → i ≡ report id (found (table_of laws w) id p) (bucket_of laws w)
      → Purges key (purge_orphan env id key dry p i w)
  unfolding purge_orphan
  purge_orphan-Purges none i e =
      guard-ensures (Purges none) i.metadata_exists validation_error (raise validation_error) w
        (λ _. (refl, inl refl)) (λ _. (refl, inl refl))
  purge_orphan-Purges (some k) i e =
      guard-ensures (Purges (some k)) i.metadata_exists validation_error (orphan_step k) w
        (λ _. (refl, inl refl))
        (λ absent. given-Purges k (
          purge_guard env laws id (bucket_of laws w) (found (table_of laws w) id p)
            (rw e at absent)))
