-- ===== src/Sdk/Reconciliation/Marking.antt =====
-- The recovery action that marks a document as failed.
use dms_core.Prelude.{
  text_eq_refl, Text, Bool, true, false, not, Option, none, some, ◌≡◌, inl, refl, ap, ◌∙◌, sym,
}
use dms_core.Domain.Models.{DocumentStatus, DocumentPartition, DocumentMetadata}
use dms_core.Domain.Errors.{Exc, validation_error, document_not_found_error, metadata_store_error}
use dms_core.Domain.Exec.{Outcome, Exec, ok, raised, pure, raise_if, unless, ◌>>=◌, ◌>>◌}
use dms_core.Domain.Exec.Rules.{bind-ensures, guard-ensures}
use dms_core.Domain.Laws.{found}
use dms_core.Sdk.Types.{RecoveryAction, DocumentInspection}
use dms_core.Sdk.World.{World, Backend, BackendLaws, table_of, bucket_of, Same}
use dms_core.Sdk.Documents.{with_status, get_internal_metadata, set_status}
use dms_core.Sdk.Documents.Steps.{
  GetsInternal, get_internal_metadata-GetsInternal, SetsStatus, set_status-SetsStatus,
}
use dms_core.Sdk.Documents.DeletionSteps.{put-OthersKept}
use dms_core.Sdk.Reconciliation.{may_exist, mark_document_failed}
use dms_core.Sdk.Reconciliation.Inspection.{report}
use dms_core.Sdk.Reconciliation.Actions.{mark_guard, Acts}

module _ {D B O : Type 0} (env : Backend D B O) (laws : BackendLaws env) (id : Text)
    (key : Option Text) (dry : Bool) (p : DocumentPartition) (w : World D B O) where
  abbrev Marks : Outcome (Unit {0}) × World D B O → Type 0
  Marks x =
      Acts env laws RecoveryAction.mark_failed id key dry p (table_of laws w) (bucket_of laws w) x

  abbrev finish : DocumentMetadata → Exec (World D B O) (Unit {0})
  finish _ = pure tt

  abbrev set_failed : DocumentMetadata → Exec (World D B O) (Unit {0})
  set_failed m = set_status env m DocumentStatus.failed >>= finish

  module _ (m : DocumentMetadata) (f : found (table_of laws w) id p ≡ some m)
      (absent : bucket_of laws w m.storage_key ≡ none) (live : dry ≡ false) where
    loaded_again :
        (m₁ : DocumentMetadata) (t : World D B O)
        → GetsInternal env laws id p w (ok m₁, t)
        → (m' : DocumentMetadata) (u : World D B O)
        → SetsStatus env laws m₁ DocumentStatus.failed t (ok m', u)
        → Marks (ok tt, u)
    unfolding with_status
    loaded_again m₁ t h m' u g = rw live (
      (m, f, absent),
      (
        (
          m₁,
          h.0,
          (
            m',
            ap (λ v. v id) g.1 ∙ rw h.1 (rw text_eq_refl),
            rw g.0 refl,
            rw g.0 refl,
            rw g.0 refl,
          ),
        ),
        (λ j n.
            ap (λ v. v j) g.1
            ∙ put-OthersKept m₁.document_id m' (table_of laws t) j (λ e. n (sym h.1 ∙ e))
            ∙ ap (λ v. v j) h.2.0),
        g.2 ∙ h.2.1,
      ),
    )

    not_set :
        (t : World D B O)
        → Same laws w t
        → (m₁ : DocumentMetadata) (e : Exc) (u : World D B O)
        → SetsStatus env laws m₁ DocumentStatus.failed t (raised e, u)
        → Marks (raised e, u)
    not_set t s m₁ metadata_store_error u g = (g.0 ∙ s.0, inl (g.1 ∙ s.1))
    not_set t s m₁ e u g = absurd g

    not_loaded :
        (e : Exc) (t : World D B O)
        → GetsInternal env laws id p w (raised e, t)
        → Marks (raised e, t)
    not_loaded document_not_found_error t h = (h.1.0, inl h.1.1)
    not_loaded metadata_store_error t h = (h.0, inl h.1)
    not_loaded e t h = absurd h

    mark-Marks : Marks ((get_internal_metadata env id p >>= set_failed) w)
    mark-Marks =
        bind-ensures (GetsInternal env laws id p w) Marks (get_internal_metadata env id p)
          set_failed w (get_internal_metadata-GetsInternal env laws id p w)
          (λ m₁ t h.
            bind-ensures (SetsStatus env laws m₁ DocumentStatus.failed t) Marks
              (set_status env m₁ DocumentStatus.failed) finish t
              (set_status-SetsStatus env laws m₁ DocumentStatus.failed t)
              (λ m' u g. loaded_again m₁ t h m' u g) (not_set t h.2 m₁))
          not_loaded

  ready-Marks :
      (m : DocumentMetadata)
      → found (table_of laws w) id p ≡ some m
      → bucket_of laws w m.storage_key ≡ none
      → (d : Bool) → d ≡ dry
      → Marks (unless d (get_internal_metadata env id p >>= set_failed) w)
  ready-Marks m f a true e = rw (← e) ((m, f, a), (refl, refl))
  ready-Marks m f a false e = mark-Marks m f a (sym e)

  abbrev mark_step : Exec (World D B O) (Unit {0})
  mark_step = unless dry (get_internal_metadata env id p >>= set_failed)

  abbrev known_step : DocumentInspection → Exec (World D B O) (Unit {0})
  known_step i = raise_if (may_exist i.object_exists) validation_error >> mark_step

  pub mark_document_failed-Marks :
      (i : DocumentInspection)
      → i ≡ report id (found (table_of laws w) id p) (bucket_of laws w)
      → Marks (mark_document_failed env id dry p i w)
  unfolding mark_document_failed
  mark_document_failed-Marks i e =
      guard-ensures Marks (not i.metadata_exists) document_not_found_error (known_step i) w
        (λ _. (refl, inl refl))
        (λ known.
          guard-ensures Marks (may_exist i.object_exists) validation_error mark_step w
            (λ _. (refl, inl refl))
            (λ ready.
              let (m, f, a) =
                mark_guard env laws id (bucket_of laws w) (found (table_of laws w) id p)
                  (rw e at known) (rw e at ready) in
              ready-Marks m f a dry refl))
