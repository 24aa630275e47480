-- ===== src/Sdk/Facade/Guarding.antt =====
-- What the access policy guards.
use dms_core.Prelude.{Text, codes, Bool, not, Option, some, ◌≡◌, sym, ap, ◌∙◌, arith}
use dms_core.Domain.Models.{DocumentMetadata, DocumentPartition}
use dms_core.Domain.Errors.{
  Exc, access_denied_error, document_not_found_error, document_deleted_error, metadata_store_error,
  consistency_error,
}
use dms_core.Domain.Exec.{Outcome, Exec, ok, raised, pure, ◌>>◌}
use dms_core.Domain.Exec.Rules.{bind-ensures, guard-ensures}
use dms_core.Domain.Laws.{found}
use dms_core.Sdk.Types.{DocumentContent, ReconciliationResult, RecoveryAction}
use dms_core.Sdk.World.{World, Backend, BackendLaws, table_of, Same}
use dms_core.Sdk.Keeping.{rest, KeepsRest, keeps_rest, get_internal_metadata-KeepsRest}
use dms_core.Sdk.Documents.{get_internal_metadata, get_content}
use dms_core.Sdk.Documents.Steps.{GetsInternal, get_internal_metadata-GetsInternal}
use dms_core.Sdk.Documents.Contents.{IsContent, Refused, GetsContent, get_content-GetsContent}
use dms_core.Sdk.Access.{AccessContext, DocumentAccessPolicy, passes, enforce_access}
use dms_core.Sdk.Facade.{
  require_document_access, get_document_content, load_optional, require_recovery_access,
  reconcile_document,
}
use dms_core.Sdk.Reconciliation
use dms_core.Sdk.Access.Permits.{Permits, passes-Permits, passes_denied, denied_passes}

module _ {D B O : Type 0} (env : Backend D B O) (laws : BackendLaws env)
    (policy : Option DocumentAccessPolicy) (context : Option AccessContext) (p : DocumentPartition)
    (id : Text) (w : World D B O) where
  -- The policy permits the operation on the document that is there.
  abbrev pub Allowed : Text → Type 0
  Allowed operation =
      (m : DocumentMetadata) × (found (table_of laws w) id p ≡ some m)
      × Permits policy operation context (some m)

  -- A document is there, and the policy does not permit the operation on it.
  abbrev pub Denied : Text → Type 0
  Denied operation =
      (m : DocumentMetadata) × (found (table_of laws w) id p ≡ some m)
      × (¬ Permits policy operation context (some m))

  abbrev Requires : Text → Outcome DocumentMetadata × World D B O → Type 0
  Requires operation (ok m, t) = Allowed operation × Same laws w t
  Requires operation (raised access_denied_error, t) = Denied operation × Same laws w t
  Requires operation (raised e, t) = Refused env laws id p w e t

  not_loaded :
      (operation : Text) (e : Exc) (t : World D B O)
      → GetsInternal env laws id p w (raised e, t)
      → Requires operation (raised e, t)
  not_loaded operation document_not_found_error t h = h
  not_loaded operation metadata_store_error t h = h
  not_loaded operation _ t h = absurd h

  abbrev checked : Text → DocumentMetadata → Exec (World D B O) DocumentMetadata
  checked operation m = enforce_access env policy operation context (some m) >> pure m

  require-Requires :
      (operation : Text)
      → Requires operation (require_document_access env policy context p operation id w)
  unfolding require_document_access enforce_access
  require-Requires operation =
      bind-ensures (GetsInternal env laws id p w) (Requires operation)
        (get_internal_metadata env id p) (checked operation) w
        (get_internal_metadata-GetsInternal env laws id p w)
        (λ m t h.
          guard-ensures (Requires operation) (not (passes policy operation context (some m)))
            access_denied_error (pure m) t
            (λ e. ((m, h.0, passes_denied policy operation context (some m) (ground arith)), h.2))
            (λ e. ((m, h.0, passes-Permits policy operation context (some m) (ground arith)), h.2)))
        (not_loaded operation)

  -- A content, or the denial, or the refusal of a read.
  abbrev pub GuardsContent : Outcome DocumentContent × World D B O → Type 0
  GuardsContent (ok c, w') =
      Allowed (codes "content.get")
      × IsContent env laws id p w c.content c.checksum c.filename
      × Same laws w w'
  GuardsContent (raised access_denied_error, w') = Denied (codes "content.get") × Same laws w w'
  GuardsContent (raised e, w') = Refused env laws id p w e w'

  -- A read from a world with the same table and bucket.
  permitted-GuardsContent :
      (t : World D B O)
      → Allowed (codes "content.get")
      → Same laws w t
      → (x : Outcome DocumentContent × World D B O) → GetsContent env laws id p t x
      → GuardsContent x
  permitted-GuardsContent t a s (ok c, u) ((m, o, f, e, b, ec, es, ef), v) = (
    a,
    (
      m,
      o,
      ap (λ t. found t id p) (sym s.0) ∙ f,
      e,
      ap (λ b. b m.storage_key) (sym s.1) ∙ b,
      ec,
      es,
      ef,
    ),
    (v.0 ∙ s.0, v.1 ∙ s.1),
  )
  permitted-GuardsContent t a s (raised document_not_found_error, u) h =
      (ap (λ t. found t id p) (sym s.0) ∙ h.0, (h.1.0 ∙ s.0, h.1.1 ∙ s.1))
  permitted-GuardsContent t a s (raised document_deleted_error, u) h =
      ((h.0.0, ap (λ t. found t id p) (sym s.0) ∙ h.0.1, h.0.2), (h.1.0 ∙ s.0, h.1.1 ∙ s.1))
  permitted-GuardsContent t a s (raised metadata_store_error, u) h = (h.0 ∙ s.0, h.1 ∙ s.1)
  permitted-GuardsContent t a s (raised consistency_error, u) h = (h.0 ∙ s.0, h.1 ∙ s.1)
  permitted-GuardsContent t a s (raised _, u) h = absurd h

  not_allowed :
      (e : Exc) (t : World D B O)
      → Requires (codes "content.get") (raised e, t)
      → GuardsContent (raised e, t)
  not_allowed access_denied_error t h = h
  not_allowed e t h = h

  -- Reading content through the facade, over stores that keep their laws, changes nothing. Content
  -- is returned only where there is no policy or it answers yes for "content.get", the caller's
  -- context and the public view of the document that is there, and then it is the object under the
  -- key of that readable document; AccessDeniedError is raised only where the policy does not
  -- answer yes, or raises; any other exception is one of the read.
  pub get_document_content-GuardsContent :
      GuardsContent (get_document_content env policy context p id w)
  unfolding get_document_content
  get_document_content-GuardsContent =
      bind-ensures (Requires (codes "content.get")) GuardsContent
        (require_document_access env policy context p (codes "content.get") id)
        (λ m. get_content env id p) w (require-Requires (codes "content.get"))
        (λ m t h. permitted-GuardsContent t h.0 h.1 _ (get_content-GetsContent env laws id p t))
        not_allowed

  abbrev Loads : Outcome (Option DocumentMetadata) × World D B O → Type 0
  Loads (ok o, t) = (o ≡ found (table_of laws w) id p) × Same laws w t
  Loads (raised metadata_store_error, t) = Same laws w t
  Loads (raised _, t) = ⊥

  load_optional-Loads : Loads (load_optional env policy context p id w)
  unfolding load_optional
  load_optional-Loads = ground (arith, get_internal_metadata-GetsInternal env laws id p w)

  -- The call has raised, and neither a store nor the audit trail has changed.
  abbrev pub RefusesRecovery : Outcome ReconciliationResult × World D B O → Type 0
  RefusesRecovery (ok r, w') = ⊥
  RefusesRecovery (raised access_denied_error, w') = Same laws w w' × (rest w' ≡ rest w)
  RefusesRecovery (raised metadata_store_error, w') = Same laws w w' × (rest w' ≡ rest w)
  RefusesRecovery (raised _, w') = ⊥

module _ {D B O : Type 0} (env : Backend D B O) where
  load_optional-KeepsRest :
      (policy : Option DocumentAccessPolicy) (context : Option AccessContext)
      (p : DocumentPartition) (id : Text)
      → KeepsRest (load_optional env policy context p id)
  unfolding load_optional
  load_optional-KeepsRest policy context p id =
      search (keeps_rest, get_internal_metadata-KeepsRest) depth 9

  module _ (laws : BackendLaws env) (policy : DocumentAccessPolicy) (context : Option AccessContext)
      (p : DocumentPartition) (id : Text) (w : World D B O) where
    abbrev RefusesAccess : Outcome (Unit {0}) × World D B O → Type 0
    RefusesAccess (ok _, t) = ⊥
    RefusesAccess (raised access_denied_error, t) = Same laws w t × (rest t ≡ rest w)
    RefusesAccess (raised metadata_store_error, t) = Same laws w t × (rest t ≡ rest w)
    RefusesAccess (raised _, t) = ⊥

    abbrev LoadsQuietly : Outcome (Option DocumentMetadata) × World D B O → Type 0
    LoadsQuietly x = Loads env laws (some policy) context p id w x × (rest x.1 ≡ rest w)

    not_loaded_quietly :
        (e : Exc) (t : World D B O) → LoadsQuietly (raised e, t) → RefusesAccess (raised e, t)
    not_loaded_quietly metadata_store_error t h = h
    not_loaded_quietly _ t h = absurd h.0

    require-RefusesAccess :
        ¬ Permits (some policy) (codes "recovery.execute") context (found (table_of laws w) id p)
        → RefusesAccess (require_recovery_access env (some policy) context p (some policy) id w)
    unfolding require_recovery_access enforce_access
    require-RefusesAccess denied =
        bind-ensures LoadsQuietly RefusesAccess (load_optional env (some policy) context p id)
          (enforce_access env (some policy) (codes "recovery.execute") context) w
          (
            load_optional-Loads env laws (some policy) context p id w,
            (load_optional-KeepsRest (some policy) context p id).at w,
          )
          (λ o t h.
            rw
              (
                h.0.0,
                denied_passes (some policy) (codes "recovery.execute") context
                    (found (table_of laws w) id p) denied,
              )
              (h.0.1, h.1))
          not_loaded_quietly

    refused :
        (e : Exc) (t : World D B O)
        → RefusesAccess (raised e, t)
        → RefusesRecovery env laws (some policy) context p id w (raised e, t)
    refused access_denied_error t h = h
    refused metadata_store_error t h = h
    refused _ t h = absurd h

    -- A recovery action for which the policy does not answer yes, or raises, when it is asked about
    -- "recovery.execute", the caller's context and the public view of what the partition has under
    -- the identifier, a document or nothing, over stores that keep their laws: the call raises
    -- AccessDeniedError, or MetadataStoreError where the read fails, and changes neither the table,
    -- the bucket and the upload operations nor the audit trail.
    pub reconcile_document-RefusesRecovery :
        (action : RecoveryAction) (storage_key : Option Text) (dry_run : Bool) (actor : Option Text)
        → ¬ Permits (some policy) (codes "recovery.execute") context (found (table_of laws w) id p)
        → RefusesRecovery env laws
            (some policy)
            context
            p
            id
            w
            (reconcile_document env (some policy) context p id action storage_key dry_run actor w)
    unfolding reconcile_document
    reconcile_document-RefusesRecovery action storage_key dry_run actor denied =
        bind-ensures RefusesAccess (RefusesRecovery env laws (some policy) context p id w)
          (require_recovery_access env (some policy) context p (some policy) id)
          (λ _. Reconciliation.reconcile_document env id action storage_key dry_run actor p) w
          (require-RefusesAccess denied) (λ _ t h. absurd h) refused
