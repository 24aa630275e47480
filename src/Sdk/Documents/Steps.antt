-- ===== src/Sdk/Documents/Steps.antt =====
-- How the shared steps of `DocumentService` end: loading a document's metadata and setting its
-- status.
use dms_core.Prelude.{Text, some, none, put, ◌≡◌, ◌⊎◌, arith}
use dms_core.Domain.Models.{DocumentStatus, DocumentPartition, DocumentMetadata}
use dms_core.Domain.Errors.{document_not_found_error, metadata_store_error}
use dms_core.Domain.Exec.{Outcome, ok, raised}
use dms_core.Domain.Laws.{found}
use dms_core.Sdk.World.{World, Backend, BackendLaws, table_of, bucket_of, Same}
use dms_core.Sdk.Documents.{with_status, get_internal_metadata, set_status, set_status_best_effort}

module _ {D B O : Type 0} (env : Backend D B O) (laws : BackendLaws env) where
  abbrev pub GetsInternal :
      Text → DocumentPartition → World D B O → Outcome DocumentMetadata × World D B O → Type 0
  GetsInternal id p w (ok m, w') =
      (found (table_of laws w) id p ≡ some m) × (m.document_id ≡ id) × Same laws w w'
  GetsInternal id p w (raised document_not_found_error, w') =
      (found (table_of laws w) id p ≡ none) × Same laws w w'
  GetsInternal id p w (raised metadata_store_error, w') = Same laws w w'
  GetsInternal id p w (raised _, w') = ⊥

  pub get_internal_metadata-GetsInternal :
      (id : Text) (p : DocumentPartition) (w : World D B O)
      → GetsInternal id p w (get_internal_metadata env id p w)
  unfolding get_internal_metadata
  get_internal_metadata-GetsInternal id p w = ground (arith, laws.db.gets id p w.db)

  abbrev pub SetsStatus :
      DocumentMetadata
      → DocumentStatus
      → World D B O
      → Outcome DocumentMetadata × World D B O
      → Type 0
  SetsStatus m status w (ok m', w') =
      (m' ≡ with_status m status (env.utcnow w))
      × (table_of laws w' ≡ put (table_of laws w) m.document_id m')
      × (bucket_of laws w' ≡ bucket_of laws w)
  SetsStatus m status w (raised metadata_store_error, w') = Same laws w w'
  SetsStatus m status w (raised _, w') = ⊥

  pub set_status-SetsStatus :
      (m : DocumentMetadata) (status : DocumentStatus) (w : World D B O)
      → SetsStatus m status w (set_status env m status w)
  unfolding set_status
  set_status-SetsStatus m status w =
      ground (arith, laws.db.updates (with_status m status (env.utcnow w)) w.db)

  -- A best-effort change of status never raises: the status is set, or nothing has changed.
  abbrev pub TriesStatus :
      DocumentMetadata → DocumentStatus → World D B O → Outcome (Unit {0}) × World D B O → Type 0
  TriesStatus m status w (ok _, w') =
      (bucket_of laws w' ≡ bucket_of laws w)
      × ((table_of laws w' ≡ table_of laws w)
          ⊎ (table_of laws w'
              ≡ put (table_of laws w) m.document_id (with_status m status (env.utcnow w))))
  TriesStatus m status w (raised _, w') = ⊥

  pub set_status_best_effort-TriesStatus :
      (m : DocumentMetadata) (status : DocumentStatus) (w : World D B O)
      → TriesStatus m status w (set_status_best_effort env m status w)
  unfolding set_status_best_effort
  set_status_best_effort-TriesStatus m status w = ground (arith, set_status-SetsStatus m status w)
