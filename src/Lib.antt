-- ===== src/Lib.antt =====
-- dms-core, a document management SDK: documents are registered, read, listed, deleted and
-- repaired over a metadata store, an object store and a store of upload operations.
--
-- Parts. A document is a record in the metadata store and an object in the object store; the
-- record names the object by its storage key. Each document belongs to a partition, and the
-- storage keys of a partition share a prefix. The services call the stores one after the other, so
-- that a failing store can leave a record without an object or the other way round; each service
-- says how such a failure is repaired or reported.
--
-- Files.
--   Domain/Models, Domain/Interfaces: dms/domain/models.py and the sync protocols of
--     dms/domain/interfaces.py. A store is a record of methods, each a call on the store's state.
--   Domain/Value: the JSON values of caller metadata and of cursors.
--   Domain/Errors: dms/sdk/errors.py, one constructor per class.
--   Domain/Exec: a call, a function from a state to an outcome (`ok` or `raised`) and a state. What
--     was written before an exception stays written. Exec/Rules has the rules for postconditions.
--   Domain/Laws: what the services rely on of their stores, for calls that return and that raise.
--   Domain/Order: the order of listings, newest first, and which documents a query selects.
--   Domain/OperationLaws: what the upload service relies on of the store of upload operations.
--   Infrastructure/Operations: SqlAlchemyUploadOperationStore of
--     dms/infrastructure/metadata/operations.py, `_mark` as `mark`, over SQLAlchemy's statements.
--     Operations/Claiming is about those laws.
--   Infrastructure/Metadata: SqlAlchemyMetadataStore of dms/infrastructure/metadata/sqlalchemy.py
--     over SQLAlchemy's sessions; `clear_all` and `clear_partition` are `clear`. Metadata/Laws has
--     what it relies on of the sessions, Metadata/Columns is about rows, Metadata/Selecting about
--     statements, Metadata/Refinement and Metadata/Keeping about the laws of a metadata store,
--     Metadata/Listings about those of listings.
--   Infrastructure/Storage: MinioObjectStore of dms/infrastructure/storage/minio.py over the MinIO
--     client. Storage/Client has the client and what the store relies on of it, Storage/Laws,
--     Storage/Reading and Storage/Refinement are about the laws of an object store,
--     Storage/Removing, Storage/Attempts and Storage/Clearing about clearing a prefix.
--   Sdk/Cursors: `encode_cursor` and `decode_cursor` of dms/sdk/documents.py.
--   Sdk/Types, Sdk/Contracts: dms/sdk/types.py and the namespaces of dms/sdk/contracts.py.
--     Types/Views has the public view of a document.
--   Sdk/World: the states of the three stores and the audit trail; what a service is built from.
--   Sdk/Documents: DocumentService of dms/sdk/documents.py: reads, status changes, `delete`.
--     Documents/Listing has `list_internal`, `list` as `list_public`, `list_page` with one function
--     per step, and `iter_documents` of dms/sdk/implementation.py behind the access check.
--     Documents/Pages and Documents/Iterating are about pages.
--     Documents/Deletion and the files beside it are about how `delete` ends.
--     Documents/Contents is about reading content, Documents/Readable about which documents may be
--     read.
--   Sdk/Streams: DocumentContentStream of dms/sdk/types.py as an object that is read and closed, with
--     the callback of `get_content_stream`. Streams/Chunks and Streams/Closing are about it; the
--     number of chunks that a caller asks for is an argument.
--   Sdk/Upload: UploadService of dms/sdk/upload.py, first for content in memory. Upload/Keys has the
--     storage keys; Upload/Storing and Upload/Atomic are about how an upload ends, Upload/Namespace
--     about storage keys, Upload/Race about two uploads under one identifier.
--     `store_document` and `upload_unkeyed` are `_upload_document`. Upload/Keyed has
--     `upload_document` and `_idempotent_upload` (as `idempotent_upload`, `upload_keyed`,
--     `upload_claimed`, `replay`); Upload/Streams has `_HashingReader` and `upload_document_stream`
--     (`upload_stream` and `store_stream` are `_upload_document_stream`), which Upload/Streaming and
--     Upload/StreamedUpload are about; Upload/ReadBack is about reading what was uploaded, and
--     Upload/Idempotence, Upload/Replaying and Upload/Retrying about idempotency keys.
--   Sdk/Reconciliation: ReconciliationCoordinator of dms/sdk/reconciliation.py: `inspect_document`,
--     `_apply` as `apply` with one function per action, `reconcile_document`.
--   Sdk/Batches: `reconcile_documents`, `execute_reconciliation_plan` and `_reconcile_item` of
--     dms/sdk/reconciliation.py, the batch results and plans of dms/sdk/types.py, and
--     `_list_recovery_candidates` of dms/sdk/implementation.py. Batches/Items, Batches/Running,
--     Batches/Counters and Batches/Executing are about what a batch does and how it ends.
--   Sdk/Access: `_enforce_access` of dms/sdk/contracts.py, and `delete_document` and
--     `_list_documents_page` (as `list_documents`) of dms/sdk/implementation.py, which ask it.
--     Access/Permits says what a policy permits, Access/Denial is about denied deletions. Sdk/Facade
--     has the other calls on documents, content, uploads and recovery; Facade/Guarding is about what
--     the policy guards there. The host's policy is a parameter.
--   Sdk/Copying: `copy_document_to` of dms/sdk/implementation.py from the opened stream on.
--     Copying/Loop and Copying/Copied are about what it has copied.
--   Sdk/Reset: `_reset_data` of dms/sdk/implementation.py, which clears all stores behind the access
--     check (`reset_stores` is what follows it). Reset/Clearing is about how it ends.
--   Examples: stores in memory that meet the laws, and the theorems at concrete inputs.
--
-- Parameters. The stores are parameters with the laws of Domain/Laws: a metadata store's call that
-- raises has rolled its transaction back; an object store's call that writes under one key and
-- raises may or may not have written there, and has written nowhere else. A stream is the bytes that
-- it gives until its end; a put of a stream tells what each `read` of it gave. The SQL statements of
-- the operation store are a parameter with the laws of Infrastructure/Operations/Laws, and the sessions
-- of the metadata store one with those of Infrastructure/Metadata/Laws: the primary key is unique,
-- a select gives the rows that its conditions hold of in the order asked for, and a time stamp is
-- read back as the same instant with or without its time zone. The MinIO client is a parameter with
-- the laws of Infrastructure/Storage/Client. JSON, base64 and the ISO format of cursors are a
-- parameter with the laws of Sdk/Cursors/Laws. The stream under a content stream is a parameter with
-- the laws of Sdk/Streams/Laws, and the sink of a copy one with those of Sdk/Copying/Loop. SHA-256,
-- the system clock, `str.lower`, the JSON text of a fingerprint and the recovery audit hook are
-- parameters too; a hook writes only the audit trail.
--
-- Fuel. The loop of `claim` takes a second turn only after another transaction has removed the row
-- that an insertion met. Without one, the first turn decides, so fuel for one turn is enough;
-- `claim_within` is none where the loop would go on.
-- The loop of `copy_document_to` turns once more than there are chunks, of which none is empty.
-- `iter_documents` needs one page more than there are documents at most. The loop of
-- `allocate_document_id` ends with the first number that is not taken; its fuel bounds the numbers
-- that documents with identifiers of their own may have taken.
--
-- Conventions. A text is a list of code points. Numbers are unbounded, as in Python. Arguments have
-- their declared types, so the `isinstance` checks of the source always pass; a document's time
-- stamps have a time zone, as the code makes them, and are kept as instants. Declared sizes and
-- chunk sizes are natural numbers, so `<= 0` is a test for zero, and `error_type` holds an error's
-- code in place of its class name. Logging, timing, error messages and diagnoses are left out.
--
-- Not modelled: of the facade the observers, `upload_file` and the checks of batches and plans, the
-- async services, and the factories.
pub mod Prelude
pub mod Domain
pub mod Infrastructure
pub mod Sdk
pub mod Examples
