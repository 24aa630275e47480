-- ===== src/Sdk/Upload/Storing.antt =====
-- How storing a document ends: `store_document`, from the put of its object to the registered
-- record or the rollback.
use dms_core.Prelude.{
  ℕ, length, remove-put, put-OnlyAt, Text, true, put, remove, ◌≡◌, refl, sym, ap, ◌∙◌,
}
use dms_core.Domain.Models.{DocumentPartition, DocumentMetadata}
use dms_core.Domain.Errors.{Exc, duplicate_document_error, storage_error, consistency_error}
use dms_core.Domain.Exec.{Outcome, Exec, ok, raised, catch, pure, raise, ◌>>=◌}
use dms_core.Domain.Exec.Rules.{bind-ensures, catch-ensures}
use dms_core.Domain.Laws.{OnlyAt, Puts}
use dms_core.Sdk.Types.Views.{public_metadata-public_view}
use dms_core.Sdk.Types.{UploadDocumentRequest, fields_of, UploadDocumentResult, public_metadata}
use dms_core.Sdk.World.{World, Backend, BackendLaws, table_of, bucket_of, on_bucket}
use dms_core.Sdk.Upload.{save_uploaded_metadata, put_request, roll_back, store_document}
use dms_core.Sdk.Upload.Outcomes.{
  sum_of, key_of, uploaded_metadata-registered_record, HasObject, Stores,
}
use dms_core.Sdk.Upload.Rollback.{SavesRecord, save_step, save_step-SavesRecord}

module _ {D B O : Type 0} (env : Backend D B O) (laws : BackendLaws env)
    (request : UploadDocumentRequest) (id : Text) (p : DocumentPartition) where
  abbrev key : Text
  key = key_of env laws request id p

  abbrev sum : Text
  sum = sum_of env laws request id p

  abbrev size : ℕ
  size = length request.content

  -- The object was put: nothing is known of the object that stood there.
  abbrev PutsObject : World D B O → Outcome Text × World D B O → Type 0
  PutsObject w (ok k, t) =
      (table_of laws t ≡ table_of laws w) × (k ≡ key) × HasObject env laws request id p w t
  PutsObject w (raised storage_error, t) =
      (table_of laws t ≡ table_of laws w)
      × OnlyAt laws.objects.bucket (bucket_of laws w) key t.bucket
  PutsObject w (raised _, t) = ⊥

  abbrev put_step : Exec (World D B O) Text
  put_step =
      catch (on_bucket (env.object_store.put_object (put_request request id key sum)))
        λ e. raise storage_error

  put_step-PutsObject : (w : World D B O) → PutsObject w (put_step w)
  unfolding put_request
  put_step-PutsObject w =
      catch-ensures
        (λ x.
          (table_of laws x.1 ≡ table_of laws w)
          × Puts laws.objects.bucket (bucket_of laws w) (put_request request id key sum)
              (x.0, x.1.bucket))
        (PutsObject w) (on_bucket (env.object_store.put_object (put_request request id key sum)))
        (λ e. raise storage_error) w
        (refl, laws.objects.puts (put_request request id key sum) w.bucket)
        (λ a t h. (h.0, h.1.0, h.1.1)) (λ e t h. h)

  abbrev after_save : DocumentMetadata → Exec (World D B O) UploadDocumentResult
  after_save saved =
      pure (record { document_id = id; metadata = public_metadata saved; created = true })

  abbrev after_put : Text → Exec (World D B O) UploadDocumentResult
  after_put k =
      catch (save_uploaded_metadata env (fields_of request) size id k sum p)
        (λ exc. roll_back env id k exc)
      >>= after_save

  put_failed :
      (w : World D B O) (e : Exc) (t : World D B O)
      → PutsObject w (raised e, t)
      → Stores env laws request id p w (raised e, t)
  put_failed w storage_error t h = h
  put_failed w e t h = absurd h

  save_failed :
      (w t : World D B O)
      → PutsObject w (ok key, t)
      → (e : Exc) (u : World D B O)
      → SavesRecord env laws (fields_of request) size id key sum p t (raised e, u)
      → Stores env laws request id p w (raised e, u)
  save_failed w t h duplicate_document_error u g = (
    g.0 ∙ h.0,
    (λ e. g.1 (ap (λ f. f id) h.0 ∙ e)),
    g.2 ∙ ap (λ b. remove b key) h.2.3 ∙ remove-put _ _ _,
  )
  save_failed w t h consistency_error u g = (
    g.0 ∙ h.0,
    λ j n. g.1 j n ∙ ap (λ b. b j) h.2.3 ∙ put-OnlyAt (bucket_of laws w) key h.2.0 j n,
  )
  save_failed w t h e u g = absurd g

  after_put-Stores :
      (w t : World D B O)
      → PutsObject w (ok key, t)
      → Stores env laws request id p w (after_put key t)
  after_put-Stores w t h =
      bind-ensures (SavesRecord env laws (fields_of request) size id key sum p t)
        (Stores env laws request id p w) (save_step env laws (fields_of request) size id key sum p)
        after_save t (save_step-SavesRecord env laws (fields_of request) size id key sum p t)
        (λ m u g. (
          m,
          t,
          g.1 ∙ uploaded_metadata-registered_record env (fields_of request) size id key sum p t,
          ap (λ v. record { document_id = id; metadata = v; created = true })
              (public_metadata-public_view m),
          ap (λ f. f id) (sym h.0) ∙ g.2,
          g.3 ∙ ap (λ f. put f id m) h.0,
          (h.2.0, h.2.1, h.2.2, g.0 ∙ h.2.3),
        ))
        (save_failed w t h)

  -- `store_document` over stores that keep their laws ends in one of four ways.
  pub store_document-Stores :
      (w : World D B O) → Stores env laws request id p w (store_document env request id p w)
  unfolding store_document
  store_document-Stores w =
      bind-ensures (PutsObject w) (Stores env laws request id p w) put_step after_put w
        (put_step-PutsObject w) (λ k t h. rw h.1 (after_put-Stores w t (h.0, refl, h.2)))
        (put_failed w)
