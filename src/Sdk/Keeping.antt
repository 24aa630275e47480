-- ===== src/Sdk/Keeping.antt =====
-- Calls that write neither the upload operations nor the audit trail.
use dms_core.Prelude.{Text, Bool, true, false, List, ◌≡◌, refl, ◌∙◌, if◌then◌else◌}
use dms_core.Domain.Models.{DocumentPartition, DocumentMetadata, DocumentStatus}
use dms_core.Domain.Errors.{Exc}
use dms_core.Domain.Exec.{Exec, pure, raise, catch, gets, raise_if, unless, ◌>>=◌}
use dms_core.Domain.Exec.Rules.{bind-ensures, catch-ensures}
use dms_core.Sdk.Types.{RecoveryAuditEvent}
use dms_core.Sdk.World.{World, Backend, on_db, on_bucket}
use dms_core.Sdk.Documents.{get_internal_metadata, set_status}

-- What only the upload operations and the audit hook write.
abbrev pub rest : {D B O : Type 0} → World D B O → O × List RecoveryAuditEvent
rest w = (w.ops, w.audit)

-- A call that leaves these alone, whether it returns or raises.
pub record KeepsRest {ℓ} {D B O : Type 0} {A : Type ℓ} (m : Exec (World D B O) A) : Type 0 where
  pub at : (w : World D B O) → rest (m w).1 ≡ rest w

module _ {D B O : Type 0} {A : Type 0} where
  pub pure-KeepsRest : (a : A) → KeepsRest {D = D} {B = B} {O = O} (pure a)
  pure-KeepsRest a = record { at = λ w. refl }

  pub raise-KeepsRest : (e : Exc) → KeepsRest {D = D} {B = B} {O = O} (raise {A = A} e)
  raise-KeepsRest e = record { at = λ w. refl }

  pub db-KeepsRest : (m : Exec D A) → KeepsRest {D = D} {B = B} {O = O} (on_db m)
  db-KeepsRest m = record { at = λ w. refl }

  pub bucket-KeepsRest : (m : Exec B A) → KeepsRest {D = D} {B = B} {O = O} (on_bucket m)
  bucket-KeepsRest m = record { at = λ w. refl }

  pub gets-KeepsRest : (f : World D B O → A) → KeepsRest (gets f)
  gets-KeepsRest f = record { at = λ w. refl }

  pub if-KeepsRest :
      (b : Bool) (m n : Exec (World D B O) A)
      → KeepsRest m
      → KeepsRest n
      → KeepsRest (if b then m else n)
  if-KeepsRest true m n k l = k
  if-KeepsRest false m n k l = l

  pub catch-KeepsRest :
      (m : Exec (World D B O) A) (handler : Exc → Exec (World D B O) A)
      → KeepsRest m
      → ((e : Exc) → KeepsRest (handler e))
      → KeepsRest (catch m handler)
  catch-KeepsRest m handler k l = record {
    at = λ w.
        catch-ensures (λ x. rest x.1 ≡ rest w) (λ x. rest x.1 ≡ rest w) m handler w (k.at w)
          (λ a t h. h) (λ e t h. (l e).at t ∙ h);
  }

module _ {D B O : Type 0} where
  pub unless-KeepsRest :
      (b : Bool) (m : Exec (World D B O) (Unit {0})) → KeepsRest m → KeepsRest (unless b m)
  unless-KeepsRest true m k = record { at = λ w. refl }
  unless-KeepsRest false m k = k

  pub raise_if-KeepsRest : (b : Bool) (e : Exc) → KeepsRest {D = D} {B = B} {O = O} (raise_if b e)
  raise_if-KeepsRest b e = record { at = λ w. refl }

module _ {D B O : Type 0} {A C : Type 0} where
  pub bind-KeepsRest :
      (m : Exec (World D B O) A) (f : A → Exec (World D B O) C)
      → KeepsRest m
      → ((a : A) → KeepsRest (f a))
      → KeepsRest (m >>= f)
  bind-KeepsRest m f k l = record {
    at = λ w.
        bind-ensures (λ x. rest x.1 ≡ rest w) (λ x. rest x.1 ≡ rest w) m f w (k.at w)
          (λ a t h. (l a).at t ∙ h) (λ e t h. h);
  }

pub ruleset keeps_rest = (
  pure-KeepsRest, raise-KeepsRest, db-KeepsRest, bucket-KeepsRest, gets-KeepsRest, unless-KeepsRest,
  raise_if-KeepsRest, if-KeepsRest, bind-KeepsRest, catch-KeepsRest,
)

module _ {D B O : Type 0} (env : Backend D B O) where
  pub get_internal_metadata-KeepsRest :
      (id : Text) (p : DocumentPartition) → KeepsRest (get_internal_metadata env id p)
  unfolding get_internal_metadata
  get_internal_metadata-KeepsRest id p = search keeps_rest

  pub set_status-KeepsRest :
      (m : DocumentMetadata) (status : DocumentStatus) → KeepsRest (set_status env m status)
  unfolding set_status
  set_status-KeepsRest m status = search keeps_rest
