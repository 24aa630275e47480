-- ===== src/Sdk/Access/Permits.antt =====
-- What a host's policy must have said for a call to go on, told from `_enforce_access` of
-- dms/sdk/contracts.py apart from its code.
use dms_core.Prelude.{
  Text, codes, Bool, true, false, Option, none, some, ◌≡◌, refl, ap, inl, inr, Bool-cases,
}
use dms_core.Domain.Models.{DocumentMetadata}
use dms_core.Sdk.Types.{PublicDocumentMetadata}
use dms_core.Sdk.Types.Views.{public_view, public_metadata-public_view}
use dms_core.Sdk.Access.{
  AccessContext, DocumentAccessPolicy, is_allowed, project_access_metadata, passes,
  delete_operation,
}

-- The public view of a document, where there is one.
abbrev pub shown : Option DocumentMetadata → Option PublicDocumentMetadata
shown none = none
shown (some m) = some (public_view m)

-- A policy, where there is one, has answered yes about the operation, the caller's context and the
-- public view of the document; a policy that raised has not.
abbrev pub Permits :
    Option DocumentAccessPolicy → Text → Option AccessContext → Option DocumentMetadata → Type 0
Permits none operation context o = Unit {0}
Permits (some policy) operation context o = policy.allows operation context (shown o) ≡ some true

shown-project_access_metadata : (o : Option DocumentMetadata) → project_access_metadata o ≡ shown o
unfolding project_access_metadata
shown-project_access_metadata none = refl
shown-project_access_metadata (some m) = ap some (public_metadata-public_view m)

is_allowed-some : (x : Option Bool) → is_allowed x ≡ true → x ≡ some true
is_allowed-some none h = cc
is_allowed-some (some b) h = ap some h

pub passes-Permits :
    (policy : Option DocumentAccessPolicy) (operation : Text) (context : Option AccessContext)
    (o : Option DocumentMetadata)
    → passes policy operation context o ≡ true
    → Permits policy operation context o
unfolding passes
passes-Permits none operation context o h = tt
passes-Permits (some policy) operation context o h =
    is_allowed-some (policy.allows operation context (shown o))
      (rw (shown-project_access_metadata o) at h)

pub Permits-passes :
    (policy : Option DocumentAccessPolicy) (operation : Text) (context : Option AccessContext)
    (o : Option DocumentMetadata)
    → Permits policy operation context o
    → passes policy operation context o ≡ true
unfolding passes
Permits-passes none operation context o h = refl
Permits-passes (some policy) operation context o h = rw (shown-project_access_metadata o, h) refl

pub denied_passes :
    (policy : Option DocumentAccessPolicy) (operation : Text) (context : Option AccessContext)
    (o : Option DocumentMetadata)
    → ¬ Permits policy operation context o
    → passes policy operation context o ≡ false
denied_passes policy operation context o n = elim (Bool-cases (passes policy operation context o)) [
  | inl e ↦ absurd (n (passes-Permits policy operation context o e))
  | inr e ↦ e
]

pub passes_denied :
    (policy : Option DocumentAccessPolicy) (operation : Text) (context : Option AccessContext)
    (o : Option DocumentMetadata)
    → passes policy operation context o ≡ false
    → ¬ Permits policy operation context o
passes_denied policy operation context o e h =
    let t : passes policy operation context o ≡ true =
      Permits-passes policy operation context o h in
    cc

-- The operation that a deletion asks for.
abbrev pub deletion : Bool → Text
deletion true = codes "document.hard_delete"
deletion false = codes "document.delete"

pub delete_operation-deletion : (hard : Bool) → delete_operation hard ≡ deletion hard
unfolding delete_operation
delete_operation-deletion true = refl
delete_operation-deletion false = refl
