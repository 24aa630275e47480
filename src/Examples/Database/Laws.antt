-- ===== src/Examples/Database/Laws.antt =====
-- The database in memory behaves as the metadata store relies on.
use dms_core.Prelude.{
  suc, Text, text_eq_iff, Bool, true, false, Option, none, some, is_some, List, [], ◌∷◌, put,
  filter, map, drop, ◌≡◌, refl, ap, sym, ◌∙◌, arith, if◌then◌else◌, Bool-cases, inl, inr,
}
use dms_core.Domain.Models.{DateTime, DocumentMetadata}
use dms_core.Domain.Errors.{other_error, integrity_error}
use dms_core.Domain.Exec.{Outcome, ok, raised, Exec}
use dms_core.Domain.Laws.{Table}
use dms_core.Infrastructure.Metadata.{
  Row, Condition, Statement, from_domain, to_domain, written, map_option, selecting,
}
use dms_core.Infrastructure.Metadata.Columns.{to_domain-only}
use dms_core.Infrastructure.Metadata.Laws.{
  SessionsLaws, by_id, selects, limited, read_back, again, Scalar, Scalars, Adds, Merges, Deletes,
  GetsRow,
}
use dms_core.Examples.Order.{
  before, text_order, without_id, arranged-IsDescending, by_id-arranged_cons, by_id-arranged,
  by_id-without_id,
}
use dms_core.Examples.Database.{
  Database, documents, row, first_selected, select_or, reachable, log_document, write_row, sessions,
}

again-written :
    (t : Option DateTime) → map_option (again true) (map_option written t) ≡ map_option written t
again-written none = refl
again-written (some t) = refl

read_back_written : (m : DocumentMetadata) → read_back true (from_domain m) ≡ from_domain m
unfolding read_back from_domain
read_back_written m =
    ap (λ t. record (from_domain m) { deleted_at = t }) (again-written m.deleted_at)

from_domain_only : (m n : DocumentMetadata) → to_domain (from_domain m) ≡ some n → n ≡ m
from_domain_only m n h = to_domain-only true m n (ap to_domain (read_back_written m) ∙ h)

pub reachable-ensures :
    {A : Type 0} (P : Outcome A × Database → Type 0) (m : Exec Database A) (d : Database)
    → P (raised (other_error 0), d)
    → P (m d)
    → P (reachable m d)
reachable-ensures P m d f g =
    elim d.down as (λ b. P (if b then (raised (other_error 0), d) else m d)) [
      | true ↦ f
      | false ↦ g
    ]

by_id_keyed :
    (l : List DocumentMetadata) (id : Text) (m : DocumentMetadata)
    → by_id l id ≡ some m
    → m.document_id ≡ id
unfolding by_id
by_id_keyed [] id m h = cc
by_id_keyed (n ∷ l) id m h = ground (arith, by_id_keyed l id m, text_eq_iff n.document_id id)

module _ (t : Table)
    (keyed : (id : Text) (m : DocumentMetadata) → t id ≡ some m → m.document_id ≡ id)
    (q : DocumentMetadata → Bool) where
  first_selected-some :
      (l : List DocumentMetadata) (m : DocumentMetadata)
      → first_selected t q l ≡ some m
      → (t m.document_id ≡ some m) × (q m ≡ true)
  unfolding first_selected
  first_selected-some [] m h = cc
  first_selected-some (n ∷ l) m h = step (t n.document_id) refl (first_selected-some l m) h
    where
      step :
          (o : Option DocumentMetadata)
          → t n.document_id ≡ o
          → (first_selected t q l ≡ some m → (t m.document_id ≡ some m) × (q m ≡ true))
          → select_or q o (first_selected t q l) ≡ some m
          → (t m.document_id ≡ some m) × (q m ≡ true)
      step none e rest g = rest g
      step (some k) e rest g = elim (Bool-cases (q k)) [
        | inl y ↦
            let found : some k ≡ some m = sym (rw y refl) ∙ g in
            let same : k ≡ m = cc in
            (
              ap t (sym (ap (λ z. z.document_id) same) ∙ keyed n.document_id k e) ∙ e ∙ found,
              ap q (sym same) ∙ y,
            )
        | inr n' ↦ rest (rw n' at g)
      ]

  first_selected-none :
      (l : List DocumentMetadata) (id : Text) (k m : DocumentMetadata)
      → first_selected t q l ≡ none
      → by_id l id ≡ some k
      → t id ≡ some m
      → q m ≡ false
  unfolding first_selected by_id
  first_selected-none [] id k m h f e = cc
  first_selected-none (n ∷ l) id k m h f e =
      ground (arith, first_selected-none l id k m, text_eq_iff n.document_id id)

pub scalar_law :
    (conditions : List Condition) (d : Database)
    → Scalar documents before false conditions d (sessions.scalar (selecting conditions) d)
scalar_law conditions d =
    reachable-ensures (Scalar documents before false conditions d)
      (λ d. (ok (map_option row (first d)), d)) d (refl, refl) (selected (first d) refl)
  where
    first : Database → Option DocumentMetadata
    first d = first_selected (by_id (documents d)) (selects before conditions) (documents d)

    selected :
        (o : Option DocumentMetadata)
        → first d ≡ o
        → Scalar documents before false conditions d (ok (map_option row o), d)
    selected none e = (
      (λ id m h.
          first_selected-none (by_id (documents d)) (by_id_keyed (documents d))
            (selects before conditions) (documents d) id m m e h h),
      refl,
    )
    selected (some m) e =
        let (there, passes) =
          first_selected-some (by_id (documents d)) (by_id_keyed (documents d))
            (selects before conditions) (documents d) m e in
        (m, refl, there, passes, refl)

pub scalars_law :
    (q : Statement) (d : Database)
    → q.newest_first ≡ true
    → Scalars documents before false q d (sessions.scalars q d)
scalars_law q d h =
    reachable-ensures (Scalars documents before false q d)
      (λ d. (
        ok (
            map row (
              limited q.limit
                (drop q.offset (filter (selects before q.conditions) (documents d))))),
        d,
      ))
      d refl (refl, refl)

pub get_law : (id : Text) (d : Database) → GetsRow documents id d (sessions.get id d)
get_law id d =
    reachable-ensures (GetsRow documents id d)
      (λ d. (ok (map_option row (by_id (documents d) id)), d)) d refl
      (known (by_id (documents d) id) refl)
  where
    known :
        (o : Option DocumentMetadata)
        → by_id (documents d) id ≡ o
        → GetsRow documents id d (ok (map_option row o), d)
    known none e = (e, refl)
    known (some m) e = ((λ z. cc (e, z)), refl)

write_row_law :
    (m : DocumentMetadata) (d : Database) → Merges documents m d (write_row (from_domain m) d)
write_row_law m d = go (to_domain (from_domain m)) (from_domain_only m)
  where
    go :
        (o : Option DocumentMetadata)
        → ((n : DocumentMetadata) → o ≡ some n → n ≡ m)
        → Merges documents m d (log_document o d)
    go none h = tt
    go (some n) h =
        by_id-arranged_cons n d.log ∙ ap (λ z. put (by_id (documents d)) z.document_id z) (h n refl)

pub sessions_merge :
    (m : DocumentMetadata) (d : Database) → Merges documents m d (sessions.merge (from_domain m) d)
sessions_merge m d =
    reachable-ensures (Merges documents m d) (write_row (from_domain m)) d tt (write_row_law m d)

pub sessions_add :
    (m : DocumentMetadata) (d : Database) → Adds documents m d (sessions.add (from_domain m) d)
unfolding from_domain
sessions_add m d =
    reachable-ensures (Adds documents m d)
      (λ d.
        if is_some (by_id (documents d) m.document_id)
        then (raised integrity_error, d)
        else write_row (from_domain m) d)
      d (refl, (λ z. cc)) (unless_there (by_id (documents d) m.document_id) refl)
  where
    new :
        (o : Option DocumentMetadata)
        → ((n : DocumentMetadata) → o ≡ some n → n ≡ m)
        → by_id (documents d) m.document_id ≡ none
        → Adds documents m d (log_document o d)
    new none h e = (refl, (λ z. cc))
    new (some n) h e = (
      e,
      by_id-arranged_cons n d.log ∙ ap (λ z. put (by_id (documents d)) z.document_id z) (h n refl),
    )

    unless_there :
        (o : Option DocumentMetadata)
        → by_id (documents d) m.document_id ≡ o
        → Adds documents m d
            (if is_some o then (raised integrity_error, d) else write_row (from_domain m) d)
    unless_there none e = new (to_domain (from_domain m)) (from_domain_only m) e
    unless_there (some n) e = (refl, (λ _ z. cc (e, z)))

pub sessions_delete : (r : Row) (d : Database) → Deletes documents r d (sessions.delete r d)
sessions_delete r d =
    reachable-ensures (Deletes documents r d)
      (λ d. (ok tt, record d { log = without_id r.document_id (documents d) })) d tt
      (by_id-arranged (without_id r.document_id (documents d))
        ∙ by_id-without_id r.document_id (documents d))

abbrev pub sessions_laws : SessionsLaws sessions
sessions_laws = record {
  documents = documents;
  before = before;
  order = text_order;
  descends = λ d. arranged-IsDescending d.log;
  aware = false;
  scalar = scalar_law;
  scalars = scalars_law;
  get = get_law;
  adds = sessions_add;
  merges = sessions_merge;
  deletes = sessions_delete;
  numbers = λ d.
      reachable-ensures (λ x. documents x.1 ≡ documents d)
        (λ d. (ok (suc d.next ∷ []), record d { next = suc d.next })) d refl refl;
}
