-- ===== src/Examples/Order.antt =====
-- Documents kept in descending order, and the order of texts by their codes.
use dms_core.Prelude.{
  Text, text_eq, text_eq_iff, Bool, true, false, not, ◌&&◌, ◌||◌, ltb, ◌==◌, some, List, [], ◌∷◌,
  put, remove, all, filter, ◌≡◌, ◌≢◌, refl, ap, arith, fun_ext, if◌then◌else◌, Bool-cases, inl, inr,
  ◌∙◌,
}
use dms_core.Domain.Models.{DocumentMetadata}
use dms_core.Domain.Order.{position, follows, IsTextOrder, IsDescending}
use dms_core.Domain.Laws.{Table}
use dms_core.Domain.Order.Descending.{filter-IsDescending}
use dms_core.Infrastructure.Metadata.Laws.{by_id}

unfoldable pub before : Text → Text → Bool
before [] [] = false
before [] (c ∷ t) = true
before (c ∷ s) [] = false
before (c ∷ s) (e ∷ t) = let rest = before s t in ltb c e || ((c == e) && rest)

pub before_irreflexive : (s : Text) → before s s ≡ false
unfolding before
before_irreflexive [] = refl
before_irreflexive (c ∷ s) = ground (arith, before_irreflexive s)

pub before_transitive : (s t u : Text) → before s t ≡ true → before t u ≡ true → before s u ≡ true
unfolding before
before_transitive [] [] u h g = cc
before_transitive [] (c ∷ t) [] h g = cc
before_transitive [] (c ∷ t) (e ∷ u) h g = refl
before_transitive (c ∷ s) [] u h g = cc
before_transitive (c ∷ s) (e ∷ t) [] h g = cc
before_transitive (c ∷ s) (e ∷ t) (a ∷ u) h g = ground (arith, before_transitive s t u)

before_other : (s t : Text) → text_eq s t ≡ false → before s t ≡ false → before t s ≡ true
unfolding before text_eq
before_other [] [] n h = cc
before_other [] (c ∷ t) n h = cc
before_other (c ∷ s) [] n h = refl
before_other (c ∷ s) (e ∷ t) n h = ground (arith, before_other s t)

pub before_total : (s t : Text) → s ≢ t → before s t ≡ false → before t s ≡ true
before_total s t n h = before_other s t (ground (arith, text_eq_iff s t)) h

abbrev pub text_order : IsTextOrder before
text_order = record {
  irreflexive = before_irreflexive;
  transitive = before_transitive;
  total = before_total;
}

follows_transitive :
    (k m n : DocumentMetadata)
    → follows before (position k) m ≡ true
    → follows before (position m) n ≡ true
    → follows before (position k) n ≡ true
unfolding follows
follows_transitive k m n h g =
    ground (arith, before_transitive n.document_id m.document_id k.document_id)

follows_total :
    (m n : DocumentMetadata)
    → text_eq m.document_id n.document_id ≡ false
    → follows before (position m) n ≡ false
    → follows before (position n) m ≡ true
unfolding follows
follows_total m n d h = ground (arith, before_other m.document_id n.document_id)

abbrev pub lacks : Text → List DocumentMetadata → Bool
lacks id l = all (λ m. not (text_eq id m.document_id)) l

unfoldable pub place : DocumentMetadata → List DocumentMetadata → List DocumentMetadata
place m [] = m ∷ []
place m (n ∷ l) =
    let rest = place m l in if follows before (position m) n then m ∷ n ∷ l else n ∷ rest

unfoldable pub without_id : Text → List DocumentMetadata → List DocumentMetadata
without_id id l = filter (λ m. not (text_eq id m.document_id)) l

all-place :
    (p : DocumentMetadata → Bool) (m : DocumentMetadata) (l : List DocumentMetadata)
    → p m ≡ true
    → all p l ≡ true
    → all p (place m l) ≡ true
unfolding place
all-place p m [] h g = ground arith
all-place p m (n ∷ l) h g = ground (arith, all-place p m l)

all_follow :
    (m n : DocumentMetadata) (l : List DocumentMetadata)
    → follows before (position m) n ≡ true
    → all (follows before (position n)) l ≡ true
    → all (follows before (position m)) l ≡ true
all_follow m n [] h g = refl
all_follow m n (k ∷ l) h g = ground (arith, all_follow m n l, follows_transitive m n k)

pub IsDescending-place :
    (m : DocumentMetadata) (l : List DocumentMetadata)
    → lacks m.document_id l ≡ true
    → IsDescending before l
    → IsDescending before (place m l)
unfolding place
IsDescending-place m [] f h = (refl, tt)
IsDescending-place m (n ∷ l) f (h, g) = elim (Bool-cases (follows before (position m) n)) [
  | inl e ↦ rw e (ground (arith, all_follow m n l), (h, g))
  | inr e ↦
      let later : follows before (position n) m ≡ true = follows_total m n (ground arith) e in
      rw e (
        all-place (follows before (position n)) m l later h,
        IsDescending-place m l (ground arith) g,
      )
]

by_id-place_at :
    (m : DocumentMetadata) (l : List DocumentMetadata) (j : Text)
    → lacks m.document_id l ≡ true
    → by_id (place m l) j ≡ put (by_id l) m.document_id m j
unfolding place by_id
by_id-place_at m [] j f = refl
by_id-place_at m (n ∷ l) j f = ground (
  arith,
  by_id-place_at m l j,
  text_eq_iff m.document_id n.document_id,
  text_eq_iff m.document_id j,
  text_eq_iff n.document_id j,
)

pub by_id-place :
    (m : DocumentMetadata) (l : List DocumentMetadata)
    → lacks m.document_id l ≡ true
    → by_id (place m l) ≡ put (by_id l) m.document_id m
by_id-place m l f = fun_ext (λ j. by_id-place_at m l j f)

lacks-without_id : (id : Text) (l : List DocumentMetadata) → lacks id (without_id id l) ≡ true
unfolding without_id
lacks-without_id id [] = refl
lacks-without_id id (m ∷ l) = ground (arith, lacks-without_id id l)

by_id-without_id_at :
    (id : Text) (l : List DocumentMetadata) (j : Text)
    → by_id (without_id id l) j ≡ remove (by_id l) id j
unfolding without_id by_id
by_id-without_id_at id [] j = ground arith
by_id-without_id_at id (m ∷ l) j = ground (
  arith,
  by_id-without_id_at id l j,
  text_eq_iff id m.document_id,
  text_eq_iff id j,
  text_eq_iff m.document_id j,
)

pub by_id-without_id :
    (id : Text) (l : List DocumentMetadata) → by_id (without_id id l) ≡ remove (by_id l) id
by_id-without_id id l = fun_ext (λ j. by_id-without_id_at id l j)

-- The documents of a log of writes, the latest first, in descending order.
unfoldable pub arranged : List DocumentMetadata → List DocumentMetadata
arranged [] = []
arranged (m ∷ log) = place m (without_id m.document_id (arranged log))

pub arranged-IsDescending : (log : List DocumentMetadata) → IsDescending before (arranged log)
unfolding arranged without_id
arranged-IsDescending [] = tt
arranged-IsDescending (m ∷ log) =
    IsDescending-place m (without_id m.document_id (arranged log))
      (lacks-without_id m.document_id (arranged log))
      (filter-IsDescending before text_order (λ n. not (text_eq m.document_id n.document_id))
        (arranged log) (arranged-IsDescending log))

put-remove : (t : Table) (k : Text) (m : DocumentMetadata) → put (remove t k) k m ≡ put t k m
put-remove t k m = fun_ext (λ j. ground arith)

pub by_id-arranged_cons :
    (m : DocumentMetadata) (log : List DocumentMetadata)
    → by_id (arranged (m ∷ log)) ≡ put (by_id (arranged log)) m.document_id m
unfolding arranged
by_id-arranged_cons m log =
    by_id-place m (without_id m.document_id (arranged log))
      (lacks-without_id m.document_id (arranged log))
    ∙ ap (λ t. put t m.document_id m) (by_id-without_id m.document_id (arranged log))
    ∙ put-remove (by_id (arranged log)) m.document_id m

-- Writing the documents of a listing again gives the same table.
by_id-arranged_at : (l : List DocumentMetadata) (j : Text) → by_id (arranged l) j ≡ by_id l j
unfolding by_id arranged
by_id-arranged_at [] j = refl
by_id-arranged_at (m ∷ l) j =
    ap (λ t. t j) (by_id-arranged_cons m l)
    ∙ ap (λ o. if text_eq m.document_id j then some m else o) (by_id-arranged_at l j)

pub by_id-arranged : (l : List DocumentMetadata) → by_id (arranged l) ≡ by_id l
by_id-arranged l = fun_ext (by_id-arranged_at l)
