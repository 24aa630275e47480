-- ===== src/Domain/Order/Descending.antt =====
-- What comes after a position of a descending listing.
use dms_core.Prelude.{
  Text, Bool, true, false, ◌&&◌, List, [], ◌∷◌, ◌++◌, ◌≡◌, refl, all, filter, arith,
}
use dms_core.Domain.Models.{DocumentMetadata}
use dms_core.Domain.Order.{position, IsTextOrder, follows, IsDescending}

module _ {A : Type 0} (p : A → Bool) where
  pub filter-all : (l : List A) → all p l ≡ true → filter p l ≡ l
  filter-all [] h = refl
  filter-all (x ∷ l) h = ground (arith, filter-all l)

  pub filter-filter :
      (q : A → Bool) (l : List A) → filter p (filter q l) ≡ filter (λ x. q x && p x) l
  filter-filter q [] = refl
  filter-filter q (x ∷ l) = ground (arith, filter-filter q l)

  pub all-filter : (q : A → Bool) (l : List A) → all p l ≡ true → all p (filter q l) ≡ true
  all-filter q [] h = refl
  all-filter q (x ∷ l) h = ground (arith, all-filter q l)

  pub all-append_right : (k l : List A) → all p (k ++ l) ≡ true → all p l ≡ true
  all-append_right [] l h = h
  all-append_right (x ∷ k) l h = ground (arith, all-append_right k l)

  pub all-middle : (k l : List A) (x : A) → all p (k ++ x ∷ l) ≡ true → p x ≡ true
  all-middle [] l x h = ground arith
  all-middle (y ∷ k) l x h = ground (arith, all-middle k l x)

module _ (before : Text → Text → Bool) (order : IsTextOrder before) where
  pub follows_irreflexive : (m : DocumentMetadata) → follows before (position m) m ≡ false
  unfolding follows
  follows_irreflexive m = ground (arith, order.irreflexive m.document_id)

  pub follows_asymmetric :
      (m n : DocumentMetadata)
      → follows before (position m) n ≡ true
      → follows before (position n) m ≡ false
  unfolding follows
  follows_asymmetric m n h = ground (
    arith,
    order.irreflexive m.document_id,
    order.transitive m.document_id n.document_id m.document_id,
  )

  pub filter-IsDescending :
      (q : DocumentMetadata → Bool) (l : List DocumentMetadata)
      → IsDescending before l
      → IsDescending before (filter q l)
  filter-IsDescending q [] h = tt
  filter-IsDescending q (m ∷ l) h =
      ground (arith, filter-IsDescending q l, all-filter (follows before (position m)) q l)

  -- What follows a document in a descending listing is what comes after it.
  pub filter-follows :
      (k l : List DocumentMetadata) (m : DocumentMetadata)
      → IsDescending before (k ++ m ∷ l)
      → filter (follows before (position m)) (k ++ m ∷ l) ≡ l
  filter-follows [] l m h =
      rw (follows_irreflexive m) (filter-all (follows before (position m)) l h.0)
  filter-follows (n ∷ k) l m h =
      rw (follows_asymmetric n m (all-middle (follows before (position n)) k l m h.0))
        (filter-follows k l m h.1)
