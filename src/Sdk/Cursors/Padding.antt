-- ===== src/Sdk/Cursors/Padding.antt =====
-- Taking the padding of a base64 text off and putting it on again.
use dms_core.Prelude.{
  ℕ, ◌-◌, ◌%◌, length, zero, suc, Text, Bool, true, not, ◌==◌, [], ◌∷◌, ◌++◌, reverse, replicate,
  all, ◌≡◌, refl, ap, ◌∙◌, arith,
}
use mathlib.Core.List.{reverse-append, reverse-reverse}
use dms_core.Sdk.Cursors.{lstrip_equals, rstrip_equals, padding}
use dms_core.Sdk.Cursors.Laws.{is_unpadded}

abbrev is_equals : ℕ → Bool
is_equals c = c == b'='

module _ (p : ℕ → Bool) where
  all-append : (s t : Text) → all p s ≡ true → all p t ≡ true → all p (s ++ t) ≡ true
  all-append [] t h g = g
  all-append (c ∷ s) t h g = ground (arith, all-append s t)

  all-reverse : (s : Text) → all p s ≡ true → all p (reverse s) ≡ true
  all-reverse [] h = refl
  all-reverse (c ∷ s) h =
      rw (reverse-append (c ∷ []) s)
        (all-append (reverse s) (c ∷ []) (all-reverse s (ground arith)) (ground arith))

all-replicate : (n : ℕ) → all is_equals (replicate n b'=') ≡ true
all-replicate zero = refl
all-replicate (suc n) = ground (arith, all-replicate n)

lstrip_equals-append :
    (s t : Text) → all is_equals s ≡ true → lstrip_equals (s ++ t) ≡ lstrip_equals t
unfolding lstrip_equals
lstrip_equals-append [] t h = refl
lstrip_equals-append (c ∷ s) t h = ground (arith, lstrip_equals-append s t)

lstrip_equals_unpadded : (s : Text) → is_unpadded s ≡ true → lstrip_equals s ≡ s
unfolding lstrip_equals
lstrip_equals_unpadded [] h = refl
lstrip_equals_unpadded (c ∷ s) h = ground arith

pub rstrip_equals-padding : (s : Text) → is_unpadded s ≡ true → rstrip_equals (s ++ padding s) ≡ s
unfolding rstrip_equals padding
rstrip_equals-padding s h = rw (reverse-append s (padding s)) (
    ap reverse (
      lstrip_equals-append (reverse (padding s)) (reverse s)
        (all-reverse is_equals (padding s) (all-replicate ((4 - length s % 4) % 4)))
      ∙ lstrip_equals_unpadded (reverse s) (all-reverse (λ c. not (c == b'=')) s h))
    ∙ reverse-reverse s)
