-- ===== src/Prelude/Cutting.antt =====
-- A list cut in two, and its last element.
use Prim.Native.Nat.{ℕ, zero, suc, ◌≤◌, ◌<◌}
use mathlib.Core.Path.{◌≡◌, refl, ap}
use mathlib.Core.List.{List, [], ◌∷◌, ◌++◌}
use mathlib.Core.Option.{some}
use native.Mathlib.Omega.{arith}
use dms_core.Prelude.Tests.{ltb}
use dms_core.Prelude.Lists.{length, take, drop, get_last?}

module _ {A : Type 0} where
  pub append_nil : (l : List A) → l ++ [] ≡ l
  append_nil [] = refl
  append_nil (x ∷ l) = ap (λ t. x ∷ t) (append_nil l)

  pub take-drop : (k : ℕ) (l : List A) → take k l ++ drop k l ≡ l
  take-drop zero l = refl
  take-drop (suc k) [] = refl
  take-drop (suc k) (x ∷ l) = ap (λ t. x ∷ t) (take-drop k l)

  pub take-take-suc : (k : ℕ) (l : List A) → take k (take (suc k) l) ≡ take k l
  take-take-suc zero l = refl
  take-take-suc (suc k) [] = refl
  take-take-suc (suc k) (x ∷ l) = ap (λ t. x ∷ t) (take-take-suc k l)

  pub length-take_more : (k : ℕ) (l : List A) → ltb k (length (take (suc k) l)) ≡ ltb k (length l)
  length-take_more zero [] = refl
  length-take_more zero (x ∷ l) = ground arith
  length-take_more (suc k) [] = refl
  length-take_more (suc k) (x ∷ l) = ground (arith, length-take_more k l)

  pub take_all : (k : ℕ) (l : List A) → length l ≤ k → take k l ≡ l
  take_all zero [] h = refl
  take_all zero (x ∷ l) h = absurd (omega arith)
  take_all (suc k) [] h = refl
  take_all (suc k) (x ∷ l) h = ap (λ t. x ∷ t) (take_all k l (omega arith))

  pub take_prefix : (k : ℕ) (l r : List A) → length l ≡ k → take k (l ++ r) ≡ l
  take_prefix zero [] r h = refl
  take_prefix zero (x ∷ l) r h = absurd (omega arith)
  take_prefix (suc k) [] r h = absurd (omega arith)
  take_prefix (suc k) (x ∷ l) r h = ap (λ t. x ∷ t) (take_prefix k l r (omega arith))

  pub length-drop-lt : (k : ℕ) (l : List A) → 0 < k → 0 < length l → length (drop k l) < length l
  length-drop-lt zero l h g = absurd (omega arith)
  length-drop-lt (suc zero) [] h g = absurd (omega arith)
  length-drop-lt (suc zero) (x ∷ l) h g = omega arith
  length-drop-lt (suc (suc k)) [] h g = absurd (omega arith)
  length-drop-lt (suc (suc k)) (x ∷ []) h g = omega arith
  length-drop-lt (suc (suc k)) (x ∷ y ∷ l) h g =
      omega (arith, length-drop-lt (suc k) (y ∷ l) (omega arith) (omega arith))

  pub get_last?-some :
      (l : List A) (x : A) → get_last? l ≡ some x → (k : List A) × (l ≡ k ++ x ∷ [])
  get_last?-some [] x h = cc
  get_last?-some (y ∷ []) x h = ([], cc)
  get_last?-some (y ∷ z ∷ l) x h =
      let (k, e) = get_last?-some (z ∷ l) x h in (y ∷ k, ap (λ t. y ∷ t) e)

  pub get_last?-take :
      (k : ℕ) (l : List A) → 0 < k → 0 < length l → (x : A) × (get_last? (take k l) ≡ some x)
  get_last?-take zero l h g = absurd (omega arith)
  get_last?-take (suc k) [] h g = absurd (omega arith)
  get_last?-take (suc zero) (x ∷ l) h g = (x, refl)
  get_last?-take (suc (suc k)) (x ∷ []) h g = (x, refl)
  get_last?-take (suc (suc k)) (x ∷ y ∷ l) h g =
      get_last?-take (suc k) (y ∷ l) (omega arith) (omega arith)
