-- ===== src/Domain/Exec/Rules.antt =====
-- Postconditions of calls: one rule for a sequence and one for a handler. A postcondition is a
-- predicate on how a call ends, its outcome and the state it leaves.
use dms_core.Prelude.{Bool, true, false, ◌≡◌, refl}
use dms_core.Domain.Errors.{Exc}
use dms_core.Domain.Exec.{Outcome, ok, raised, Exec, catch, raise_if, unless, ◌>>=◌, ◌>>◌}

module _ {ℓ κ} {S : Type 0} {A : Type ℓ} {B : Type κ} where
  -- First `m` with `P`, then what follows its value, or its exception, with `Q`.
  pub bind-ensures :
      (P : Outcome A × S → Type 0) (Q : Outcome B × S → Type 0) (m : Exec S A) (f : A → Exec S B)
      (s : S)
      → P (m s)
      → ((a : A) (t : S) → P (ok a, t) → Q (f a t))
      → ((e : Exc) (t : S) → P (raised e, t) → Q (raised e, t))
      → Q ((m >>= f) s)
  bind-ensures P Q m f s p returns raises = go (m s).0 (m s).1 p
    where
      go : (r : Outcome A) (t : S) → P (r, t) → Q (((λ (_ : S). (r, t)) >>= f) s)
      go (ok a) t p = returns a t p
      go (raised e) t p = raises e t p

module _ {ℓ} {S : Type 0} {A : Type ℓ} where
  pub catch-ensures :
      (P Q : Outcome A × S → Type 0) (m : Exec S A) (handler : Exc → Exec S A) (s : S)
      → P (m s)
      → ((a : A) (t : S) → P (ok a, t) → Q (ok a, t))
      → ((e : Exc) (t : S) → P (raised e, t) → Q (handler e t))
      → Q (catch m handler s)
  catch-ensures P Q m handler s p returns raises = go (m s).0 (m s).1 p
    where
      go : (r : Outcome A) (t : S) → P (r, t) → Q (catch (λ (_ : S). (r, t)) handler s)
      go (ok a) t p = returns a t p
      go (raised e) t p = raises e t p

module _ {ℓ} {S : Type 0} {A : Type ℓ} where
  pub guard-ensures :
      (Q : Outcome A × S → Type 0) (b : Bool) (e : Exc) (k : Exec S A) (s : S)
      → (b ≡ true → Q (raised e, s))
      → (b ≡ false → Q (k s))
      → Q ((raise_if b e >> k) s)
  guard-ensures Q true e k s fails passes = fails refl
  guard-ensures Q false e k s fails passes = passes refl

pub unless-ensures :
    {S : Type 0} (Q : Outcome (Unit {0}) × S → Type 0) (b : Bool) (m : Exec S (Unit {0})) (s : S)
    → (b ≡ true → Q (ok tt, s))
    → (b ≡ false → Q (m s))
    → Q (unless b m s)
unless-ensures Q true m s skipped done = skipped refl
unless-ensures Q false m s skipped done = done refl

-- A postcondition follows from another, case by case.
pub ensures-weaken {ℓ} :
    {S : Type 0} {A : Type ℓ} (P Q : Outcome A × S → Type 0) (x : Outcome A × S)
    → P x
    → ((a : A) (t : S) → P (ok a, t) → Q (ok a, t))
    → ((e : Exc) (t : S) → P (raised e, t) → Q (raised e, t))
    → Q x
ensures-weaken P Q (ok a, t) p returns raises = returns a t p
ensures-weaken P Q (raised e, t) p returns raises = raises e t p
