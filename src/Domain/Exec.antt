-- ===== src/Domain/Exec.antt =====
-- A call that reads and writes a state and may raise. What was written before a raise stays
-- written, so the state comes back with an exception too.
pub mod Rules
pub mod Quiet
use dms_core.Prelude.{Bool, true, false, if◌then◌else◌}
use dms_core.Domain.Errors.{Exc}

pub data Outcome {ℓ} (A : Type ℓ) : Type ℓ where
  ok : A → Outcome A
  raised : Exc → Outcome A

abbrev pub Exec {ℓ} : Type 0 → Type ℓ → Type ℓ
Exec S A = S → Outcome A × S

module _ {ℓ} {S : Type 0} {A : Type ℓ} where
  abbrev pub pure : A → Exec S A
  pure a s = (ok a, s)

  abbrev pub raise : Exc → Exec S A
  raise e s = (raised e, s)

  abbrev pub gets : (S → A) → Exec S A
  gets f s = (ok (f s), s)

  -- `try: … except Exception as exc: …`
  abbrev pub catch : Exec S A → (Exc → Exec S A) → Exec S A
  catch m handler s = let (r, s') = m s in elim r [ ok a ↦ (ok a, s') | raised e ↦ handler e s' ]

module _ {ℓ κ} {S : Type 0} {A : Type ℓ} {B : Type κ} where
  infixl 5 ◌>>=◌
  abbrev pub ◌>>=◌ : Exec S A → (A → Exec S B) → Exec S B
  ◌>>=◌ m f s = let (r, s') = m s in elim r [ ok a ↦ f a s' | raised e ↦ (raised e, s') ]

module _ {κ} {S : Type 0} {B : Type κ} where
  infixl 5 ◌>>◌
  abbrev pub ◌>>◌ : Exec S (Unit {0}) → Exec S B → Exec S B
  m >> k = m >>= λ _. k

-- `if c: raise e`
abbrev pub raise_if : {S : Type 0} → Bool → Exc → Exec S (Unit {0})
raise_if c e s = (if c then raised e else ok tt, s)

-- `if not c: m`
abbrev pub unless : {S : Type 0} → Bool → Exec S (Unit {0}) → Exec S (Unit {0})
unless true m s = (ok tt, s)
unless false m s = m s
