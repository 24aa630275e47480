-- ===== src/Domain/Exec/Quiet.antt =====
-- Calls that change nothing.
use dms_core.Prelude.{Bool, ◌≡◌, refl, ◌∙◌}
use dms_core.Domain.Errors.{Exc}
use dms_core.Domain.Exec.{Exec, pure, raise, raise_if, ◌>>=◌}
use dms_core.Domain.Exec.Rules.{bind-ensures}

-- A call that leaves the state as it is, whether it returns or raises.
pub record Quiet {ℓ} {S : Type 0} {A : Type ℓ} (m : Exec S A) : Type 0 where
  pub at : (s : S) → (m s).1 ≡ s

module _ {S : Type 0} where
  pub raise_if-Quiet : (b : Bool) (e : Exc) → Quiet {S = S} (raise_if b e)
  raise_if-Quiet b e = record { at = λ s. refl }

  module _ {A : Type 0} where
    pub pure-Quiet : (a : A) → Quiet {S = S} (pure a)
    pure-Quiet a = record { at = λ s. refl }

    pub raise-Quiet : (e : Exc) → Quiet {S = S} (raise {A = A} e)
    raise-Quiet e = record { at = λ s. refl }

  module _ {A B : Type 0} where
    pub bind-Quiet :
        (m : Exec S A) (f : A → Exec S B) → Quiet m → ((a : A) → Quiet (f a)) → Quiet (m >>= f)
    bind-Quiet m f p q = record {
      at = λ s.
          bind-ensures (λ x. x.1 ≡ s) (λ x. x.1 ≡ s) m f s (p.at s) (λ a t h. (q a).at t ∙ h)
            (λ e t h. h);
    }

pub ruleset quiet = (raise_if-Quiet, pure-Quiet, raise-Quiet, bind-Quiet)
