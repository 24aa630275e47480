-- ===== src/Prelude/Maps.antt =====
-- Finite maps seen as functions from keys: the abstract view of a table and of a bucket.
use mathlib.Core.Option.{Option, none, some}
use mathlib.Core.Path.{◌≡◌, fun_ext}
use mathlib.Core.Logic.{◌≢◌}
use native.Mathlib.Omega.{arith}
use dms_core.Prelude.Tests.{if◌then◌else◌}
use dms_core.Prelude.Texts.{Text, text_eq, text_eq_iff}

-- What the map has at each key.
abbrev pub View {ℓ} : Type ℓ → Type ℓ
View V = Text → Option V

module _ {ℓ} {V : Type ℓ} where
  abbrev pub put : View V → Text → V → View V
  put t k v j = if text_eq k j then some v else t j

  abbrev pub remove : View V → Text → View V
  remove t k j = if text_eq k j then none else t j

  pub remove-put : (t : View V) (k : Text) (v : V) → remove (put t k v) k ≡ remove t k
  remove-put t k v = fun_ext (λ j. ground arith)

  pub put-OnlyAt : (t : View V) (k : Text) (v : V) (j : Text) → k ≢ j → put t k v j ≡ t j
  put-OnlyAt t k v j n = ground (arith, text_eq_iff k j)

  pub remove-OnlyAt : (t : View V) (k j : Text) → k ≢ j → remove t k j ≡ t j
  remove-OnlyAt t k j n = ground (arith, text_eq_iff k j)
