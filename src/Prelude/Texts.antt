-- ===== src/Prelude/Texts.antt =====
-- Python's `str` as the list of its code points, with the methods that the program calls.
use Prim.Native.Char.{code}
use Prim.Native.String.{String}
use Prim.Native.Nat.{ℕ}
use mathlib.Core.Path.{◌≡◌, refl}
use mathlib.Core.Logic.{◌↔◌}
use mathlib.Core.Bool.{Bool, true, false, ◌&&◌, ◌||◌}
use mathlib.Core.Option.{Option, none, some}
use mathlib.Core.List.{List, [], ◌∷◌, ◌++◌, reverse}
use native.Mathlib.Omega.{arith}
use dms_core.Prelude.Tests.{leb, ◌==◌, if◌then◌else◌}

abbrev pub Text : Type 0
Text = List ℕ

-- A literal.
abbrev pub codes : String → Text
codes String.[] = []
codes (String.◌∷◌ c s) = code c ∷ codes s

-- `s == t`
unfoldable pub text_eq : Text → Text → Bool
text_eq [] [] = true
text_eq (a ∷ s) (b ∷ t) = (a == b) && text_eq s t
text_eq _ _ = false

pub text_eq_iff : (s t : Text) → (text_eq s t ≡ true) ↔ (s ≡ t)
unfolding text_eq
text_eq_iff [] [] = ((λ _. refl), (λ _. refl))
text_eq_iff [] (b ∷ t) = ((λ h. cc), (λ h. cc))
text_eq_iff (a ∷ s) [] = ((λ h. cc), (λ h. cc))
text_eq_iff (a ∷ s) (b ∷ t) = ground (arith, text_eq_iff s t)

pub text_eq_refl : (s : Text) → text_eq s s ≡ true
text_eq_refl s = (text_eq_iff s s).1 refl

-- `str.isspace` of one character
unfoldable pub is_space : ℕ → Bool
is_space c =
    (leb 9 c && leb c 13)
    || (leb 28 c && leb c 32)
    || (c == 0x85)
    || (c == 0xa0)
    || (c == 0x1680)
    || (leb 0x2000 c && leb c 0x200a)
    || (c == 0x2028)
    || (c == 0x2029)
    || (c == 0x202f)
    || (c == 0x205f)
    || (c == 0x3000)

unfoldable pub lstrip : Text → Text
unfolding is_space
lstrip [] = []
lstrip (c ∷ s) = if is_space c then lstrip s else c ∷ s

-- `s.strip()`
unfoldable pub strip : Text → Text
unfolding lstrip
strip s = reverse (lstrip (reverse (lstrip s)))

-- `not s`
abbrev pub is_empty : Text → Bool
is_empty [] = true
is_empty (_ ∷ _) = false

-- `not s.strip()`
unfoldable pub is_blank : Text → Bool
unfolding strip
is_blank s = is_empty (strip s)

-- `s.replace(a, b)` for one character each
unfoldable pub replace_char : ℕ → ℕ → Text → Text
replace_char a b [] = []
replace_char a b (c ∷ s) = (if c == a then b else c) ∷ replace_char a b s

-- `s.replace("..", ".")`: the pairs are taken from the left and do not overlap
unfoldable pub replace_dots : Text → Text
replace_dots [] = []
replace_dots (c ∷ []) = c ∷ []
replace_dots (c ∷ d ∷ s) =
    let both = b'.' ∷ replace_dots s in
    let one = c ∷ replace_dots (d ∷ s) in if (c == b'.') && (d == b'.') then both else one

-- `s.startswith(p)`
unfoldable pub starts_with : Text → Text → Bool
starts_with s [] = true
starts_with [] (b ∷ p) = false
starts_with (a ∷ s) (b ∷ p) = (a == b) && starts_with s p

pub starts_with-append : (p s : Text) → starts_with (p ++ s) p ≡ true
unfolding starts_with
starts_with-append [] [] = refl
starts_with-append [] (a ∷ s) = refl
starts_with-append (a ∷ p) s = ground (arith, starts_with-append p s)

-- `a or b` on optional texts
abbrev pub first_text : Option Text → Option Text → Option Text
first_text none other = other
first_text (some []) other = other
first_text (some (c ∷ s)) other = some (c ∷ s)
