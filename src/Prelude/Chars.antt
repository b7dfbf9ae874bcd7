-- ===== src/Prelude/Chars.antt =====
-- Texts as native strings, and back.
use Prim.Native.Nat.{ℕ, Ordering, compare}
use Prim.Native.Char.{Char, char, code, nul, IsScalar, IsLt}
use Prim.Native.String.{String}
use mathlib.Core.Path.{◌≡◌, refl}
use mathlib.Core.List.{[], ◌∷◌}
use text.Mathlib.TextEquality.{Char-path}
use mini_internet_extention.Prelude.Texts.{Text, codes}

-- `IsScalar n` unfolds to this of three comparisons.
abbrev InPlanes : Ordering → Ordering → Type 0
InPlanes Ordering.lt o = IsLt o
InPlanes Ordering.eq _ = ⊥
InPlanes Ordering.gt _ = ⊥

abbrev Scalar : Ordering → Ordering → Ordering → Type 0
Scalar Ordering.lt _ _ = Unit
Scalar Ordering.eq o p = InPlanes o p
Scalar Ordering.gt o p = InPlanes o p

is_lt? : (o : Ordering) → Dec (IsLt o)
is_lt? Ordering.lt = yes tt
is_lt? Ordering.eq = no (λ x. x)
is_lt? Ordering.gt = no (λ x. x)

is_in_planes? : (o p : Ordering) → Dec (InPlanes o p)
is_in_planes? Ordering.lt p = is_lt? p
is_in_planes? Ordering.eq p = no (λ x. x)
is_in_planes? Ordering.gt p = no (λ x. x)

is_scalar? : (o p q : Ordering) → Dec (Scalar o p q)
is_scalar? Ordering.lt p q = yes tt
is_scalar? Ordering.eq p q = is_in_planes? p q
is_scalar? Ordering.gt p q = is_in_planes? p q

-- The character with a number; U+0000 where there is none.
char_if : (n : ℕ) → Dec (IsScalar n) → Char
char_if n (yes p) = char n p
char_if n (no _) = nul

unfoldable pub chr : ℕ → Char
unfolding is_lt? is_in_planes? is_scalar? char_if
chr n = char_if n (is_scalar? (compare n 55296) (compare 57343 n) (compare n 1114112))

unfoldable pub to_string : Text → String
unfolding chr
to_string [] = String.[]
to_string (n ∷ s) = String.◌∷◌ (chr n) (to_string s)

char_if-code : (n : ℕ) (p : IsScalar n) (d : Dec (IsScalar n)) → char_if n d ≡ char n p
unfolding char_if
char_if-code n p (yes q) = Char-path (char n q) (char n p) refl
char_if-code n p (no r) = absurd (r p)

chr-code : (c : Char) → chr (code c) ≡ c
unfolding chr
chr-code (char n p) =
    char_if-code n p (is_scalar? (compare n 55296) (compare 57343 n) (compare n 1114112))

-- A string comes back from its code points.
pub to_string-codes : (s : String) → to_string (codes s) ≡ s
unfolding to_string
to_string-codes String.[] = refl
to_string-codes (String.◌∷◌ c s) = λ i. String.◌∷◌ (chr-code c i) (to_string-codes s i)
