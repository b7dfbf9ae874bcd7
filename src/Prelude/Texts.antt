-- ===== src/Prelude/Texts.antt =====
-- Texts that the program takes apart, as lists of code points.
use Prim.Native.Nat.{ℕ, zero, suc, ◌+◌, ◌-◌, ◌*◌, ◌/◌, ◌%◌}
use Prim.Native.Char.{code}
use Prim.Native.String.{String}
use mathlib.Core.Path.{◌≡◌}
use mathlib.Core.Logic.{◌↔◌}
use mathlib.Core.Bool.{Bool, true, false, not, ◌&&◌, ◌||◌}
use mathlib.Core.List.{List, [], ◌∷◌}
use native.Mathlib.Omega.{arith}
use mini_internet_extention.Prelude.Tests.{Eq, leb, ltb, if◌then◌else◌, nat_eq}
use mini_internet_extention.Prelude.Lists.{is_empty, all}

abbrev pub Text : Type 0
Text = List ℕ

abbrev pub codes : String → Text
codes String.[] = []
codes (String.◌∷◌ c s) = code c ∷ codes s

abbrev pub text_eq : Text → Text → Bool
text_eq [] [] = true
text_eq [] (d ∷ t) = false
text_eq (c ∷ s) [] = false
text_eq (c ∷ s) (d ∷ t) = nat_eq c d && text_eq s t

pub text_eq_iff : (s t : Text) → (text_eq s t ≡ true) ↔ (s ≡ t)
text_eq_iff [] [] = ground arith
text_eq_iff [] (d ∷ t) = ground arith
text_eq_iff (c ∷ s) [] = ground arith
text_eq_iff (c ∷ s) (d ∷ t) = ground (arith, text_eq_iff s t)

instance abbrev pub Eq_text : Eq Text
Eq_text = record { beq = text_eq; beq_iff = text_eq_iff }

abbrev pub is_digit : ℕ → Bool
is_digit c = leb b'0' c && leb c b'9'

-- s.isdigit(), for ASCII
abbrev pub isdigit : Text → Bool
isdigit s = not (is_empty s) && all is_digit s

-- int(s), for a text of digits
unfoldable pub int_from : ℕ → Text → ℕ
int_from n [] = n
int_from n (c ∷ s) = int_from (n * 10 + (c - b'0')) s

unfoldable pub int : Text → ℕ
unfolding int_from
int s = int_from 0 s

-- str(n); the fuel n + 1 is enough, since a division by ten makes a number smaller.
unfoldable pub digits_of : ℕ → ℕ → Text → Text
digits_of zero n out = out
digits_of (suc fuel) n out =
    let rest = digits_of fuel (n / 10) ((b'0' + n % 10) ∷ out) in
    if ltb n 10 then (b'0' + n) ∷ out else rest

unfoldable pub str : ℕ → Text
unfolding digits_of
str n = digits_of (suc n) n []

-- s.startswith(t)
abbrev pub starts_with : Text → Text → Bool
starts_with s [] = true
starts_with [] (d ∷ t) = false
starts_with (c ∷ s) (d ∷ t) = nat_eq c d && starts_with s t

-- `t in s`, for texts
unfoldable pub contains : Text → Text → Bool
contains t [] = is_empty t
contains t (c ∷ s) = starts_with (c ∷ s) t || contains t s
