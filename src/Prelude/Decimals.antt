-- ===== src/Prelude/Decimals.antt =====
-- A number comes back from its decimal digits.
use Prim.Native.Nat.{ℕ, zero, suc, ◌+◌, ◌/◌, ◌%◌, ◌<◌}
use mathlib.Core.Path.{◌≡◌, refl, ap, ◌∙◌}
use mathlib.Core.Bool.{true, false}
use mathlib.Core.Logic.{inl, inr}
use mathlib.Core.List.{[], ◌∷◌}
use native.Mathlib.Omega.{arith}
use mini_internet_extention.Prelude.Tests.{ltb, Bool-cases}
use mini_internet_extention.Prelude.Lists.{is_empty, all}
use mini_internet_extention.Prelude.Texts.{Text, is_digit, isdigit, int_from, int, digits_of, str}

int_from-digits_of :
    (fuel n : ℕ) (out : Text) → n < fuel → int_from 0 (digits_of fuel n out) ≡ int_from n out
unfolding int_from digits_of
int_from-digits_of zero n out h = absurd (omega (arith, h))
int_from-digits_of (suc fuel) n out h = elim (Bool-cases (ltb n 10)) [
  | inl small ↦ rw small (ap (λ m. int_from m out) (omega arith))
  | inr big ↦ rw big (
      int_from-digits_of fuel (n / 10) ((b'0' + n % 10) ∷ out) (ground (arith, big, h))
      ∙ ap (λ m. int_from m out) (omega arith))
]

-- int(str(n))
pub int-str : (n : ℕ) → int (str n) ≡ n
unfolding int str
int-str n = int_from-digits_of (suc n) n [] (omega arith)

all-digits_of :
    (fuel n : ℕ) (out : Text) → all is_digit out ≡ true → all is_digit (digits_of fuel n out) ≡ true
unfolding digits_of
all-digits_of zero n out h = h
all-digits_of (suc fuel) n out h =
    ground (arith, all-digits_of fuel (n / 10) ((b'0' + n % 10) ∷ out))

pub all-str : (n : ℕ) → all is_digit (str n) ≡ true
unfolding str
all-str n = all-digits_of (suc n) n [] refl

is_empty-digits_of : (fuel n d : ℕ) (out : Text) → is_empty (digits_of fuel n (d ∷ out)) ≡ false
unfolding digits_of
is_empty-digits_of zero n d out = refl
is_empty-digits_of (suc fuel) n d out =
    ground (arith, is_empty-digits_of fuel (n / 10) (b'0' + n % 10) (d ∷ out))

is_empty-str : (n : ℕ) → is_empty (str n) ≡ false
unfolding str digits_of
is_empty-str n = ground (arith, is_empty-digits_of n (n / 10) (b'0' + n % 10) [])

pub isdigit-str : (n : ℕ) → isdigit (str n) ≡ true
isdigit-str n = ground (arith, all-str n, is_empty-str n)
