-- ===== src/Files/Clean/Numbers.antt =====
-- Numbers as fields of a file.
use mini_internet_extention.Prelude.{
  ℕ, ◌≡◌, refl, ap, true, [], ◌∷◌, all, arith, Text, str, is_digit, isdigit-str, int-str, ok,
}
use mini_internet_extention.Files.Clean.{is_space, parse_int}
use mini_internet_extention.Files.Clean.Written.{is_word, solid}

solid-digits : (w : Text) → all is_digit w ≡ true → solid w ≡ true
unfolding is_space
solid-digits [] h = refl
solid-digits (c ∷ w) h = ground (arith, solid-digits w)

pub is_word-str : (n : ℕ) → is_word (str n) ≡ true
is_word-str n = ground (arith, isdigit-str n, solid-digits (str n))

pub parse_int-str : (n : ℕ) → parse_int (str n) ≡ ok n
parse_int-str n = rw (isdigit-str n) (ap ok (int-str n))
