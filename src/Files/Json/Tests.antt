-- ===== src/Files/Json/Tests.antt =====
-- A file that is JSON at the third attempt.
use mini_internet_extention.Prelude.{
  ℕ, ◌≡◌, refl, Option, none, some, [], ◌∷◌, Text, codes, ok, if◌then◌else◌, ◌==◌, Eq_nat,
}
use mini_internet_extention.Files.Json.{read_json_safe}
use mini_internet_extention.Files.Json.Safe.{first_json, read_json_safe-first_json}

-- A parser that refuses the empty text, and gives the first code of another.
abbrev load_first : Text → Option ℕ
load_first [] = none
load_first (c ∷ s) = some c

abbrev third : ℕ → Text
third i = if i == 3 then codes "{" else []

read_json_safe-first_json_example :
    read_json_safe load_first 0 (λ i. some (third i)) 200
    ≡ ok (some (first_json load_first 0 third 1 200))
read_json_safe-first_json_example = read_json_safe-first_json load_first 0 third 199

found_third : read_json_safe load_first 0 (λ i. some (third i)) 200 ≡ ok (some b'{')
unfolding read_json_safe
found_third = refl

never_json : read_json_safe load_first 0 (λ i. some []) 4 ≡ ok (some 0)
unfolding read_json_safe
never_json = refl
