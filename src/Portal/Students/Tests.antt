-- ===== src/Portal/Students/Tests.antt =====
-- A grade that is out of range, and one that is not.
use mini_internet_extention.Prelude.{
  ℕ, ◌≡◌, refl, Option, none, some, [], ◌∷◌, ltb, if◌then◌else◌, isdigit, int, Text, codes, length,
  split,
}
use mini_internet_extention.Portal.Students.{Row, Form, out_of_range, updated, config_students}
use mini_internet_extention.Portal.Students.Grades.{IsGraded, config_students-IsGraded}

-- Grades without a fraction.
abbrev whole : Text → Option ℕ
whole s = if isdigit s then some (int s) else none

abbrev literal : ℕ → ℕ
literal n = n

abbrev ada : Row ℕ
ada = record {
  id = 1;
  name = codes "Ada L";
  email = none;
  team = none;
  grades = some 7 ∷ none ∷ [];
}

abbrev form : Text → Form
form grade = record {
  name = codes "Ada Lovelace";
  email = codes "a@b";
  id = some 1;
  grades = some grade ∷ some [] ∷ [];
}

config_students-IsGraded_example :
    IsGraded whole literal ltb
      (config_students whole literal ltb length (form (codes "9")) (ada ∷ [])).0
config_students-IsGraded_example =
    config_students-IsGraded whole literal ltb length (form (codes "9")) (ada ∷ []) refl

nine : config_students whole literal ltb length (form (codes "9")) (ada ∷ []) ≡ (
  record ada {
    name = codes "Ada Lovelace";
    email = some (codes "a@b");
    grades = some 9 ∷ none ∷ [];
  }
      ∷ [],
  updated,
)
unfolding config_students split int
nine = refl

-- The name and the address are changed all the same.
eleven : config_students whole literal ltb length (form (codes "11")) (ada ∷ []) ≡ (
  record ada { name = codes "Ada Lovelace"; email = some (codes "a@b") } ∷ [],
  out_of_range (codes "11"),
)
unfolding config_students split int
eleven = refl
