-- ===== src/Portal/Students/Grades.antt =====
-- Only grades from 0 to 10 are saved.
use mini_internet_extention.Prelude.{
  ℕ, zero, suc, ◌∙◌, ◌≡◌, refl, Bool, true, not, ◌&&◌, Option, none, some, List, [], ◌∷◌, all,
  all-append, arith, Bool-cases, Option-cases, inl, inr, Text, Eq_nat, ltb, length, split,
}
use mini_internet_extention.Portal.Students.{
  Row, Form, row_with, row_named, save_row, read_grades, no_grades, update_student, add_student,
  config_students,
}

module _ {G : Type 0} (float : Text → Option G) (literal : ℕ → G) (less : G → G → Bool) where
  abbrev pub is_grade : Option G → Bool
  is_grade none = true
  is_grade (some g) = not (less g (literal 0)) && not (less (literal 10) g)

  abbrev pub is_graded : Row G → Bool
  is_graded s = all is_grade s.grades

  -- Each grade of the table is missing, or neither below 0 nor above 10.
  abbrev pub IsGraded : List (Row G) → Type 0
  IsGraded table = all is_graded table ≡ true

  all-read_grades :
      (fields : List (Option Text)) → all is_grade (read_grades float literal less fields).0 ≡ true
  unfolding read_grades
  all-read_grades [] = refl
  all-read_grades (none ∷ rest) = all-read_grades rest
  all-read_grades (some s ∷ rest) = ground (arith, all-read_grades rest)

  IsGraded-save_row :
      (s : Row G) (table : List (Row G))
      → is_graded s ≡ true
      → IsGraded table
      → IsGraded (save_row s table)
  unfolding save_row
  IsGraded-save_row s [] h k = refl
  IsGraded-save_row s (t ∷ ts) h k = ground (arith, h, IsGraded-save_row s ts h)

  is_graded-row_with :
      (i : ℕ) (table : List (Row G)) (s : Row G)
      → row_with i table ≡ some s
      → IsGraded table
      → is_graded s ≡ true
  is_graded-row_with i [] s h k = absurd (ground (arith, h))
  is_graded-row_with i (t ∷ ts) s h k = ground (arith, h, is_graded-row_with i ts s)

  IsGraded-update_student :
      (i : ℕ) (form : Form) (table : List (Row G))
      → IsGraded table
      → IsGraded (update_student float literal less i form table).0
  unfolding update_student
  IsGraded-update_student i form table k = elim (Option-cases (row_with i table)) [
    | inl missing ↦ rw (missing, update_student) k
    | inr (s, e) ↦
        let graded = is_graded-row_with i table s e k in
        let renamed : Row G = record s { name = form.name; email = some form.email } in
        let read = read_grades float literal less form.grades in
        rw (e, update_student)
          (elim (Option-cases read.1) [
            | inr (flash, f) ↦ rw f (IsGraded-save_row renamed table graded k)
            | inl fine ↦ rw fine (
                IsGraded-save_row (record renamed { grades = read.0 }) table
                  (all-read_grades form.grades) k)
          ])
  ]

  all-no_grades : (n : ℕ) → all is_grade (no_grades n) ≡ true
  unfolding no_grades
  all-no_grades zero = refl
  all-no_grades (suc n) = all-no_grades n

  IsGraded-add_student :
      (new_id : List (Row G) → ℕ) (form : Form) (table : List (Row G))
      → IsGraded table
      → IsGraded (add_student float literal less new_id form table).0
  unfolding add_student
  IsGraded-add_student new_id form table k = elim (Option-cases (row_named form.name table)) [
    | inr (s, e) ↦ rw (e, add_student) k
    | inl fresh ↦
        rw (fresh, add_student) (all-append is_graded table _ ∙ ground (arith, k, all-no_grades 12))
  ]

  -- If each grade of the table is missing or neither below 0 nor above 10, it stays so whatever
  -- form config_students gets.
  pub config_students-IsGraded :
      (new_id : List (Row G) → ℕ) (form : Form) (table : List (Row G))
      → IsGraded table
      → IsGraded (config_students float literal less new_id form table).0
  unfolding config_students
  config_students-IsGraded new_id form table k =
      elim (Bool-cases (ltb (length (split b' ' form.name)) 2)) [
        | inl short ↦ rw short k
        | inr long ↦ elim (Option-cases form.id) [
          | inl fresh ↦ rw long (rw fresh (IsGraded-add_student new_id form table k))
          | inr (i, e) ↦ rw long (rw e (IsGraded-update_student i form table k))
        ]
      ]
