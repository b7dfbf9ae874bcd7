-- ===== src/Portal/Students.antt =====
-- `config_students` of the admin server: the admin adds a student, or changes one and the grades.
-- A grade is a floating-point number: float(), the numbers of Python's literals and `<` on floats
-- are parameters.
pub mod Grades
pub mod Tests
use mini_internet_extention.Prelude.{
  ℕ, zero, suc, Bool, true, false, ◌||◌, Option, none, some, List, [], ◌∷◌, ◌++◌, if◌then◌else◌,
  ◌==◌, Eq_nat, Eq_text, ltb, length, Text, split, is_empty,
}

module _ (G : Type 0) where
  -- A row of the table student: `grades` are the twelve columns from P1Q1 to midterm2.
  pub record Row : Type 0 where
    pub id : ℕ
    pub name : Text
    pub email : Option Text
    pub team : Option ℕ
    pub grades : List (Option G)

-- `request.form`, with the twelve fields of the grades; `id` is `none` where it is missing.
pub record Form : Type 0 where
  pub name : Text
  pub email : Text
  pub id : Option ℕ
  pub grades : List (Option Text)

pub data Flash : Type 0 where
  short_name updated exists_already added failed : Flash
  not_number out_of_range : Text → Flash

module _ {G : Type 0} where
  -- `query(Student).get(i)`
  abbrev row_with : ℕ → List (Row G) → Option (Row G)
  row_with i [] = none
  row_with i (s ∷ ss) = if i == s.id then some s else row_with i ss

  -- `query(Student).filter(Student.name == name).first()`
  abbrev row_named : Text → List (Row G) → Option (Row G)
  row_named name [] = none
  row_named name (s ∷ ss) = if s.name == name then some s else row_named name ss

  -- `UPDATE student SET … WHERE id=…`
  save_row : Row G → List (Row G) → List (Row G)
  save_row s [] = []
  save_row s (t ∷ ts) = (if t.id == s.id then s else t) ∷ save_row s ts

  -- The default of each column.
  no_grades : ℕ → List (Option G)
  no_grades zero = []
  no_grades (suc n) = none ∷ no_grades n

  module _ (float : Text → Option G) (literal : ℕ → G) (less : G → G → Bool) where
    -- The loop on the fields: the grades, or the message at the first one that is refused.
    read_grades : List (Option Text) → List (Option G) × Option Flash
    read_grades [] = ([], none)
    read_grades (none ∷ rest) = let (gs, f) = read_grades rest in (none ∷ gs, f)
    read_grades (some s ∷ rest) =
        let (gs, f) = read_grades rest in
        if is_empty s then (none ∷ gs, f) else elim (float s) [
          | none ↦ ([], some (not_number s))
          | some g ↦
              if less g (literal 0) || less (literal 10) g
              then ([], some (out_of_range s))
              else (some g ∷ gs, f)
        ]

    -- "Update existing student": the name and the address are saved also with a faulty grade.
    update_student : ℕ → Form → List (Row G) → List (Row G) × Flash
    unfolding read_grades save_row
    update_student i form table = elim (row_with i table) [
      | none ↦ (table, failed)
      | some s ↦
          let renamed = record s { name = form.name; email = some form.email } in
          let (gs, faulty) = read_grades form.grades in
          elim faulty [
            | some flash ↦ (save_row renamed table, flash)
            | none ↦ (save_row (record renamed { grades = gs }) table, updated)
          ]
    ]

    -- "Add new student"; `new_id` is the key that the database gives to a new row, which has no
    -- grades.
    add_student : (List (Row G) → ℕ) → Form → List (Row G) → List (Row G) × Flash
    add_student new_id form table = elim (row_named form.name table) [
      | some s ↦ (table, exists_already)
      | none ↦ (
        table
            ++ record {
              id = new_id table;
              name = form.name;
              email = if is_empty form.email then none else some form.email;
              team = none;
              grades = no_grades 12;
            }
              ∷ [],
        added,
      )
    ]

    unfoldable pub config_students : (List (Row G) → ℕ) → Form → List (Row G) → List (Row G) × Flash
    unfolding update_student add_student no_grades
    config_students new_id form table =
        if ltb (length (split b' ' form.name)) 2 then (table, short_name) else elim form.id [
          | some i ↦ update_student i form table
          | none ↦ add_student new_id form table
        ]
