-- ===== src/Portal/Dashboard.antt =====
-- `dashboard` of the admin server: the measurements of a stretch of time, thinned out.
pub mod Bounds
pub mod Tests
use mini_internet_extention.Prelude.{
  ℕ, zero, suc, ◌-◌, ◌/◌, Option, none, some, List, [], ◌∷◌, if◌then◌else◌, ltb, length,
}

module _ {A : Type 0} where
  -- Leave out `skip` elements, then take every `step`-th.
  pub every_from : ℕ → ℕ → List A → List A
  every_from skip step [] = []
  every_from zero step (x ∷ xs) = x ∷ every_from (step - 1) step xs
  every_from (suc skip) step (x ∷ xs) = every_from skip step xs

  -- measurement_arr[::step]
  pub every : ℕ → List A → List A
  every step xs = every_from 0 step xs

  -- `separator`, whose division fails for a limit of 0.
  pub separator : ℕ → List A → Option ℕ
  separator zero measurement_arr = none
  separator (suc m) measurement_arr =
      if ltb (length measurement_arr) (suc m) then some 1 else some (length measurement_arr / suc m)

  pub dashboard : ℕ → List A → Option (List A)
  dashboard max_results measurement_arr = elim (separator max_results measurement_arr) [
    | none ↦ none
    | some step ↦ some (every step measurement_arr)
  ]
