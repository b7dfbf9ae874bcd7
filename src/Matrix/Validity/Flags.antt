-- ===== src/Matrix/Validity/Flags.antt =====
-- What the flags of check_validity mean.
use mini_internet_extention.Prelude.{
  ℕ, ◌≡◌, ap, ◌∙◌, refl, ◌↔◌, Bool, true, false, not, ◌&&◌, List, [], ◌∷◌, Text, ok, Result-cases,
  inl, inr, arith,
}
use mini_internet_extention.Dict.{Dict}
use mini_internet_extention.Policy.Collect.{Has}
use mini_internet_extention.Matrix.Node.{Node}
use mini_internet_extention.Matrix.Checker.{path_checker}
use mini_internet_extention.Matrix.Validity.{path_numbers, check_paths}

-- `path_checker` finds this path right.
abbrev pub IsRight : Dict Node → Text → Type 0
IsRight dic_as path =
    (numbers : List ℕ) × (path_numbers path ≡ ok numbers) × (path_checker dic_as numbers ≡ ok false)

-- If the check of the paths to one destination returns, its flag is true exactly if it was true
-- before and path_checker finds each of the paths right.
pub check_paths_correct :
    (dic_as : Dict Node) (valid flag : Bool) (paths : List Text)
    → check_paths dic_as valid paths ≡ ok flag
    → (flag ≡ true) ↔ ((valid ≡ true) × ((path : Text) → Has path paths → IsRight dic_as path))
unfolding check_paths
check_paths_correct dic_as valid flag [] e =
    (λ t. (ground arith, λ path h. absurd h), λ (v, _). ground arith)
check_paths_correct dic_as valid flag (p ∷ ps) e = elim (Result-cases (path_numbers p)) [
  | inr (x, bad) ↦ absurd (ground (arith, bad))
  | inl (numbers, read) ↦ elim (Result-cases (path_checker dic_as numbers)) [
    | inr (x, bad) ↦ absurd (ground (arith, read, bad))
    | inl (wrong, judged) ↦
        let rest : check_paths dic_as (valid && not wrong) ps ≡ ok flag =
          ground (arith, read, judged) in
        let (to, from) = check_paths_correct dic_as (valid && not wrong) flag ps rest in
        (
          λ t.
              let (both, right) = to t in
              (
                ground arith,
                λ path h. elim h [
                  | inl same ↦
                      rw same (numbers, read, judged ∙ ap ok (wrong_false valid wrong both))
                  | inr below ↦ right path below
                ],
              ),
          λ (v, right).
              let (ns, read', judged') = right p (inl refl) in
              let same : numbers ≡ ns = ground (arith, read, read') in
              let fine : wrong ≡ false = ground (arith, rw same at judged, judged') in
              from (ground arith, λ path h. right path (inr h)),
        )
  ]
]
  where
    wrong_false : (v w : Bool) → (v && not w) ≡ true → w ≡ false
    wrong_false v w h = ground arith
