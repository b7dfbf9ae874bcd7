-- ===== src/Policy/AsPath.antt =====
-- `normalize_as_path` of bgp_policy_analyzer.py, over texts as lists of code points.
pub mod Normal
pub mod Tests
use mini_internet_extention.Prelude.{
  ℕ, Bool, true, false, List, [], ◌∷◌, ◌++◌, if◌then◌else◌, ◌==◌, ◌||◌, Option, none, some, Text,
  Eq_text, Result, ok, err, ◌>>=◌, isdigit, is_empty, split, join, str, not,
}
use mini_internet_extention.Policy.Config.{Error, value_error}

abbrev pub space : ℕ
space = b' '

abbrev pub same_as : Option Text → Text → Bool
same_as none e = false
same_as (some p) e = e == p

-- The loop over the elements of the split path; `none` is the first value of `prev`.
pub normalize_loop : Option Text → List Text → Result Error (List Text)
normalize_loop prev [] = ok []
normalize_loop prev (e ∷ pe) =
    let skipped = normalize_loop prev pe in
    let kept = normalize_loop (some e) pe >>= λ np. ok (e ∷ np) in
    if same_as prev e || is_empty e
    then skipped
    else if not (isdigit e)
    then err value_error
    else kept

unfoldable pub normalize_as_path : Text → Result Error Text
unfolding normalize_loop
normalize_as_path p = do np ← normalize_loop none (split space p); ok (join space np)
