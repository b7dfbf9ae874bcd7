-- ===== src/Policy/AsPath/Tests.antt =====
-- A prepended path.
use mini_internet_extention.Prelude.{◌≡◌, ◌≢◌, refl, none, [], codes, ok, err, split, join, arith}
use mini_internet_extention.Policy.Config.{value_error}
use mini_internet_extention.Policy.AsPath.{space, normalize_as_path}
use mini_internet_extention.Policy.AsPath.Normal.{IsNormal, normalize_as_path-IsNormal}

prepended : normalize_as_path (codes "1 1  2 2 7") ≡ ok (codes "1 2 7")
unfolding normalize_as_path split join
prepended = refl

no_number : normalize_as_path (codes "1 {2,3}") ≡ err value_error
unfolding normalize_as_path split
no_number = refl

not_empty : codes "1 2 7" ≢ []
not_empty e = ground arith

normalize_as_path-IsNormal_example :
    IsNormal none (split space (codes "1 2 7"))
    × (join space (split space (codes "1 2 7")) ≡ codes "1 2 7")
normalize_as_path-IsNormal_example =
    normalize_as_path-IsNormal (codes "1 1  2 2 7") (codes "1 2 7") prepended not_empty
