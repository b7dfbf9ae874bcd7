-- ===== src/Portal/Dashboard/Tests.antt =====
-- Seven measurements for at most three.
use mini_internet_extention.Prelude.{
  ℕ, ◌≡◌, refl, ◌≤◌, ◌<◌, ◌*◌, some, List, [], ◌∷◌, length, arith,
}
use mini_internet_extention.Portal.Dashboard.{every_from, every, separator, dashboard}
use mini_internet_extention.Portal.Dashboard.Bounds.{dashboard-bound}

abbrev seven : List ℕ
seven = 10 ∷ 11 ∷ 12 ∷ 13 ∷ 14 ∷ 15 ∷ 16 ∷ []

every_second : dashboard 3 seven ≡ some (10 ∷ 12 ∷ 14 ∷ 16 ∷ [])
unfolding dashboard separator every every_from
every_second = refl

dashboard-bound_example :
    (out : List ℕ) × (dashboard 3 seven ≡ some out)
    × (length out ≤ 2 * 3)
    × (length seven < 3 → out ≡ seven)
dashboard-bound_example = dashboard-bound 3 seven (omega arith)
