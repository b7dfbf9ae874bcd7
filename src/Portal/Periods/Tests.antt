-- ===== src/Portal/Periods/Tests.antt =====
-- Two periods, of which one is renamed.
use mini_internet_extention.Prelude.{
  ℕ, ◌≡◌, refl, ◌+◌, true, false, some, List, [], ◌∷◌, Text, codes, length,
}
use mini_internet_extention.Portal.Periods.{
  Period, Tables, updated, new_period, delete_period, update_period, save_period,
}
use mini_internet_extention.Portal.Periods.Names.{IsDistinct, periods-IsDistinct}

abbrev period : ℕ → Text → Period
period id name = record { id = id; name = name; live = false }

abbrev tables : Tables
tables = record {
  periods = period 1 (codes "oral") ∷ period 2 (codes "written") ∷ [];
  rendezvous = [];
}

abbrev next_id : List Period → ℕ
next_id ps = length ps + 1

renamed :
    update_period 2 (some (codes "final")) (some false) tables
    ≡ (record tables { periods = period 1 (codes "oral") ∷ period 2 (codes "final") ∷ [] }, updated)
unfolding update_period save_period
renamed = refl

periods-IsDistinct_example :
    IsDistinct (new_period next_id (codes "extra") tables).0.periods
    × IsDistinct (delete_period 1 (some (codes "oral")) tables).0.periods
    × IsDistinct (update_period 1 (some (codes "oral")) (some true) tables).0.periods
periods-IsDistinct_example =
    periods-IsDistinct next_id 1 (codes "extra") (some (codes "oral")) (some true) tables refl
      ((refl, (refl, tt)), (refl, (refl, tt)))
