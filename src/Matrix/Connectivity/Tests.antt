-- ===== src/Matrix/Connectivity/Tests.antt =====
-- Two ASes and an IXP, with two measurements of one pair.
use mini_internet_extention.Prelude.{
  ℕ, ◌≡◌, refl, Bool, true, false, none, some, List, [], ◌∷◌, Eq_nat, ok,
}
use mini_internet_extention.Dict.{Dict, put}
use mini_internet_extention.Matrix.Connectivity.{AsData, check_connectivity}
use mini_internet_extention.Matrix.Connectivity.Latest.{cell, check_connectivity-latest}

abbrev as_data : Dict AsData
as_data =
    (1, record { type = "AS"; routers = none })
    ∷ (2, record { type = "AS"; routers = none })
    ∷ (80, record { type = "IXP"; routers = none })
    ∷ []

abbrev measured : List (ℕ × ℕ × Bool)
measured = (1, 2, false) ∷ (1, 2, true) ∷ []

abbrev matrix : Dict (Dict Bool)
matrix = (1, (1, false) ∷ (2, true) ∷ []) ∷ (2, (1, false) ∷ (2, false) ∷ []) ∷ []

connected : check_connectivity as_data measured ≡ ok matrix
unfolding check_connectivity put
connected = refl

check_connectivity-latest_example : cell 1 2 matrix ≡ some true
check_connectivity-latest_example =
    check_connectivity-latest as_data measured matrix 1 2 refl refl connected
