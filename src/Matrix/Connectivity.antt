-- ===== src/Matrix/Connectivity.antt =====
-- `check_connectivity`: the latest ping status of each pair of ASes.
pub mod Latest
pub mod Tests
use mini_internet_extention.Prelude.{
  ℕ, String, Bool, true, false, not, Option, none, some, List, [], ◌∷◌, if◌then◌else◌, ◌==◌,
  Eq_string, Result, ok, err,
}
use mini_internet_extention.Dict.{Dict, lookup, put}

-- The exceptions of this file; `out_of_fuel` is the model's own.
pub data Error : Type 0 where
  key_error value_error unbound_local_error out_of_fuel : Error

-- `as_data[asn]`: its type and, if its file was found, its routers.
pub record AsData : Type 0 where
  pub type : String
  pub routers : Option (List String)

abbrev pub is_as : AsData → Bool
is_as d = d.type == "AS"

-- The inner loop, over the destinations.
pub all_false : Dict AsData → Dict Bool → Dict Bool
all_false [] row = row
all_false ((dst, d) ∷ rest) row = all_false rest (if is_as d then put dst false row else row)

-- The outer loop, over the sources.
pub blank : Dict AsData → Dict AsData → Dict (Dict Bool) → Dict (Dict Bool)
blank as_data [] connected = connected
blank as_data ((src, d) ∷ rest) connected =
    blank as_data rest (if is_as d then put src (all_false as_data []) connected else connected)

-- `connected[src_asn][dst_asn] = status`
pub fill : List (ℕ × ℕ × Bool) → Dict (Dict Bool) → Result Error (Dict (Dict Bool))
fill [] connected = ok connected
fill ((src, dst, status) ∷ rest) connected = elim (lookup src connected) [
  | none ↦ err key_error
  | some row ↦ fill rest (put src (put dst status row) connected)
]

unfoldable pub check_connectivity :
    Dict AsData → List (ℕ × ℕ × Bool) → Result Error (Dict (Dict Bool))
unfolding all_false blank fill
check_connectivity as_data connectivity_data = fill connectivity_data (blank as_data as_data [])
