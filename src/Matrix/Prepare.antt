-- ===== src/Matrix/Prepare.antt =====
-- `prepare_matrix` of routing_project_server/app.py: the files, the two checks, and the cache that a
-- background worker writes. The times are left out.
pub mod Shown
pub mod Tests
use mini_internet_extention.Prelude.{
  ℕ, String, Bool, true, false, not, ◌&&◌, Option, none, some, List, [], ◌∷◌, map, if◌then◌else◌,
  Text, Result, ok, err, ◌>>=◌,
}
use mini_internet_extention.Dict.{Dict}
use mini_internet_extention.Policy.Config.{Side}
use mini_internet_extention.Files.Clean.{file_not_found}
use mini_internet_extention.Files.Clean as Files
use mini_internet_extention.Files.Connections.{Linked, parse_as_connections}
use mini_internet_extention.Files.Tables.{parse_as_config, parse_matrix_connectivity}
use mini_internet_extention.Files.Json.{Entry, parse_looking_glass_json}
use mini_internet_extention.Matrix.Connectivity.{AsData, out_of_fuel, check_connectivity}
use mini_internet_extention.Matrix.Connectivity as Checks
use mini_internet_extention.Matrix.Validity.{RouterBgp, LookingGlasses, check_validity}

-- An exception of a parser, or of a check.
pub data Failure : Type 0 where
  of_file : Files.Error → Failure
  of_check : Checks.Error → Failure

-- The files of config['LOCATIONS'], and the JSON of the looking glasses: `load` parses a text, and
-- `no_bgp` is the JSON of a router without BGP.
pub record Locations : Type 0 where
  pub as_config : Option Text
  pub config_directory : Text → Option Text
  pub as_connections : Option Text
  pub groups : List (Entry (List (Entry (Option (ℕ → Option Text)))))
  pub matrix : Option Text
  pub load : Text → Option RouterBgp
  pub no_bgp : RouterBgp

-- `connectivity` and `validity`
abbrev pub Results : Type 0
Results = Dict (Dict Bool) × Dict (Dict Bool)

abbrev pub opened : Option Text → Result Files.Error Text
opened none = err file_not_found
opened (some file) = ok file

abbrev pub file_result : {A : Type 0} → Result Files.Error A → Result Failure A
file_result (ok a) = ok a
file_result (err e) = err (of_file e)

abbrev pub check_result : {A : Type 0} → Result Checks.Error A → Result Failure A
check_result (ok a) = ok a
check_result (err e) = err (of_check e)

-- With 200 attempts a file that is there has a value.
abbrev value_or : RouterBgp → String × Option RouterBgp → String × RouterBgp
value_or no_bgp (name, none) = (name, no_bgp)
value_or no_bgp (name, some value) = (name, value)

abbrev pub looking_glasses : RouterBgp → Dict (List (String × Option RouterBgp)) → LookingGlasses
looking_glasses no_bgp d = map (λ g. (g.0, map (value_or no_bgp) g.1)) d

-- From "Load all required files" to "Compute results".
pub compute : ℕ → Locations → Result Failure Results
compute fuel l = do
  as_file ← file_result (opened l.as_config)
  as_data ← file_result (parse_as_config as_file (some l.config_directory))
  connections_file ← file_result (opened l.as_connections)
  connections ← file_result (parse_as_connections connections_file)
  looking_glass_data ← file_result (parse_looking_glass_json l.load l.no_bgp l.groups)
  matrix_file ← file_result (opened l.matrix)
  connectivity_data ← file_result (parse_matrix_connectivity matrix_file)
  connectivity ← check_result (check_connectivity as_data connectivity_data)
  validity ← check_result (
      check_validity fuel as_data (map (λ c. (c.0.side, c.1.side)) connections)
        (looking_glasses l.no_bgp looking_glass_data))
  ok (connectivity, validity)

-- The cache file after the call, and what the call returns.
abbrev pub Call : Type 0
Call = Option Results × Result Failure Results

-- A queue that does not end leaves the call without an answer.
abbrev answered : Bool → Option Results → Result Failure Results → Option Call
answered writes cache_file (err (of_check out_of_fuel)) = none
answered writes cache_file (err e) = some (cache_file, err e)
answered writes cache_file (ok results) =
    some (if writes then some results else cache_file, ok results)

-- Without a cache the matrices are empty; `none` is a call that does not end.
pub prepare_matrix : ℕ → Bool → Bool → Locations → Option Results → Option Call
unfolding compute
prepare_matrix fuel background_workers worker l cache_file =
    if background_workers && not worker
    then some (cache_file, ok (elim cache_file [ none ↦ ([], []) | some results ↦ results ]))
    else answered (background_workers && worker) cache_file (compute fuel l)
