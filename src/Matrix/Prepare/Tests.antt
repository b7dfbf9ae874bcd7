-- ===== src/Matrix/Prepare/Tests.antt =====
-- One run of the worker on the files of two ASes whose routers do not run BGP yet.
use mini_internet_extention.Prelude.{
  ℕ, ◌≡◌, refl, Bool, true, false, none, some, List, [], ◌∷◌, ◌++◌, Text, codes, ok, split, int,
  to_string, insert,
}
use mini_internet_extention.Dict.{Dict}
use mini_internet_extention.Files.Json.{Entry, parse_looking_glass_json}
use mini_internet_extention.Matrix.Connectivity.{AsData, check_connectivity}
use mini_internet_extention.Matrix.Connectivity.Latest.{cell, latest, is_as_key}
use mini_internet_extention.Matrix.Validity.{
  RouterBgp, check_validity, add_connections, add_connection, compute_all, join_by_role,
  check_sources, row_of, get_path_to_as, paths_of_routers, get_path_from_router, check_destinations,
  merge_paths, add_result,
}
use mini_internet_extention.Matrix.Node.{
  compute_customers_rec, queue_loop, compute_providers_rec, compute_peers_rec,
}
use mini_internet_extention.Files.Tables.{parse_as_config, parse_matrix_connectivity}
use mini_internet_extention.Files.Clean.{each_row}
use mini_internet_extention.Files.Connections.{parse_as_connections}
use mini_internet_extention.Matrix.Checker.{node_of}
use mini_internet_extention.Matrix.Prepare.{Locations, Results, prepare_matrix}
use mini_internet_extention.Matrix.Prepare.Shown.{as_data_of, measured_of, prepare_matrix-latest}

abbrev two_lines : Text → Text → Text
two_lines s t = s ++ 10 ∷ t

abbrev no_bgp : RouterBgp
no_bgp = record { local_as = none; routes = [] }

abbrev dir : {A : Type 0} → Text → A → Entry A
dir name content = record { name = name; is_dir = true; content = content }

abbrev files : Locations
files = record {
  as_config = some (two_lines (codes "1 AS Config r.txt") (codes "2 AS Config r.txt"));
  config_directory = λ name. some (codes "ZURI MATRIX host");
  as_connections = some (codes "1 ZURI Provider 2 ZURI Customer 100 10 179.0.1.0/24");
  groups =
      dir (codes "g1") (dir (codes "ZURI") (some (λ i. some (codes "{}"))) ∷ [])
      ∷ dir (codes "g2") (dir (codes "ZURI") (some (λ i. some (codes "{}"))) ∷ [])
      ∷ [];
  matrix = some (two_lines (codes "1 2 False") (codes "1 2 True"));
  load = λ text. some no_bgp;
  no_bgp = no_bgp;
}

abbrev results : Results
results = ((1, (1, false) ∷ (2, true) ∷ []) ∷ (2, (1, false) ∷ (2, false) ∷ []) ∷ [], [])

runs : prepare_matrix 9 true true files none ≡ some (some results, ok results)
unfolding prepare_matrix check_validity add_connections add_connection compute_all
    compute_customers_rec queue_loop join_by_role compute_providers_rec check_sources row_of
    compute_peers_rec get_path_to_as paths_of_routers get_path_from_router check_destinations
    merge_paths add_result parse_as_config parse_matrix_connectivity each_row parse_as_connections
    parse_looking_glass_json check_connectivity node_of split int to_string insert
runs = refl

prepare_matrix-latest_example :
    (prepare_matrix 9 true false files (some results) ≡ some (some results, ok results))
    × ((as_data : Dict AsData) × (measured : List (ℕ × ℕ × Bool)) × (as_data_of files ≡ ok as_data)
        × (measured_of files ≡ ok measured)
        × ((src dst : ℕ)
            → is_as_key as_data src ≡ true
            → is_as_key as_data dst ≡ true
            → cell src dst results.0 ≡ some (latest false src dst measured)))
prepare_matrix-latest_example = prepare_matrix-latest 9 files files none (some results) results runs
