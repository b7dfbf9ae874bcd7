-- ===== src/Matrix/Prepare/Shown.antt =====
-- From the files over the worker and the cache to the page.
use mini_internet_extention.Prelude.{
  ℕ, ◌≡◌, refl, ap, ◌∙◌, Bool, true, false, Option, some, List, map, arith, Result, ok, err, ◌>>=◌,
}
use mini_internet_extention.Dict.{Dict}
use mini_internet_extention.Files.Connections.{parse_as_connections}
use mini_internet_extention.Files.Tables.{parse_as_config, parse_matrix_connectivity}
use mini_internet_extention.Files.Json.{parse_looking_glass_json}
use mini_internet_extention.Matrix.Connectivity.{
  Error, key_error, value_error, unbound_local_error, out_of_fuel, AsData, check_connectivity,
}
use mini_internet_extention.Matrix.Connectivity.Latest.{
  cell, latest, is_as_key, check_connectivity-latest,
}
use mini_internet_extention.Matrix.Validity.{check_validity}
use mini_internet_extention.Matrix.Prepare.{
  looking_glasses, Failure, of_file, of_check, check_result, Locations, Results, file_result,
  opened, compute, answered, prepare_matrix,
}

-- What the files say of the ASes and of the measured pairs.
abbrev pub as_data_of : Locations → Result Failure (Dict AsData)
as_data_of l = file_result (opened l.as_config) >>= λ file.
    file_result (parse_as_config file (some l.config_directory))

abbrev pub measured_of : Locations → Result Failure (List (ℕ × ℕ × Bool))
measured_of l =
    file_result (opened l.matrix) >>= λ file. file_result (parse_matrix_connectivity file)

bind-ok :
    {A B : Type 0} (r : Result Failure A) (f : A → Result Failure B) (b : B)
    → (r >>= f) ≡ ok b
    → (a : A) × (r ≡ ok a) × (f a ≡ ok b)
bind-ok (ok a) f b h = (a, refl, h)
bind-ok (err e) f b h = absurd (ground arith)

ok-bind :
    {A B : Type 0} (r : Result Failure A) (f : A → Result Failure B) (a : A) (b : B)
    → r ≡ ok a
    → f a ≡ ok b
    → (r >>= f) ≡ ok b
ok-bind r f a b e h = rw e h

first-ok :
    (connectivity validity : Dict (Dict Bool)) (results : Results)
    → ◌≡◌ {A = Result Failure Results} (ok (connectivity, validity)) (ok results)
    → connectivity ≡ results.0
first-ok connectivity validity results h = ground arith

check_result-ok : {A : Type 0} (r : Result Error A) (a : A) → check_result r ≡ ok a → r ≡ ok a
check_result-ok (ok x) a h = ground arith
check_result-ok (err e) a h = absurd (ground arith)

compute-connectivity :
    (fuel : ℕ) (l : Locations) (results : Results)
    → compute fuel l ≡ ok results
    → (as_data : Dict AsData) × (measured : List (ℕ × ℕ × Bool)) × (as_data_of l ≡ ok as_data)
      × (measured_of l ≡ ok measured)
      × (check_connectivity as_data measured ≡ ok results.0)
unfolding compute
compute-connectivity fuel l results h =
    let (as_file, e1, h1) = bind-ok (file_result (opened l.as_config)) _ results h in
    let (as_data, e2, h2) =
      bind-ok (file_result (parse_as_config as_file (some l.config_directory))) _ results h1 in
    let (connections_file, e3, h3) = bind-ok (file_result (opened l.as_connections)) _ results h2 in
    let (connections, e4, h4) =
      bind-ok (file_result (parse_as_connections connections_file)) _ results h3 in
    let (looking_glass_data, e5, h5) =
      bind-ok (file_result (parse_looking_glass_json l.load l.no_bgp l.groups)) _ results h4 in
    let (matrix_file, e6, h6) = bind-ok (file_result (opened l.matrix)) _ results h5 in
    let (measured, e7, h7) =
      bind-ok (file_result (parse_matrix_connectivity matrix_file)) _ results h6 in
    let (connectivity, e8, h8) =
      bind-ok (check_result (check_connectivity as_data measured)) _ results h7 in
    let (validity, e9, h9) =
      bind-ok
        (check_result (
          check_validity fuel as_data (map (λ c. (c.0.side, c.1.side)) connections)
            (looking_glasses l.no_bgp looking_glass_data)))
        _ results h8 in
    (
      as_data,
      measured,
      ok-bind (file_result (opened l.as_config)) _ as_file as_data e1 e2,
      ok-bind (file_result (opened l.matrix)) _ matrix_file measured e6 e7,
      check_result-ok (check_connectivity as_data measured) connectivity e8
          ∙ ap ok (first-ok connectivity validity results h9),
    )

-- What a run that ends well leaves in the cache.
computed-answered :
    (r : Result Failure Results) (cache cache' : Option Results) (results : Results)
    → answered true cache r ≡ some (cache', ok results)
    → (r ≡ ok results) × (cache' ≡ some results)
computed-answered (ok x) cache cache' results h = (ground arith, ground arith)
computed-answered (err (of_file e)) cache cache' results h = absurd (ground arith)
computed-answered (err (of_check key_error)) cache cache' results h = absurd (ground arith)
computed-answered (err (of_check value_error)) cache cache' results h = absurd (ground arith)
computed-answered (err (of_check unbound_local_error)) cache cache' results h =
    absurd (ground arith)
computed-answered (err (of_check out_of_fuel)) cache cache' results h = absurd (ground arith)

-- If a run of the worker ends well, the page of a server with workers shows the matrices that it
-- computed, whatever the files are by then; the files of that run could be read, and between two
-- ASes of type AS the connectivity is the last status in the matrix file, or False if there is
-- none.
pub prepare_matrix-latest :
    (fuel : ℕ) (l now : Locations) (cache cache' : Option Results) (results : Results)
    → prepare_matrix fuel true true l cache ≡ some (cache', ok results)
    → (prepare_matrix fuel true false now cache' ≡ some (cache', ok results))
      × ((as_data : Dict AsData) × (measured : List (ℕ × ℕ × Bool)) × (as_data_of l ≡ ok as_data)
          × (measured_of l ≡ ok measured)
          × ((src dst : ℕ)
              → is_as_key as_data src ≡ true
              → is_as_key as_data dst ≡ true
              → cell src dst results.0 ≡ some (latest false src dst measured)))
unfolding prepare_matrix
prepare_matrix-latest fuel l now cache cache' results h =
    let (computed, cached) = computed-answered (compute fuel l) cache cache' results h in
    let (as_data, measured, reads, measures, connects) =
      compute-connectivity fuel l results computed in
    (
      rw cached refl,
      (
        as_data,
        measured,
        reads,
        measures,
        λ src dst a b. check_connectivity-latest as_data measured results.0 src dst a b connects,
      ),
    )
