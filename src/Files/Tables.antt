-- ===== src/Files/Tables.antt =====
-- `parse_as_config`, `parse_matrix_connectivity` and `parse_as_passwords`.
use mini_internet_extention.Prelude.{
  ℕ, String, Bool, Option, none, some, List, [], ◌∷◌, ◌==◌, Eq_text, Text, codes, to_string, Result,
  ok, ◌>>=◌,
}
use mini_internet_extention.Dict.{Dict, put}
use mini_internet_extention.Matrix.Connectivity.{AsData}
use mini_internet_extention.Files.Clean.{Error, rows, item, parse_int, each_row}

-- `int(row[i])`
abbrev pub int_item : ℕ → List Text → Result Error ℕ
int_item i row = item i row >>= parse_int

unfoldable pub parse_measurement : List Text → Result Error (ℕ × ℕ × Bool)
parse_measurement row = do
  src ← int_item 0 row
  dst ← int_item 1 row
  status ← item 2 row
  ok (src, dst, status == codes "True")

unfoldable pub parse_matrix_connectivity : Text → Result Error (List (ℕ × ℕ × Bool))
unfolding rows each_row parse_measurement
parse_matrix_connectivity file = each_row parse_measurement (rows file)

passwords_loop : List (List Text) → Dict String → Result Error (Dict String)
passwords_loop [] results = ok results
passwords_loop (row ∷ rest) results = do
  asn ← int_item 0 row
  password ← item 1 row
  passwords_loop rest (put asn (to_string password) results)

-- None for a file that is missing.
unfoldable pub parse_as_passwords : Option Text → Result Error (Option (Dict String))
unfolding rows passwords_loop put
parse_as_passwords none = ok none
parse_as_passwords (some file) = passwords_loop (rows file) [] >>= λ results. ok (some results)

-- The name of a router is the first field of its line.
router_names : Text → Result Error (List String)
router_names file = each_row (λ row. item 0 row >>= λ name. ok (to_string name)) (rows file)

-- The routers of a row, where `files` are the regular files of `router_config_dir`.
routers_of : Option (Text → Option Text) → List Text → Result Error (Option (List String))
unfolding router_names
routers_of none row = ok none
routers_of (some files) row = item 3 row >>= λ name. elim (files name) [
  | none ↦ ok none
  | some file ↦ router_names file >>= λ routers. ok (some routers)
]

config_loop :
    Option (Text → Option Text) → List (List Text) → Dict AsData → Result Error (Dict AsData)
unfolding routers_of
config_loop dir [] results = ok results
config_loop dir (row ∷ rest) results = do
  asn ← int_item 0 row
  type ← item 1 row
  routers ← routers_of dir row
  config_loop dir rest (put asn (record { type = to_string type; routers = routers }) results)

unfoldable pub parse_as_config : Text → Option (Text → Option Text) → Result Error (Dict AsData)
unfolding rows config_loop put
parse_as_config file router_config_dir = config_loop router_config_dir (rows file) []
