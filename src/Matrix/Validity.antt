-- ===== src/Matrix/Validity.antt =====
-- `get_path_from_router`, `get_path_to_as` and `check_validity`.
pub mod Flags
pub mod Tests
use mini_internet_extention.Prelude.{
  ℕ, zero, String, Bool, true, false, not, ◌&&◌, Option, none, some, List, [], ◌∷◌, ◌++◌, map,
  if◌then◌else◌, ◌==◌, Eq_nat, Eq_string, Eq_text, Text, codes, int, isdigit, is_empty, split,
  insert, update, Result, ok, err, ◌>>=◌, ◌>>◌, Eq,
}
use mini_internet_extention.Dict.{Dict, lookup, put}
use mini_internet_extention.Policy.Config.{Side}
use mini_internet_extention.Matrix.Connectivity.{Error, key_error, value_error, AsData, is_as}
use mini_internet_extention.Matrix.Node.{
  Node, new_node, compute_customers_rec, compute_providers_rec, compute_peers_rec,
}
use mini_internet_extention.Matrix.Checker.{node_of, path_checker}

-- What the looking glass of a router says; `local_as` is there if BGP runs. A route is its 'path'.
pub record RouterBgp : Type 0 where
  pub local_as : Option ℕ
  pub routes : List (Text × List (Option Text))

abbrev pub or_key_error : {A : Type 0} → Option A → Result Error A
or_key_error none = err key_error
or_key_error (some a) = ok a

-- int(s), which refuses a text that is no number.
abbrev pub checked_int : Text → Result Error ℕ
checked_int s = if isdigit s then ok (int s) else err value_error

abbrev first_word : List Text → Text
first_word [] = []
first_word (w ∷ ws) = w

-- The keys of the result stay in order of insertion; `path_to_as[asdest].append(aspath)`.
pub append_path : ℕ → Text → Dict (List Text) → Dict (List Text)
append_path dest path d = elim (lookup dest d) [
  | none ↦ put dest (path ∷ []) d
  | some paths ↦ put dest (paths ++ path ∷ []) d
]

pub add_routes : Text → List (Option Text) → Dict (List Text) → Result Error (Dict (List Text))
add_routes prefix [] d = ok d
add_routes prefix (r ∷ rs) d = do
  aspath ← or_key_error r
  asdest ← checked_int (first_word (split b'.' prefix))
  add_routes prefix rs (append_path asdest aspath d)

pub add_prefixes :
    List (Text × List (Option Text)) → Dict (List Text) → Result Error (Dict (List Text))
add_prefixes [] d = ok d
add_prefixes ((prefix, rs) ∷ rest) d = add_routes prefix rs d >>= λ d'. add_prefixes rest d'

unfoldable pub get_path_from_router : RouterBgp → Result Error (Dict (List Text))
get_path_from_router r = elim r.local_as [ none ↦ ok [] | some a ↦ add_prefixes r.routes [] ]

-- `for asdest in tmp`: the union of the sets of paths.
unfoldable pub merge_paths : Dict (List Text) → Dict (List Text) → Dict (List Text)
merge_paths [] d = d
merge_paths ((dest, paths) ∷ rest) d = merge_paths rest (elim (lookup dest d) [
  | none ↦ put dest (update [] paths) d
  | some old ↦ put dest (update old paths) d
])

abbrev pub LookingGlasses : Type 0
LookingGlasses = Dict (List (String × RouterBgp))

abbrev router_named : String → List (String × RouterBgp) → Option RouterBgp
router_named l [] = none
router_named l ((k, r) ∷ rest) = if l == k then some r else router_named l rest

unfoldable pub paths_of_routers :
    ℕ → List String → LookingGlasses → Dict (List Text) → Result Error (Dict (List Text))
paths_of_routers asn [] lg d = ok d
paths_of_routers asn (l ∷ ls) lg d = do
  group ← or_key_error (lookup asn lg)
  router_bgp ← or_key_error (router_named l group)
  tmp ← get_path_from_router router_bgp
  paths_of_routers asn ls lg (merge_paths tmp d)

unfoldable pub get_path_to_as : ℕ → Dict AsData → LookingGlasses → Result Error (Dict (List Text))
get_path_to_as asn as_data lg = do
  a ← or_key_error (lookup asn as_data)
  routers ← or_key_error a.routers
  paths_of_routers asn routers lg []

-- The set of `a` that a neighbour in the given role joins; any other role is ignored.
unfoldable pub join_by_role : String → ℕ → Node → Node
join_by_role role n a =
    if role == "Peer"
    then record a { peers_direct = insert n a.peers_direct }
    else if role == "Provider"
    then record a { providers_direct = insert n a.providers_direct }
    else if role == "Customer"
    then record a { customers_direct = insert n a.customers_direct }
    else a

unfoldable pub add_connection : Dict Node → Side → Side → Result Error (Dict Node)
add_connection dic_as c1 c2 = do
  as1 ← node_of dic_as c1.asn
  as2 ← node_of dic_as c2.asn
  let one_way = put c1.asn (join_by_role c2.role c2.asn as1) dic_as
  back ← node_of one_way c2.asn
  ok (put c2.asn (join_by_role c1.role c1.asn back) one_way)

unfoldable pub add_connections : Dict Node → List (Side × Side) → Result Error (Dict Node)
add_connections dic_as [] = ok dic_as
add_connections dic_as ((c1, c2) ∷ rest) =
    add_connection dic_as c1 c2 >>= λ more. add_connections more rest

-- `for _as in dic_as.values()`: the recursive sets of each AS, from the direct ones of all.
unfoldable pub compute_all : ℕ → Dict Node → Dict Node → Result Error (Dict Node)
compute_all fuel dic_as [] = ok []
compute_all fuel dic_as ((asn, a) ∷ rest) = do
  b ← compute_customers_rec fuel dic_as a
  d ← compute_providers_rec fuel dic_as b
  more ← compute_all fuel dic_as rest
  ok ((asn, compute_peers_rec dic_as d) ∷ more)

pub ints : List Text → Result Error (List ℕ)
ints [] = ok []
ints (w ∷ ws) = checked_int w >>= λ n. ints ws >>= λ ns. ok (n ∷ ns)

-- The empty path, or the numbers of the others.
pub path_numbers : Text → Result Error (List ℕ)
path_numbers path = if is_empty path then ok [] else ints (split b' ' path)

-- `for path in path_to_as[asdest]`, where one wrong path makes the destination invalid.
pub check_paths : Dict Node → Bool → List Text → Result Error Bool
check_paths dic_as valid [] = ok valid
check_paths dic_as valid (path ∷ rest) = do
  numbers ← path_numbers path
  wrong ← path_checker dic_as numbers
  check_paths dic_as (valid && not wrong) rest

unfoldable pub check_destinations :
    Dict Node → Dict (List Text) → Dict Bool → Result Error (Dict Bool)
check_destinations dic_as [] results = ok results
check_destinations dic_as ((dest, paths) ∷ rest) results = do
  valid ← check_paths dic_as true paths
  check_destinations dic_as rest (put dest valid results)

-- `results[asn][asdest]`: a defaultdict, so that an AS without paths has no entry.
unfoldable pub add_result : ℕ → Dict Bool → Dict (Dict Bool) → Dict (Dict Bool)
add_result asn row results = if is_empty row then results else put asn row results

unfoldable pub row_of :
    Dict AsData → LookingGlasses → Dict Node → ℕ → Node → Result Error (Dict Bool)
row_of as_data lg dic_as asn a =
    if a.type == "AS"
    then (get_path_to_as asn as_data lg >>= λ path_to_as. check_destinations dic_as path_to_as [])
    else ok []

unfoldable pub check_sources :
    Dict AsData
    → LookingGlasses
    → Dict Node
    → Dict Node
    → Dict (Dict Bool)
    → Result Error (Dict (Dict Bool))
check_sources as_data lg dic_as [] results = ok results
check_sources as_data lg dic_as ((asn, a) ∷ rest) results = do
  row ← row_of as_data lg dic_as asn a
  check_sources as_data lg dic_as rest (add_result asn row results)

-- Before the first connection, the objects hold no neighbours.
abbrev pub new_nodes : Dict AsData → Dict Node
new_nodes [] = []
new_nodes ((asn, d) ∷ rest) = (asn, new_node asn d.type) ∷ new_nodes rest

unfoldable pub check_validity :
    ℕ → Dict AsData → List (Side × Side) → LookingGlasses → Result Error (Dict (Dict Bool))
check_validity fuel as_data connection_data looking_glass_data = do
  direct ← add_connections (new_nodes as_data) connection_data
  dic_as ← compute_all fuel direct direct
  check_sources as_data looking_glass_data dic_as dic_as []
