-- ===== src/Policy/LookingGlass.antt =====
-- analyzer_helpers.py: the table `looking_glass`, filled from the routers' JSON. A JSON object is a
-- record with an option for each key that the code asks for.
pub mod Rows
pub mod Atomic
pub mod Tests
use mini_internet_extention.Prelude.{
  ℕ, String, Bool, true, false, not, ◌&&◌, ◌||◌, Option, none, some, List, [], ◌∷◌, ◌++◌,
  if◌then◌else◌, ◌==◌, Eq_nat, Eq_string, Text, Result, ok, err, ◌>>=◌, ◌>>◌, filter, is_empty,
}

-- `key_error` and the others are raised inside parse_lg; load_looking_glass turns them into one
-- `runtime_error`.
pub data LgError : Type 0 where
  key_error type_error index_error integrity_error runtime_error : LgError

-- An element of `nexthops`.
pub record Nexthop : Type 0 where
  pub ip : Option Text

pub record Route : Type 0 where
  pub localpref : Option ℕ
  pub path : Option Text
  pub peer_id : Option Text
  pub valid : Option ℕ
  pub bestpath : Option Bool
  pub nexthops : Option (List Nexthop)
  pub multipath : Option ℕ
  pub med : Option ℕ
  pub metric : Option ℕ
  pub weight : Option ℕ

-- `size` is the number of keys.
pub record Lg : Type 0 where
  pub size : ℕ
  pub warning : Option String
  pub table_version : Option ℕ
  pub local_as : Option ℕ
  pub routes : Option (List (Text × List Route))

-- A row; in the columns with the default -1 `none` stands for -1.
pub record Row : Type 0 where
  pub table_version : ℕ
  pub asnumber : ℕ
  pub location : String
  pub prefix : Text
  pub valid : Option ℕ
  pub bestpath : Bool
  pub multipath : ℕ
  pub med : Option ℕ
  pub metric : Option ℕ
  pub localpref : Option ℕ
  pub weight : ℕ
  pub peer : Text
  pub path : Text
  pub nexthop : Text

abbrev pub or_raise : {A : Type 0} → Option A → LgError → Result LgError A
or_raise none e = err e
or_raise (some a) e = ok a

abbrev or_default {ℓ} : {A : Type ℓ} → Option A → A → A
or_default none d = d
or_default (some a) d = a

abbrev first_ip : List Nexthop → Result LgError (Option Text)
first_ip [] = err index_error
first_ip (n ∷ ns) = elim n.ip [ none ↦ err key_error | some i ↦ ok (some i) ]

abbrev pub no_bgp : Option String → Bool
no_bgp none = false
no_bgp (some w) = w == "Default BGP instance not found"

-- The row of one route; the NOT NULL columns are weight, peer, path and nexthop.
pub parse_route : ℕ → ℕ → String → Text → Route → Result LgError Row
parse_route tv g l prefix route = do
  hops ← or_raise route.nexthops type_error
  nexthop ← first_ip hops
  weight ← or_raise route.weight integrity_error
  peer ← or_raise route.peer_id integrity_error
  path ← or_raise route.path integrity_error
  ip ← or_raise nexthop integrity_error
  ok (record {
    table_version = tv;
    asnumber = g;
    location = l;
    prefix = prefix;
    valid = route.valid;
    bestpath = or_default route.bestpath false;
    multipath = or_default route.multipath 0;
    med = route.med;
    metric = route.metric;
    localpref = route.localpref;
    weight = weight;
    peer = peer;
    path = path;
    nexthop = ip;
  })

-- The rows that a cursor sees, and whether it went on.
abbrev pub Step : Type 0
Step = List Row × Result LgError (Unit {0})

abbrev pub and_then : Step → (List Row → Step) → Step
and_then (rows, err e) next = (rows, err e)
and_then (rows, ok _) next = next rows

-- The INSERT of a row.
pub insert_route : ℕ → ℕ → String → Text → Route → List Row → Step
insert_route tv g l prefix route rows = elim (parse_route tv g l prefix route) [
  | err e ↦ (rows, err e)
  | ok row ↦ (rows ++ row ∷ [], ok tt)
]

pub insert_routes : ℕ → ℕ → String → Text → List Route → List Row → Step
unfolding insert_route
insert_routes tv g l prefix [] rows = (rows, ok tt)
insert_routes tv g l prefix (r ∷ rs) rows =
    and_then (insert_route tv g l prefix r rows) (insert_routes tv g l prefix rs)

pub insert_prefixes : ℕ → ℕ → String → List (Text × List Route) → List Row → Step
unfolding insert_routes
insert_prefixes tv g l [] rows = (rows, ok tt)
insert_prefixes tv g l ((prefix, rs) ∷ rest) rows =
    and_then (insert_routes tv g l prefix rs rows) (insert_prefixes tv g l rest)

-- The keys that parse_lg reads before its loops. (A local AS other than the group is only
-- reported.)
pub parse_header : Lg → Result LgError (ℕ × List (Text × List Route))
parse_header lg = do
  tv ← or_raise lg.table_version key_error
  a ← or_raise lg.local_as key_error
  routes ← or_raise lg.routes key_error
  ok (tv, routes)

pub parse_lg : Lg → ℕ → String → List Row → Step
unfolding insert_prefixes parse_header
parse_lg lg g l rows =
    if lg.size == 1 && no_bgp lg.warning then (rows, ok tt) else elim (parse_header lg) [
      | err e ↦ (rows, err e)
      | ok (tv, routes) ↦ insert_prefixes tv g l routes rows
    ]

abbrev pub is_of : ℕ → String → Row → Bool
is_of g l r = r.asnumber == g && r.location == l

-- The table: the rows in the file, and those that the connection sees.
pub record Table : Type 0 where
  pub committed : List Row
  pub rows : List Row

abbrev pub opened : List Row → Table
opened rows = record { committed = rows; rows = rows }

abbrev commit : Table → Table
commit t = record { committed = t.rows; rows = t.rows }

abbrev rollback : Table → Table
rollback t = record { committed = t.committed; rows = t.committed }

-- DELETE FROM looking_glass WHERE asnumber = ? AND location = ?
pub delete_router : ℕ → String → Table → Table
delete_router g l t = record t { rows = filter (λ r. not (is_of g l r)) t.rows }

-- The body of the loop.
pub load_router : ℕ → String → Lg → Table → Table × Result LgError (Unit {0})
unfolding parse_lg delete_router
load_router g l lg t =
    let deleted = delete_router g l t in
    let (rows, done) = parse_lg lg g l deleted.rows in
    let parsed : Table = record deleted { rows = rows } in
    elim done [ ok _ ↦ (commit parsed, ok tt) | err e ↦ (rollback parsed, err runtime_error) ]

-- An exception ends both loops; what was committed before stays.
pub load_group : ℕ → List (String × Lg) → Table → Table × Result LgError (Unit {0})
load_group g [] table = (table, ok tt)
load_group g ((l, lg) ∷ rest) table =
    let (table', done) = load_router g l lg table in
    elim done [ err e ↦ (table', err e) | ok u ↦ load_group g rest table' ]

unfoldable pub load_looking_glass :
    List (ℕ × List (String × Lg)) → Table → Table × Result LgError (Unit {0})
load_looking_glass [] table = (table, ok tt)
load_looking_glass ((g, routers) ∷ rest) table =
    let (table', done) = load_group g routers table in
    elim done [ err e ↦ (table', err e) | ok u ↦ load_looking_glass rest table' ]
