-- ===== src/Policy/LookingGlass/Tests.antt =====
-- A router with one route, and one whose route has no path.
use mini_internet_extention.Prelude.{
  ℕ, String, refl, map, ◌≡◌, ◌⊎◌, true, not, Option, none, some, List, [], ◌∷◌, Text, codes, ok,
  err, filter,
}
use mini_internet_extention.Policy.LookingGlass.{
  runtime_error, Route, Lg, Row, opened, is_of, load_router, delete_router, parse_lg, parse_header,
  insert_prefixes, insert_routes, insert_route, parse_route,
}
use mini_internet_extention.Policy.LookingGlass.Rows.{rows_of}
use mini_internet_extention.Policy.LookingGlass.Atomic.{load_router_correct}

abbrev route : Option Text → Route
route path = record {
  localpref = some 100;
  path = path;
  peer_id = some (codes "179.0.0.1");
  valid = some 1;
  bestpath = some true;
  nexthops = some (record { ip = some (codes "179.0.0.1") } ∷ []);
  multipath = none;
  med = none;
  metric = none;
  weight = some 0;
}

abbrev router : Option Text → Lg
router path = record {
  size = 4;
  warning = none;
  table_version = some 7;
  local_as = some 1;
  routes = some ((codes "5.0.0.0/8", route path ∷ []) ∷ []);
}

abbrev row : ℕ → String → Row
row asnumber location = record {
  table_version = 6;
  asnumber = asnumber;
  location = location;
  prefix = codes "4.0.0.0/8";
  valid = none;
  bestpath = true;
  multipath = 0;
  med = none;
  metric = none;
  localpref = none;
  weight = 0;
  peer = codes "179.0.0.1";
  path = codes "4";
  nexthop = codes "179.0.0.1";
}

abbrev table : List Row
table = row 1 "ZURI" ∷ row 2 "BASE" ∷ []

replaced :
    map {B = ℕ × Text}
      (λ r. (r.asnumber, r.path))
      (load_router 1 "ZURI" (router (some (codes "2 5"))) (opened table)).0.committed
    ≡ (2, codes "4") ∷ (1, codes "2 5") ∷ []
unfolding load_router delete_router parse_lg parse_header insert_prefixes insert_routes insert_route
    parse_route
replaced = refl

load_router_correct_example :
    ((rows : List Row) × (rows_of (router none) 1 "ZURI" ≡ some rows)
      × ((load_router 1 "ZURI" (router none) (opened table)).1 ≡ ok tt)
      × (filter (is_of 1 "ZURI") (load_router 1 "ZURI" (router none) (opened table)).0.committed
          ≡ rows)
      × (filter
            (λ r. not (is_of 1 "ZURI" r))
            (load_router 1 "ZURI" (router none) (opened table)).0.committed
          ≡ filter (λ r. not (is_of 1 "ZURI" r)) table))
    ⊎ ((rows_of (router none) 1 "ZURI" ≡ none)
        × (load_router 1 "ZURI" (router none) (opened table) ≡ (opened table, err runtime_error)))
load_router_correct_example = load_router_correct 1 "ZURI" (router none) table
