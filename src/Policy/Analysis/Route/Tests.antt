-- ===== src/Policy/Analysis/Route/Tests.antt =====
-- Routes of the small Internet: 5.0.0.0/8 over 1, 2, 3, 4 and 5, and a path that climbs again.
use mini_internet_extention.Prelude.{
  ◌++◌, ℕ, ◌≡◌, ◌≢◌, refl, ◌↔◌, ◌⊎◌, inl, List, [], ◌∷◌, Option, none, some, true, Text, codes, ok,
  err, split, Eq_nat, join, int, str,
}
use mini_internet_extention.Policy.Config.{assertion_error}
use mini_internet_extention.Policy.Relations.{
  Relationship, customer_provider, provider_customer, peer_peer,
}
use mini_internet_extention.Policy.Relations.Tests.{
  pair, pair_unique, demo, up_12, up_23, down_32, across_34, down_45,
}
use mini_internet_extention.Policy.AsPath.{space, normalize_as_path}
use mini_internet_extention.Policy.LookingGlass.{Row}
use mini_internet_extention.Policy.Log.{
  error, simple, Entry, log, log_nr, should_not_export, bad_route,
}
use mini_internet_extention.Policy.Analysis.Route.{
  walk, next_state, complains, complaint, check_row, first_label, check_hops, first_label,
}
use mini_internet_extention.Policy.Analysis.Route.ValleyFree.{
  path_links, IsValleyFree, check_row-IsValleyFree,
}
use mini_internet_extention.Policy.Analysis.Route.Safety.{check_row-no_assertion}
use mini_internet_extention.Policy.Analysis.Route.Neighbour.{ToNeighbour, check_row-neighbour}

abbrev route : Row
route = record {
  table_version = 1;
  asnumber = 1;
  location = "ZURI";
  prefix = codes "5.0.0.0/8";
  valid = none;
  bestpath = true;
  multipath = 0;
  med = none;
  metric = none;
  localpref = none;
  weight = 0;
  peer = [];
  path = codes "2 3 3 4 5";
  nexthop = [];
}

abbrev hops : List Text
hops = codes "1" ∷ codes "2" ∷ codes "3" ∷ codes "4" ∷ codes "5" ∷ []

abbrev links : List Relationship
links = customer_provider ∷ customer_provider ∷ peer_peer ∷ provider_customer ∷ []

normalized : normalize_as_path (codes "1 2 3 3 4 5") ≡ ok (codes "1 2 3 4 5")
unfolding normalize_as_path split join
normalized = refl

split_path : split space (codes "1 2 3 4 5") ≡ hops
unfolding split
split_path = refl

links_of_path : path_links demo hops ≡ ok links
unfolding path_links int
links_of_path = rw (up_12, up_23) (rw (across_34, down_45) refl)

check_row-IsValleyFree_example :
    (out : List Entry) × (check_row demo 1 route ≡ ok out) × ((out ≡ []) ↔ IsValleyFree links)
unfolding str first_label split
check_row-IsValleyFree_example =
    check_row-IsValleyFree demo 1 route (codes "1 2 3 4 5") (codes "1") (codes "2")
      (codes "3" ∷ codes "4" ∷ codes "5" ∷ []) links refl refl normalized split_path links_of_path

-- 3 sends what it learnt from its customer 2 back to it.
abbrev climbing : Row
climbing = record route { asnumber = 3; path = codes "2 3" }

abbrev complaints : List Entry
complaints =
    log_nr (simple error) 2 (should_not_export (codes "5.0.0.0/8") (codes "3") customer_provider)
    ∷ log error
        (bad_route 3 (codes "5.0.0.0/8") (codes "2 3") customer_provider (codes "2") (codes "3"))
    ∷ []

climbs : check_row demo 3 climbing ≡ ok complaints
unfolding check_row first_label check_hops walk complaint complains next_state int str split
    normalize_as_path join
climbs = rw (down_32, up_23) refl

check_row-neighbour_example :
    ◌≡◌ {A = Option ℕ} (some 2) none
    ⊎ ((npath : Text) × (normalize_as_path (str 3 ++ space ∷ codes "2 3") ≡ ok npath)
        × ToNeighbour (codes "5.0.0.0/8") (split space npath) (
            log_nr
              (simple error)
              2
              (should_not_export (codes "5.0.0.0/8") (codes "3") customer_provider)))
check_row-neighbour_example =
    check_row-neighbour demo 3 climbing complaints
      (log_nr (simple error) 2
        (should_not_export (codes "5.0.0.0/8") (codes "3") customer_provider))
      climbs (inl refl)

check_row-no_assertion_example : check_row pair 1 route ≢ err assertion_error
check_row-no_assertion_example = check_row-no_assertion pair 1 route pair_unique
