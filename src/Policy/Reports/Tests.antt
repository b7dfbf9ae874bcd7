-- ===== src/Policy/Reports/Tests.antt =====
-- A customer and its provider, with no route yet.
use mini_internet_extention.Policy.Log.{get_log, entry_text}
use mini_internet_extention.Policy.Collect.{collect}
use mini_internet_extention.Prelude.{
  ℕ, String, List, Text, codes, some, ◌≡◌, refl, true, false, none, [], ◌∷◌, ok, distinct, str,
}
use mini_internet_extention.Policy.Config.{Side, load_config, asnumbers, all_links}
use mini_internet_extention.Policy.LookingGlass.{load_looking_glass}
use mini_internet_extention.Policy.Analysis.{compute_results, check_as}
use mini_internet_extention.Policy.Analysis.BestPath.{bestpaths}
use mini_internet_extention.Policy.Analysis.Ixp.{ixp_routes}
use mini_internet_extention.Policy.Analysis.Announcements.{
  check_customers, check_peers, check_providers, check_provider, check_customer, check_announced,
  peers_of_all, has_route_via,
}
use mini_internet_extention.Policy.Relations.{
  customers, peers, providers, recursive_providers, recursive_customers,
}
use mini_internet_extention.Policy.Reports.{Input, prepare_bgp_analysis, bgp_report}
use mini_internet_extention.Policy.Reports.Cached.{prepare_bgp_analysis-cached}
use mini_internet_extention.Policy.Closure.{closure}

abbrev side : ℕ → String → Side
side asn role = record { asn = asn; router = some "ZURI"; role = role }

abbrev two_ases : Input
two_ases = record {
  as_data = (1, "AS") ∷ (2, "AS") ∷ [];
  connection_data = (side 1 "Customer", side 2 "Provider") ∷ [];
  looking_glass_data = [];
}

abbrev missing : List Text
missing =
    codes "ERROR: AS 1 should have an announcement for 2.0.0.0/8 from AS 2"
    ∷ codes "ERROR: AS 2 should have an announcement for 1.0.0.0/8 from AS 1"
    ∷ []

reported : (prepare_bgp_analysis false none false two_ases none).1 ≡ ok missing
unfolding prepare_bgp_analysis bgp_report load_config load_looking_glass compute_results bestpaths
    ixp_routes collect asnumbers distinct get_log check_as check_customers customers check_peers
    peers check_providers providers check_provider recursive_providers check_customer
    recursive_customers check_announced peers_of_all has_route_via entry_text all_links closure str
reported = refl

prepare_bgp_analysis-cached_example :
    ((prepare_bgp_analysis true none true two_ases none).1 ≡ ok [])
    × ((prepare_bgp_analysis true none false two_ases
          (prepare_bgp_analysis true none true two_ases none).0).1
        ≡ ok missing)
prepare_bgp_analysis-cached_example = prepare_bgp_analysis-cached two_ases none missing reported
