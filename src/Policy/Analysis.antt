-- ===== src/Policy/Analysis.antt =====
-- `compute_results` of bgp_policy_analyzer.py. Each part returns the entries that it logs, in order;
-- an exception ends the run before the commit, so that none of them is kept.
pub mod Route
pub mod Announcements
pub mod BestPath
pub mod Ixp
use mini_internet_extention.Prelude.{
  ℕ, String, Bool, ◌&&◌, List, [], ◌∷◌, ◌++◌, Result, ok, err, ◌>>=◌, filter, ◌==◌, Eq_nat,
}
use mini_internet_extention.Policy.Config.{Error, Config, Side, asnumbers, load_config}
use mini_internet_extention.Policy.LookingGlass.{Row}
use mini_internet_extention.Policy.Log.{Entry}
use mini_internet_extention.Policy.Collect.{collect}
use mini_internet_extention.Policy.Analysis.Route.{check_row}
use mini_internet_extention.Policy.Analysis.Announcements.{
  check_customers, check_peers, check_providers,
}
use mini_internet_extention.Policy.Analysis.BestPath.{bestpaths, check_bestpath}
use mini_internet_extention.Policy.Analysis.Ixp.{ixp_routes, check_ixp}

module _ (c : Config) (rows : List Row) where
  -- The body of `for number in asnumbers`.
  unfoldable pub check_as : ℕ → Result Error (List Entry)
  check_as number = do
    routes ← collect (check_row c number) (filter (λ r. r.asnumber == number) rows)
    cs ← check_customers c rows number
    pe ← check_peers c rows number
    pr ← check_providers c rows number
    ok (routes ++ (cs ++ (pe ++ pr)))

  unfoldable pub compute_results : Result Error (List Entry)
  compute_results = do
    policies ← collect check_as (asnumbers c)
    best ← collect (check_bestpath c) (bestpaths rows)
    exchanges ← collect (check_ixp c) (ixp_routes rows)
    ok (policies ++ (best ++ exchanges))
