-- ===== src/Policy/Analysis/Announcements/Tests.antt =====
-- The announcements of AS 3 of the small Internet, with no route at all.
use mini_internet_extention.Prelude.{ℕ, ◌≡◌, ◌↔◌, List, [], false, ok, In, Eq_nat}
use mini_internet_extention.Policy.Relations.{customers, peers}
use mini_internet_extention.Policy.Relations.Tests.{demo}
use mini_internet_extention.Policy.Log.{error, Entry, log, missing_announcement}
use mini_internet_extention.Policy.Collect.{Has}
use mini_internet_extention.Policy.Analysis.Announcements.{
  has_route_via, check_customers, check_peers,
}
use mini_internet_extention.Policy.Analysis.Announcements.Complete.{
  Announces, check_customers_correct, check_peers_correct,
}

check_customers_correct_example :
    (out : List Entry) × (check_customers demo [] 3 ≡ ok out)
    × ((e : Entry)
        → Has e out ↔ (
            (via : ℕ) × (d : ℕ) × In via (customers demo 3)
            × Announces demo via d
            × (has_route_via [] 3 d via ≡ false)
            × (e ≡ log error (missing_announcement 3 d via))))
check_customers_correct_example = check_customers_correct demo [] 3

check_peers_correct_example :
    (out : List Entry) × (check_peers demo [] 3 ≡ ok out)
    × ((e : Entry)
        → Has e out ↔ (
            (via : ℕ) × (d : ℕ) × In via (peers demo 3)
            × Announces demo via d
            × (has_route_via [] 3 d via ≡ false)
            × (e ≡ log error (missing_announcement 3 d via))))
check_peers_correct_example = check_peers_correct demo [] 3
