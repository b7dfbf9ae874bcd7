-- ===== src/Policy/Analysis/Announcements.antt =====
-- The checks that customers, peers and providers announce what they should.
pub mod Complete
pub mod Tests
use mini_internet_extention.Prelude.{
  ℕ, Bool, true, false, not, ◌&&◌, ◌||◌, List, [], ◌∷◌, ◌++◌, map, if◌then◌else◌, ◌==◌, Eq_nat,
  Eq_text, Text, codes, str, starts_with, Result, ok, err, ◌>>=◌, filter, any, update,
}
use mini_internet_extention.Policy.Config.{Error, Config}
use mini_internet_extention.Policy.Relations.{
  customers, peers, providers, recursive_customers, recursive_providers,
}
use mini_internet_extention.Policy.LookingGlass.{Row}
use mini_internet_extention.Policy.Log.{error, Entry, log, missing_announcement, prefix_of}
use mini_internet_extention.Policy.Collect.{collect}

-- path = ? OR path LIKE ?
abbrev pub goes_via : ℕ → Text → Bool
goes_via nextas path = path == str nextas || starts_with path (str nextas ++ b' ' ∷ [])

unfoldable pub has_route_via : List Row → ℕ → ℕ → ℕ → Bool
has_route_via rows number destination nextas =
    any (λ r. r.asnumber == number && r.prefix == prefix_of destination && goes_via nextas r.path)
      rows

-- `for customer in cset`: an entry for each that is not announced.
unfoldable pub check_announced : List Row → ℕ → ℕ → List ℕ → List Entry
check_announced rows number via set =
    map (λ d. log error (missing_announcement number d via))
      (filter (λ d. not (has_route_via rows number d via)) set)

module _ (c : Config) (rows : List Row) where
  -- A neighbour below or beside: itself and everything below it.
  unfoldable pub check_customer : ℕ → ℕ → Result Error (List Entry)
  check_customer number cs = do
    below ← recursive_customers c cs
    ok (check_announced rows number cs (update (cs ∷ []) below))

  unfoldable pub check_customers : ℕ → Result Error (List Entry)
  check_customers number = collect (check_customer number) (customers c number)

  unfoldable pub check_peers : ℕ → Result Error (List Entry)
  check_peers number = collect (check_customer number) (peers c number)

  -- `for provider in pset: peerset.update(peers(c, provider))`
  unfoldable pub peers_of_all : List ℕ → List ℕ → List ℕ
  peers_of_all peerset [] = peerset
  peers_of_all peerset (p ∷ ps) = peers_of_all (update peerset (peers c p)) ps

  -- A provider: itself, everything above it, and the peers of all these.
  unfoldable pub check_provider : ℕ → ℕ → Result Error (List Entry)
  check_provider number pr = do
    above ← recursive_providers c pr
    let pset = update (pr ∷ []) above
    ok (check_announced rows number pr (update pset (peers_of_all [] pset)))

  unfoldable pub check_providers : ℕ → Result Error (List Entry)
  check_providers number = collect (check_provider number) (providers c number)
