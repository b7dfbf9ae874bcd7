-- ===== src/Policy/Analysis/BestPath.antt =====
-- The check that best paths prefer customers to peers and peers to providers.
use mini_internet_extention.Prelude.{
  ℕ, Bool, true, not, ◌&&◌, List, [], ◌∷◌, ◌++◌, map, if◌then◌else◌, ◌==◌, Eq, Eq_nat, Eq_text,
  Text, int, isdigit, is_empty, Result, ok, err, ◌>>=◌, filter, distinct, ◌≡◌, ◌↔◌, arith,
  text_eq_iff, nat_eq_iff,
}
use mini_internet_extention.Policy.Config.{
  Error, as_path_error, assertion_error, value_error, Config,
}
use mini_internet_extention.Policy.Relations.{
  Relationship, Eq_rel, customer_provider, provider_customer, peer_peer, get_relationship,
  customers, peers, theoretical_route_via,
}
use mini_internet_extention.Policy.AsPath.{space}
use mini_internet_extention.Policy.LookingGlass.{Row}
use mini_internet_extention.Policy.Log.{as_path, exp, Entry, log, bestpath_unchecked, better_route}
use mini_internet_extention.Policy.Collect.{collect}
use mini_internet_extention.Policy.Analysis.Route.{first_label}

pub record BestPath : Type 0 where
  pub number : ℕ
  pub prefix : Text
  pub path : Text

abbrev best_eq : BestPath → BestPath → Bool
best_eq a b = a.number == b.number && a.prefix == b.prefix && a.path == b.path

best_eq_iff : (a b : BestPath) → (best_eq a b ≡ true) ↔ (a ≡ b)
best_eq_iff a b =
    ground (
      arith,
      nat_eq_iff a.number b.number,
      text_eq_iff a.prefix b.prefix,
      text_eq_iff a.path b.path,
    )

instance abbrev Eq_best : Eq BestPath
Eq_best = record { beq = best_eq; beq_iff = best_eq_iff }

-- WHERE bestpath = 1 AND path != "" GROUP BY asnumber, prefix, path
unfoldable pub bestpaths : List Row → List BestPath
bestpaths rows = distinct (
    map (λ r. record { number = r.asnumber; prefix = r.prefix; path = r.path })
      (filter (λ r. r.bestpath && not (is_empty r.path)) rows))

-- int(s), which refuses a text that is no number.
abbrev pub checked_int : Text → Result Error ℕ
checked_int s = if isdigit s then ok (int s) else err value_error

-- `for cs in customers(c, number)`, and the same for peers.
pub better_routes :
    Config → ℕ → ℕ → Text → Relationship → ℕ → Relationship → List ℕ → Result Error (List Entry)
better_routes c number nextas prefix relationship destination better = collect (λ via.
    theoretical_route_via c number destination via >>= λ possible. ok (
      if possible
      then log exp (better_route number nextas prefix relationship better via) ∷ []
      else []))

pub check_relationship : Config → ℕ → ℕ → Text → ℕ → Relationship → Result Error (List Entry)
check_relationship c number nextas prefix destination relationship =
    if relationship == provider_customer then ok [] else do
      below ←
          better_routes c number nextas prefix relationship destination provider_customer
            (customers c number)
      if relationship == peer_peer then ok below else do
        if not (relationship == customer_provider) then err assertion_error else do
          beside ←
              better_routes c number nextas prefix relationship destination peer_peer
                (peers c number)
          ok (below ++ beside)

pub check_bestpath : Config → BestPath → Result Error (List Entry)
check_bestpath c bp = do
  nextas ← checked_int (first_label space bp.path)
  destination ← checked_int (first_label b'.' bp.prefix)
  elim (get_relationship c bp.number nextas) [
    | err as_path_error ↦ ok (log as_path (bestpath_unchecked bp.number bp.prefix) ∷ [])
    | err e ↦ err e
    | ok relationship ↦ check_relationship c bp.number nextas bp.prefix destination relationship
  ]
