-- ===== src/Policy/Analysis/Route.antt =====
-- The check of one route: internal routes, leaked session prefixes, and the walk along the AS path.
pub mod ValleyFree
pub mod Safety
pub mod Neighbour
pub mod Tests
use mini_internet_extention.Prelude.{
  ℕ, suc, Bool, true, false, not, ◌&&◌, ◌||◌, Option, none, some, List, [], ◌∷◌, ◌++◌,
  if◌then◌else◌, ◌==◌, Eq_nat, Eq_text, Text, codes, str, int, split, is_empty, ltb, Result, ok,
  err, ◌>>=◌, ◌+◌,
}
use mini_internet_extention.Policy.Config.{Error, assertion_error, as_path_error, Config}
use mini_internet_extention.Policy.Relations.{
  Relationship, Eq_rel, customer_provider, provider_customer, peer_peer, get_relationship,
}
use mini_internet_extention.Policy.AsPath.{space, normalize_as_path}
use mini_internet_extention.Policy.LookingGlass.{Row}
use mini_internet_extention.Policy.Log.{
  Level, error, non_local, as_path, ebgp_ip_leak, ixp_ip_leak, simple, Entry, log, log_nr,
  internal_route, ebgp_leak, ixp_leak, unexpected_prefix, no_known_link, should_not_export,
  bad_route,
}

-- The variables that the walk does not change.
pub record Walk : Type 0 where
  pub number : ℕ
  pub prefix : Text
  pub path : Text
  pub from_as : Text
  pub tested_as : Text

-- `none` is the state START.
pub next_state : Option Relationship → Relationship → Option Relationship
next_state none link = some link
next_state (some s) link = if s == customer_provider then some link else some s

-- In the states Peer-Peer and Provider-Customer only another Provider-Customer link may follow.
pub complains : Option Relationship → Relationship → Bool
complains none link = false
complains (some s) link =
    if s == customer_provider
    then false
    else (s == peer_peer || s == provider_customer) && not (link == provider_customer)

pub complaint : Walk → ℕ → Level → Relationship → Text → Text → List Entry
complaint w nlinks level link f t =
    (if ltb nlinks 2
      then log_nr (simple level) (int w.tested_as) (should_not_export w.prefix w.from_as link) ∷ []
      else [])
    ++ log level (bad_route w.number w.prefix w.path link f t) ∷ []

abbrev pub level_at : ℕ → Level → Level
level_at nlinks level = if nlinks == 2 then non_local else level

-- `for f, t in zip(npath, npath[1:])`
pub walk : Config → Walk → Option Relationship → ℕ → Level → List Text → Result Error (List Entry)
walk c w state nlinks level [] = ok []
walk c w state nlinks level (f ∷ []) = ok []
walk c w state nlinks level (f ∷ t ∷ rest) =
    if f == t then err assertion_error else elim (get_relationship c (int f) (int t)) [
      | err as_path_error ↦ ok (log as_path (no_known_link w.prefix w.path f t) ∷ [])
      | err e ↦ err e
      | ok link ↦
          walk c w (next_state state link) (suc nlinks) (level_at nlinks level) (t ∷ rest)
          >>= λ more. ok (
              (if complains state link
                then complaint w nlinks (level_at nlinks level) link f t
                else [])
              ++ more)
    ]

pub first_label : ℕ → Text → Text
first_label sep s = elim (split sep s) [ [] ↦ [] | w ∷ ws ↦ w ]

-- A path of one hop: the prefix of a session address is a leak.
pub leaked_prefix : ℕ → Text → Entry
leaked_prefix number prefix =
    if first_label b'.' prefix == codes "179"
    then log ebgp_ip_leak (ebgp_leak prefix number)
    else if first_label b'.' prefix == codes "180"
    then log ixp_ip_leak (ixp_leak prefix number)
    else log error (unexpected_prefix prefix number)

pub check_hops : Config → ℕ → Text → Text → List Text → Result Error (List Entry)
check_hops c number prefix path (from_as ∷ tested_as ∷ rest) =
    walk c
      (record {
        number = number;
        prefix = prefix;
        path = path;
        from_as = from_as;
        tested_as = tested_as;
      })
      none 0 error (from_as ∷ tested_as ∷ rest)
check_hops c number prefix path hops = ok (leaked_prefix number prefix ∷ [])

-- The body of `for prefix, path in res.fetchall()`.
pub check_row : Config → ℕ → Row → Result Error (List Entry)
check_row c number r =
    if str number == first_label b'.' r.prefix
    then ok (if is_empty r.path then [] else log error (internal_route number r.prefix r.path) ∷ [])
    else do
      npath ← normalize_as_path (str number ++ space ∷ r.path)
      check_hops c number r.prefix r.path (split space npath)
