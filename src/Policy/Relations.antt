-- ===== src/Policy/Relations.antt =====
-- The queries of bgp_policy_analyzer.py on the links: neighbours by role, relationships, the
-- recursive sets, the tiers and the groups.
pub mod Symmetry
pub mod Known
pub mod Cones
pub mod Group
pub mod Tests
use mini_internet_extention.Prelude.{
  ℕ, zero, suc, ◌+◌, Bool, true, false, not, ◌&&◌, ◌||◌, Option, none, some, List, [], ◌∷◌, ◌++◌,
  map, if◌then◌else◌, ◌==◌, Eq, Eq_nat, Result, ok, err, ◌>>=◌, filter, any, elem, insert, distinct,
  length, ◌≡◌, ◌↔◌, arith,
}
use mini_internet_extention.Policy.Config.{
  Error, as_path_error, assertion_error, out_of_fuel, Role, customer, provider, peer, role_eq,
  role_eq_iff, Eq_role, Link, Config, all_links, asnumbers, ixps,
}
use mini_internet_extention.Policy.Closure.{closure}

-- `f_role || '-' || t_role`
pub record Relationship : Type 0 where
  pub from : Role
  pub to : Role

abbrev pub rel_eq : Relationship → Relationship → Bool
rel_eq a b = role_eq a.from b.from && role_eq a.to b.to

pub rel_eq_iff : (a b : Relationship) → (rel_eq a b ≡ true) ↔ (a ≡ b)
rel_eq_iff a b = ground (arith, role_eq_iff a.from b.from, role_eq_iff a.to b.to)

instance abbrev pub Eq_rel : Eq Relationship
Eq_rel = record { beq = rel_eq; beq_iff = rel_eq_iff }

abbrev pub customer_provider : Relationship
customer_provider = record { from = customer; to = provider }

abbrev pub provider_customer : Relationship
provider_customer = record { from = provider; to = customer }

abbrev pub peer_peer : Relationship
peer_peer = record { from = peer; to = peer }

abbrev pub relationship_of : Link → Relationship
relationship_of l = record { from = l.f_role; to = l.t_role }

abbrev pub from_with : ℕ → Role → Link → Bool
from_with nr r l = l.f_as == nr && l.f_role == r

abbrev pub between : ℕ → ℕ → Link → Bool
between f t l = l.f_as == f && l.t_as == t

module _ (c : Config) where
  unfoldable pub providers : ℕ → List ℕ
  providers nr = distinct (map (λ l. l.t_as) (filter (from_with nr customer) (all_links c)))

  unfoldable pub peers : ℕ → List ℕ
  peers nr = distinct (
      map (λ l. l.t_as)
        (filter (λ l. from_with nr peer l && elem l.t_as (asnumbers c)) (all_links c)))

  unfoldable pub customers : ℕ → List ℕ
  customers nr = distinct (map (λ l. l.t_as) (filter (from_with nr provider) (all_links c)))

  -- The join of `toixp` and `fromixp`.
  pub has_path_via_ixp : ℕ → ℕ → Bool
  has_path_via_ixp f t =
      any
        (λ toixp.
          any
            (λ fromixp.
              toixp.t_as == fromixp.f_as
              && elem toixp.t_as (ixps c)
              && toixp.f_as == f
              && fromixp.t_as == t)
            (all_links c))
        (all_links c)

  pub relationship_rows : ℕ → ℕ → List Relationship
  relationship_rows f t = distinct (map relationship_of (filter (between f t) (all_links c)))

  -- The tests on `len(r)`.
  pub only_relationship : Bool → List Relationship → Result Error Relationship
  only_relationship via [] = if via then ok peer_peer else err as_path_error
  only_relationship via (r ∷ []) = ok r
  only_relationship via (r ∷ s ∷ rest) = err assertion_error

  pub get_relationship : ℕ → ℕ → Result Error Relationship
  get_relationship f t = only_relationship (has_path_via_ixp f t) (relationship_rows f t)

  -- Every AS that a link leads to; the loops need one round more than there are of these.
  abbrev pub linked : List ℕ
  linked = map (λ l. l.t_as) (all_links c)

  abbrev pub rounds : ℕ
  rounds = suc (length linked)

  abbrev pub or_out_of_fuel : Option (List ℕ) → Result Error (List ℕ)
  or_out_of_fuel none = err out_of_fuel
  or_out_of_fuel (some r) = ok r

  unfoldable pub recursive_customers : ℕ → Result Error (List ℕ)
  recursive_customers nr = or_out_of_fuel (closure customers rounds nr)

  unfoldable pub recursive_providers : ℕ → Result Error (List ℕ)
  recursive_providers nr = or_out_of_fuel (closure providers rounds nr)

  -- Could there be a route from `f_as` via `nextas` to `t_as`?
  pub theoretical_route_via : ℕ → ℕ → ℕ → Result Error Bool
  theoretical_route_via f_as t_as nextas = do
    r ← get_relationship f_as nextas
    if r == customer_provider
        then ok true
        else do cs ← recursive_customers nextas; ok (elem t_as (insert nextas cs))

  abbrev pub has_role : Role → ℕ → Bool
  has_role r n = any (from_with n r) (all_links c)

  pub get_tier1 : List ℕ
  get_tier1 = filter (λ n. not (has_role customer n)) (asnumbers c)

  pub get_tier2 : List ℕ
  get_tier2 = filter (λ n. has_role provider n && has_role customer n) (asnumbers c)

  -- The rows of the table `links`, on either side.
  pub get_tier3 : List ℕ
  get_tier3 =
      filter
        (λ n.
          not (any (λ l. from_with n provider l || (l.t_as == n && l.t_role == provider)) c.links))
        (asnumbers c)

  -- `if pr not in group: new.add(pr)`, for a list of neighbours.
  pub offer_new : List ℕ → List ℕ → List ℕ → List ℕ
  offer_new group new [] = new
  offer_new group new (x ∷ xs) = offer_new group (if elem x group then new else insert x new) xs

  -- `while len(new) > 0`; the element that `pop` takes is the first. `none`: no fuel left.
  pub group_loop : ℕ → List ℕ → List ℕ → Option (List ℕ)
  group_loop fuel group [] = some group
  group_loop zero group (n ∷ rest) = none
  group_loop (suc fuel) group (n ∷ rest) =
      group_loop fuel (insert n group)
        (offer_new (insert n group) (offer_new (insert n group) rest (providers n)) (customers n))

  pub get_as_group : ℕ → Result Error (List ℕ)
  get_as_group asnumber = or_out_of_fuel (group_loop (suc rounds) [] (asnumber ∷ []))
