-- ===== src/Policy/Relations/Tests.antt =====
-- A small Internet: 1 below 2 below 3, which peers with 4, the provider of 5.
use mini_internet_extention.Prelude.{
  ℕ, ◌≡◌, refl, ◌↔◌, ◌⊎◌, inl, inr, Bool, true, Bool-cases, ◌==◌, ◌≢◌, err, arith, List, [], ◌∷◌,
  none, ok, In, Eq_nat, distinct, update, insert,
}
use mini_internet_extention.Policy.Config.{
  assertion_error, Role, customer, provider, peer, plain, Link, Config, all_links, asnumbers, ixps,
}
use mini_internet_extention.Policy.Closure.{closure}
use mini_internet_extention.Policy.Closure.Correct.{Reach}
use mini_internet_extention.Policy.Relations.{
  customer_provider, provider_customer, peer_peer, providers, customers, has_path_via_ixp,
  relationship_rows, only_relationship, get_relationship, recursive_customers, recursive_providers,
  theoretical_route_via, get_as_group, get_tier1, get_tier2, get_tier3,
}
use mini_internet_extention.Policy.Relations.Symmetry.{map_result, get_relationship_symmetric}
use mini_internet_extention.Policy.Relations.Cones.{
  recursive_customers_correct, recursive_providers_correct, cones_dual,
  theoretical_route_via_correct,
}
use mini_internet_extention.Policy.Relations.Group.{Connected, get_as_group_correct}

abbrev link : ℕ → Role → ℕ → Role → Link
link f r t s = record { f_as = f; f_loc = none; f_role = r; t_as = t; t_loc = none; t_role = s }

abbrev pub demo : Config
demo = record {
  as_config = (1, plain) ∷ (2, plain) ∷ (3, plain) ∷ (4, plain) ∷ (5, plain) ∷ [];
  links =
      link 1 customer 2 provider
      ∷ link 2 customer 3 provider
      ∷ link 3 peer 4 peer
      ∷ link 4 provider 5 customer
      ∷ [];
}

pub up_12 : get_relationship demo 1 2 ≡ ok customer_provider
unfolding get_relationship only_relationship relationship_rows has_path_via_ixp all_links ixps
    distinct
up_12 = refl

pub up_23 : get_relationship demo 2 3 ≡ ok customer_provider
unfolding get_relationship only_relationship relationship_rows has_path_via_ixp all_links ixps
    distinct
up_23 = refl

pub down_32 : get_relationship demo 3 2 ≡ ok provider_customer
unfolding get_relationship only_relationship relationship_rows has_path_via_ixp all_links ixps
    distinct
down_32 = refl

pub across_34 : get_relationship demo 3 4 ≡ ok peer_peer
unfolding get_relationship only_relationship relationship_rows has_path_via_ixp all_links ixps
    distinct
across_34 = refl

pub down_45 : get_relationship demo 4 5 ≡ ok provider_customer
unfolding get_relationship only_relationship relationship_rows has_path_via_ixp all_links ixps
    distinct
down_45 = refl

-- Two ASes with one link.
abbrev pub pair : Config
pair = record {
  as_config = (1, plain) ∷ (2, plain) ∷ [];
  links =
      record {
        f_as = 1;
        f_loc = none;
        f_role = customer;
        t_as = 2;
        t_loc = none;
        t_role = provider;
      }
      ∷ [];
}

pub pair_unique : (f t : ℕ) → get_relationship pair f t ≢ err assertion_error
unfolding get_relationship only_relationship relationship_rows all_links distinct update insert
pair_unique f t e = elim (Bool-cases (1 == f)) [
  | inl a ↦ elim (Bool-cases (2 == t)) [
    | inl b ↦ ground (arith, a, b)
    | inr b ↦ ground (arith, a, b)
  ]
  | inr a ↦ elim (Bool-cases (2 == f)) [
    | inl b ↦ elim (Bool-cases (1 == t)) [
      | inl d ↦ ground (arith, a, b, d)
      | inr d ↦ ground (arith, a, b, d)
    ]
    | inr b ↦ ground (arith, a, b)
  ]
]

below_3 : recursive_customers demo 3 ≡ ok (2 ∷ 1 ∷ [])
unfolding recursive_customers customers closure all_links distinct
below_3 = refl

above_1 : recursive_providers demo 1 ≡ ok (2 ∷ 3 ∷ [])
unfolding recursive_providers providers closure all_links distinct
above_1 = refl

tier1 : get_tier1 demo ≡ 3 ∷ 4 ∷ []
unfolding get_tier1 all_links asnumbers
tier1 = refl

tier2 : get_tier2 demo ≡ 2 ∷ []
unfolding get_tier2 all_links asnumbers
tier2 = refl

tier3 : get_tier3 demo ≡ 1 ∷ 5 ∷ []
unfolding get_tier3 asnumbers
tier3 = refl

recursive_customers_correct_example :
    (r : List ℕ) × (recursive_customers demo 3 ≡ ok r)
    × ((a : ℕ) → In a r ↔ Reach (customers demo) 3 a)
recursive_customers_correct_example = recursive_customers_correct demo 3

recursive_providers_correct_example :
    (r : List ℕ) × (recursive_providers demo 1 ≡ ok r)
    × ((a : ℕ) → In a r ↔ Reach (providers demo) 1 a)
recursive_providers_correct_example = recursive_providers_correct demo 1

cones_dual_example : In {A = ℕ} 1 (2 ∷ 1 ∷ []) ↔ In {A = ℕ} 3 (2 ∷ 3 ∷ [])
cones_dual_example = cones_dual demo 3 1 (2 ∷ 1 ∷ []) (2 ∷ 3 ∷ []) refl below_3 above_1

theoretical_route_via_correct_example :
    (b : Bool) × (theoretical_route_via demo 4 5 5 ≡ ok b)
    × ((b ≡ true) ↔ (
        (provider_customer ≡ customer_provider) ⊎ (◌≡◌ {A = ℕ} 5 5 ⊎ Reach (customers demo) 5 5)))
theoretical_route_via_correct_example =
    theoretical_route_via_correct demo 4 5 5 provider_customer down_45

get_relationship_symmetric_example :
    get_relationship demo 2 1 ≡ map_result (get_relationship demo 1 2)
get_relationship_symmetric_example = get_relationship_symmetric demo 1 2

get_as_group_correct_example :
    (r : List ℕ) × (get_as_group demo 2 ≡ ok r) × ((x : ℕ) → In x r ↔ Connected demo 2 x)
get_as_group_correct_example = get_as_group_correct demo 2
