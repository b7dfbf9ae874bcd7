-- ===== src/Policy/Relations/Cones.antt =====
-- The recursive sets are what the links reach, and customers mirror providers.
use mini_internet_extention.Prelude.{
  ℕ, ◌≡◌, refl, ◌∙◌, ◌↔◌, Bool, true, ◌&&◌, List, [], ◌∷◌, map, arith, ◌==◌, Eq_nat, nat_eq_iff, ok,
  any, elem, In, insert, elem-insert, elem-distinct, elem-select, any_implies, Bool-cases, inl, inr,
  ◌⊎◌,
}
use mini_internet_extention.Policy.Config.{
  customer, provider, Link, Config, flip, all_links, role_eq_iff,
}
use mini_internet_extention.Policy.Config.WellFormed.{IsWellFormed, link_fits, all_links-fit}
use mini_internet_extention.Policy.Closure.Correct.{Reach, one, more, closure_correct}
use mini_internet_extention.Policy.Relations.{
  Relationship, rel_eq_iff, Eq_rel, customer_provider, from_with, customers, providers, linked,
  rounds, recursive_customers, recursive_providers, get_relationship, theoretical_route_via,
}
use mini_internet_extention.Policy.Relations.Symmetry.{any-all_links}

module _ (c : Config) where
  pub elem-customers :
      (a b : ℕ)
      → elem b (customers c a) ≡ any (λ l. from_with a provider l && b == l.t_as) (all_links c)
  unfolding customers
  elem-customers a b =
      elem-distinct b _ ∙ elem-select b (λ l. l.t_as) (from_with a provider) (all_links c)

  pub elem-providers :
      (a b : ℕ)
      → elem b (providers c a) ≡ any (λ l. from_with a customer l && b == l.t_as) (all_links c)
  unfolding providers
  elem-providers a b =
      elem-distinct b _ ∙ elem-select b (λ l. l.t_as) (from_with a customer) (all_links c)

  elem-linked : (b : ℕ) → elem b (linked c) ≡ any (λ l. b == l.t_as) (all_links c)
  elem-linked b = go (all_links c)
    where
      go : (ls : List Link) → elem b (map (λ (l : Link). l.t_as) ls) ≡ any (λ l. b == l.t_as) ls
      go [] = refl
      go (l ∷ ls) = ground (arith, go ls)

  any_weaken :
      (p q : Link → Bool) (ls : List Link)
      → ((l : Link) → p l ≡ true → q l ≡ true)
      → any p ls ≡ true
      → any q ls ≡ true
  any_weaken p q [] h e = cc
  any_weaken p q (l ∷ ls) h e = ground (arith, any_weaken p q ls h, h l)

  pub customers-linked : (a b : ℕ) → In b (customers c a) → In b (linked c)
  customers-linked a b h =
      elem-linked b
      ∙ any_weaken (λ l. from_with a provider l && b == l.t_as) (λ l. b == l.t_as) (all_links c)
          (λ l k. ground arith) (ground (arith, elem-customers a b))

  pub providers-linked : (a b : ℕ) → In b (providers c a) → In b (linked c)
  providers-linked a b h =
      elem-linked b
      ∙ any_weaken (λ l. from_with a customer l && b == l.t_as) (λ l. b == l.t_as) (all_links c)
          (λ l k. ground arith) (ground (arith, elem-providers a b))

  module _ (w : IsWellFormed c) where
    pub customer-provider : (a b : ℕ) → In b (customers c a) → In a (providers c b)
    customer-provider a b h =
        elem-providers b a
        ∙ any-all_links c (λ l. from_with b customer l && a == l.t_as)
        ∙ any_implies (link_fits c.as_config) (λ l. from_with a provider l && b == l.t_as)
            (λ l. from_with b customer (flip l) && a == l.f_as) (all_links c) (all_links-fit c w)
            (λ l fits k. ground (
              arith,
              nat_eq_iff b l.t_as,
              nat_eq_iff l.t_as b,
              nat_eq_iff a l.f_as,
              nat_eq_iff l.f_as a,
              role_eq_iff l.f_role provider,
            ))
            (ground (arith, elem-customers a b))

    pub provider-customer : (a b : ℕ) → In b (providers c a) → In a (customers c b)
    provider-customer a b h =
        elem-customers b a
        ∙ any-all_links c (λ l. from_with b provider l && a == l.t_as)
        ∙ any_implies (link_fits c.as_config) (λ l. from_with a customer l && b == l.t_as)
            (λ l. from_with b provider (flip l) && a == l.f_as) (all_links c) (all_links-fit c w)
            (λ l fits k. ground (
              arith,
              nat_eq_iff b l.t_as,
              nat_eq_iff l.t_as b,
              nat_eq_iff a l.f_as,
              nat_eq_iff l.f_as a,
              role_eq_iff l.f_role customer,
            ))
            (ground (arith, elem-providers a b))

Reach-before : (next : ℕ → List ℕ) {a b d : ℕ} → In b (next a) → Reach next b d → Reach next a d
Reach-before next h (one k) = more (one h) k
Reach-before next h (more p k) = more (Reach-before next h p) k

Reach-back :
    (next prev : ℕ → List ℕ) (turn : (x y : ℕ) → In y (next x) → In x (prev y)) {a b : ℕ}
    → Reach next a b
    → Reach prev b a
Reach-back next prev turn (one h) = one (turn _ _ h)
Reach-back next prev turn (more {b} {c} p h) =
    Reach-before prev (turn b c h) (Reach-back next prev turn p)

-- The loop of recursive_customers ends, also where customers form a cycle, and its result holds
-- exactly the ASes that one or more links from provider to customer reach.
pub recursive_customers_correct :
    (c : Config) (nr : ℕ)
    → (r : List ℕ) × (recursive_customers c nr ≡ ok r)
      × ((a : ℕ) → In a r ↔ Reach (customers c) nr a)
unfolding recursive_customers
recursive_customers_correct c nr =
    let (r, ends, good) =
      closure_correct (customers c) nr (linked c) (customers-linked c) (rounds c) (omega arith) in
    (r, rw ends refl, good)

-- The loop of recursive_providers ends, also where providers form a cycle, and its result holds
-- exactly the ASes that one or more links from customer to provider reach.
pub recursive_providers_correct :
    (c : Config) (nr : ℕ)
    → (r : List ℕ) × (recursive_providers c nr ≡ ok r)
      × ((a : ℕ) → In a r ↔ Reach (providers c) nr a)
unfolding recursive_providers
recursive_providers_correct c nr =
    let (r, ends, good) =
      closure_correct (providers c) nr (linked c) (providers-linked c) (rounds c) (omega arith) in
    (r, rw ends refl, good)

-- In a well-formed configuration b is in the customer set of a exactly when a is in the provider
-- set of b.
pub cones_dual :
    (c : Config) (a b : ℕ) (cs ps : List ℕ)
    → IsWellFormed c
    → recursive_customers c a ≡ ok cs
    → recursive_providers c b ≡ ok ps
    → In b cs ↔ In a ps
cones_dual c a b cs ps w hc hp =
    let (r, er, good) = recursive_customers_correct c a in
    let (s, es, fine) = recursive_providers_correct c b in
    let same : r ≡ cs = ground (arith, er) in
    let same' : s ≡ ps = ground (arith, es) in
    (
      λ h. rw (← same') (
          (fine a).1 (
            Reach-back (customers c) (providers c) (customer-provider c w)
              ((good b).0 (rw same h)))),
      λ h. rw (← same) (
          (good b).1 (
            Reach-back (providers c) (customers c) (provider-customer c w)
              ((fine a).0 (rw same' h)))),
    )

-- Where get_relationship finds a relationship to the next AS, theoretical_route_via returns; it
-- answers yes exactly if the next AS is a provider, or is the destination, or has the destination
-- below it over links from provider to customer.
pub theoretical_route_via_correct :
    (c : Config) (f_as t_as nextas : ℕ) (r : Relationship)
    → get_relationship c f_as nextas ≡ ok r
    → (b : Bool) × (theoretical_route_via c f_as t_as nextas ≡ ok b)
      × ((b ≡ true)
          ↔ ((r ≡ customer_provider) ⊎ ((t_as ≡ nextas) ⊎ Reach (customers c) nextas t_as)))
unfolding theoretical_route_via
theoretical_route_via_correct c f_as t_as nextas r h = elim (Bool-cases (r == customer_provider)) [
  | inl up ↦ (true, ground arith, (λ k. inl ((rel_eq_iff r customer_provider).0 up), λ k. refl))
  | inr down ↦
      let (cs, ends, good) = recursive_customers_correct c nextas in
      (
        elem t_as (insert nextas cs),
        ground (arith, h, ends, down),
        (
          λ k. inr (elim (Bool-cases (elem t_as cs)) [
            | inl below ↦ inr ((good t_as).0 below)
            | inr apart ↦ inl (ground (arith, elem-insert t_as nextas cs, nat_eq_iff t_as nextas))
          ]),
          λ k. ground (
            arith,
            elem-insert t_as nextas cs,
            nat_eq_iff t_as nextas,
            (good t_as).1,
            rel_eq_iff r customer_provider,
          ),
        ),
      )
]
