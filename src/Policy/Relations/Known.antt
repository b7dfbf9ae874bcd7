-- ===== src/Policy/Relations/Known.antt =====
-- The relationships that a well-formed configuration can show.
use mini_internet_extention.Prelude.{
  ℕ, ◌≡◌, ◌⊎◌, Bool, true, List, [], ◌∷◌, ◌&&◌, ◌==◌, ok, arith, any, any_implies, elem,
}
use mini_internet_extention.Policy.Config.{role_eq_iff, Link, Config, check_roles, all_links}
use mini_internet_extention.Policy.Config.WellFormed.{IsWellFormed, link_fits, all_links-fit}
use mini_internet_extention.Policy.Relations.{
  Relationship, rel_eq_iff, Eq_rel, customer_provider, provider_customer, peer_peer, between,
  relationship_of, relationship_rows, only_relationship, has_path_via_ixp, get_relationship,
}
use mini_internet_extention.Policy.Relations.Symmetry.{elem-rows}

abbrev pub is_known : Relationship → Bool
is_known r = check_roles r.from r.to

known-row :
    (c : Config) (f t : ℕ) (r : Relationship)
    → IsWellFormed c
    → elem r (relationship_rows c f t) ≡ true
    → is_known r ≡ true
known-row c f t r w h =
    let some_row : any (λ l. is_known r) (all_links c) ≡ true =
      any_implies (link_fits c.as_config) (λ l. between f t l && r == relationship_of l)
        (λ l. is_known r) (all_links c) (all_links-fit c w)
        (λ l fits k.
          ground (arith, role_eq_iff r.from l.f_role, role_eq_iff r.to l.t_role, fits, k))
        (rw (elem-rows c f t r) at h) in
    constant (all_links c) some_row
  where
    constant : (ls : List Link) → any (λ l. is_known r) ls ≡ true → is_known r ≡ true
    constant [] e = absurd (ground arith)
    constant (l ∷ ls) e = ground (arith, constant ls)

-- In a well-formed configuration a relationship that is found is one of the three that the code
-- names.
pub get_relationship-known :
    (c : Config) (f t : ℕ) (r : Relationship)
    → IsWellFormed c
    → get_relationship c f t ≡ ok r
    → (r ≡ customer_provider) ⊎ ((r ≡ peer_peer) ⊎ (r ≡ provider_customer))
unfolding get_relationship only_relationship
get_relationship-known c f t r w h =
    named r
      (classify (has_path_via_ixp c f t) (relationship_rows c f t) (λ x. known-row c f t x w) h)
  where
    classify :
        (via : Bool) (rows : List Relationship)
        → ((x : Relationship) → elem x rows ≡ true → is_known x ≡ true)
        → only_relationship c via rows ≡ ok r
        → is_known r ≡ true
    classify via [] k e = ground arith
    classify via (x ∷ []) k e = ground (arith, k x, rel_eq_iff x x)
    classify via (x ∷ y ∷ rows) k e = absurd (ground arith)

    named :
        (x : Relationship)
        → is_known x ≡ true
        → (x ≡ customer_provider) ⊎ ((x ≡ peer_peer) ⊎ (x ≡ provider_customer))
    named x k = ground arith
