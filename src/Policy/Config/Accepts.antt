-- ===== src/Policy/Config/Accepts.antt =====
-- Tables that `load_config` accepts.
use mini_internet_extention.Prelude.{
  ℕ, ◌≡◌, refl, ap, ◌∙◌, Bool, true, ◌&&◌, ◌||◌, String, List, [], ◌∷◌, all, arith, Bool-cases, inl,
  inr, ◌==◌, Eq_string, ok, some,
}
use mini_internet_extention.Policy.Config.{
  customer, provider, peer, Role, check_roles, AsType, Side, Link, Config, declared, role_of,
  make_link, insert_ases, insert_link, insert_links, load_config,
}

-- Roles that match, between declared ASes.
abbrev pub fits : List (ℕ × AsType) → Side × Side → Bool
fits ases (a, b) =
    (a.role == "Customer" && b.role == "Provider"
      || a.role == "Provider" && b.role == "Customer"
      || a.role == "Peer" && b.role == "Peer")
    && declared ases a.asn
    && declared ases b.asn

role_of-equal : (s t : String) (r : Role) → s == t ≡ true → role_of t ≡ some r → role_of s ≡ some r
role_of-equal s t r h e = ap role_of ((Eq_string.beq_iff s t).0 h) ∙ e

insert_link-roles :
    (ases : List (ℕ × AsType)) (a b : Side) (r s : Role)
    → role_of a.role ≡ some r
    → role_of b.role ≡ some s
    → check_roles r s ≡ true
    → (declared ases a.asn && declared ases b.asn) ≡ true
    → (l : Link) × (insert_link ases a b ≡ ok l)
unfolding insert_link
insert_link-roles ases a b r s ha hb ok_roles known = (make_link a b r s, ground arith)

insert_link-fits :
    (ases : List (ℕ × AsType)) (a b : Side)
    → fits ases (a, b) ≡ true
    → (l : Link) × (insert_link ases a b ≡ ok l)
unfolding role_of
insert_link-fits ases a b h = elim (Bool-cases (a.role == "Customer" && b.role == "Provider")) [
  | inl up ↦
      insert_link-roles ases a b customer provider
        (role_of-equal a.role "Customer" customer (ground (arith, up)) refl)
        (role_of-equal b.role "Provider" provider (ground (arith, up)) refl) refl
        (ground (arith, up))
  | inr not_up ↦ elim (Bool-cases (a.role == "Provider" && b.role == "Customer")) [
    | inl down ↦
        insert_link-roles ases a b provider customer
          (role_of-equal a.role "Provider" provider (ground (arith, down)) refl)
          (role_of-equal b.role "Customer" customer (ground (arith, down)) refl) refl
          (ground (arith, down))
    | inr not_down ↦
        insert_link-roles ases a b peer peer
          (role_of-equal a.role "Peer" peer (ground (arith, not_up, not_down)) refl)
          (role_of-equal b.role "Peer" peer (ground (arith, not_up, not_down)) refl) refl
          (ground (arith, not_up, not_down))
  ]
]

insert_links-fit :
    (ases : List (ℕ × AsType)) (cs : List (Side × Side))
    → all (fits ases) cs ≡ true
    → (ls : List Link) × (insert_links ases cs ≡ ok ls)
unfolding insert_links
insert_links-fit ases [] h = ([], refl)
insert_links-fit ases ((a, b) ∷ cs) h =
    let (l, e) = insert_link-fits ases a b (ground arith) in
    let (ls, k) = insert_links-fit ases cs (ground arith) in (l ∷ ls, rw e (rw k refl))

-- ASes that can be inserted and connections that fit them load.
pub load_config_accepts :
    (as_data : List (ℕ × String)) (ases : List (ℕ × AsType)) (cs : List (Side × Side))
    → insert_ases as_data ≡ ok ases
    → all (fits ases) cs ≡ true
    → (c : Config) × (load_config as_data cs ≡ ok c)
unfolding load_config
load_config_accepts as_data ases cs h k =
    let (ls, e) = insert_links-fit ases cs k in
    (record { as_config = ases; links = ls }, rw h (rw e refl))
