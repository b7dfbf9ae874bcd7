-- ===== src/Policy/Config/WellFormed.antt =====
-- What the constraints of the tables give the analysis.
use mini_internet_extention.Prelude.{
  ℕ, ◌≡◌, refl, Bool, true, false, ◌&&◌, some, List, [], ◌∷◌, map, arith, String, ok, err, all,
  all-append, all-map, length, Result-cases, inl, inr,
}
use mini_internet_extention.Policy.Config.{
  integrity_error, Role, AsType, Side, Link, Config, check_roles, declared, role_of, make_link,
  insert_ases, insert_link, insert_links, load_config, all_links, flip,
}

-- Roles in one of the three admitted pairs, between ASes of the configuration.
abbrev pub link_fits : List (ℕ × AsType) → Link → Bool
link_fits ases l = check_roles l.f_role l.t_role && declared ases l.f_as && declared ases l.t_as

abbrev pub IsWellFormed : Config → Type 0
IsWellFormed c = all (link_fits c.as_config) c.links ≡ true

insert_link-fits :
    (ases : List (ℕ × AsType)) (a b : Side) (l : Link)
    → insert_link ases a b ≡ ok l
    → link_fits ases l ≡ true
unfolding insert_link make_link
insert_link-fits ases a b l h = ground arith

insert_links-fit :
    (ases : List (ℕ × AsType)) (cs : List (Side × Side)) (ls : List Link)
    → insert_links ases cs ≡ ok ls
    → (all (link_fits ases) ls ≡ true) × (length ls ≡ length cs)
unfolding insert_links
insert_links-fit ases [] ls h = ground arith
insert_links-fit ases ((a, b) ∷ cs) ls h = elim (Result-cases (insert_link ases a b)) [
  | inl (l, e) ↦ elim (Result-cases (insert_links ases cs)) [
    | inl (more, e') ↦
        ground (arith, e, e', insert_link-fits ases a b l, insert_links-fit ases cs more)
    | inr (x, e') ↦ absurd (ground (arith, e, e'))
  ]
  | inr (x, e) ↦ absurd (ground (arith, e))
]

-- A configuration that loads is well-formed, which is to say that each link has matching roles and
-- joins two declared ASes, and has one link for each connection.
pub load_config-IsWellFormed :
    (as_data : List (ℕ × String)) (connections : List (Side × Side)) (c : Config)
    → load_config as_data connections ≡ ok c
    → IsWellFormed c × (length c.links ≡ length connections)
unfolding load_config
load_config-IsWellFormed as_data connections c h = elim (Result-cases (insert_ases as_data)) [
  | inl (ases, e) ↦ elim (Result-cases (insert_links ases connections)) [
    | inl (ls, e') ↦ ground (arith, e, e', insert_links-fit ases connections ls)
    | inr (x, e') ↦ absurd (ground (arith, e, e'))
  ]
  | inr (x, e) ↦ absurd (ground (arith, e))
]

-- Where the ASes can be inserted, a first connection whose roles do not match, such as two
-- providers, stops the load with an IntegrityError.
load_config-refused :
    (as_data : List (ℕ × String)) (ases : List (ℕ × AsType)) (a b : Side) (r s : Role)
    (rest : List (Side × Side))
    → insert_ases as_data ≡ ok ases
    → role_of a.role ≡ some r
    → role_of b.role ≡ some s
    → check_roles r s ≡ false
    → load_config as_data ((a, b) ∷ rest) ≡ err integrity_error
unfolding load_config insert_links insert_link
load_config-refused as_data ases a b r s rest h ha hb bad = ground arith

-- Both directions of every link fit.
pub all_links-fit : (c : Config) → IsWellFormed c → all (link_fits c.as_config) (all_links c) ≡ true
unfolding all_links
all_links-fit c h = ground (
  arith,
  all-append (link_fits c.as_config) c.links (map flip c.links),
  all-map (link_fits c.as_config) flip c.links,
  turned c.as_config c.links,
)
  where
    turned :
        (ases : List (ℕ × AsType)) (ls : List Link)
        → all (link_fits ases) ls ≡ true
        → all (λ l. link_fits ases (flip l)) ls ≡ true
    turned ases [] k = refl
    turned ases (l ∷ ls) k = ground (arith, turned ases ls)
