-- ===== src/Policy/Analysis/Announcements/Complete.antt =====
-- The missing announcements that are logged are exactly the ones that are missing.
use mini_internet_extention.Prelude.{
  ℕ, ◌≡◌, refl, ◌↔◌, ◌⊎◌, inl, inr, false, not, List, [], ◌∷◌, map, ◌==◌, Eq_nat, nat_eq_iff, ok,
  filter, elem, In, update, elem-update, Bool-cases, arith,
}
use mini_internet_extention.Policy.Config.{Config}
use mini_internet_extention.Policy.Closure.Correct.{Reach}
use mini_internet_extention.Policy.Relations.{customers, peers}
use mini_internet_extention.Policy.Relations.Cones.{recursive_customers_correct}
use mini_internet_extention.Policy.LookingGlass.{Row}
use mini_internet_extention.Policy.Collect.{
  Has, collect, collect-ok, Has-collect, collect-Has, In-Has, Has-In,
}
use mini_internet_extention.Policy.Log.{error, Entry, log, missing_announcement}
use mini_internet_extention.Policy.Analysis.Announcements.{
  has_route_via, check_announced, check_customer, check_customers, check_peers,
}

Has-announced :
    (rows : List Row) (number via : ℕ) (set : List ℕ) (d : ℕ)
    → In d set
    → has_route_via rows number d via ≡ false
    → Has (log error (missing_announcement number d via)) (check_announced rows number via set)
unfolding check_announced
Has-announced rows number via [] d m h = absurd (ground arith)
Has-announced rows number via (x ∷ set) d m h = elim (Bool-cases (d == x)) [
  | inl same ↦
      let e = (nat_eq_iff d x).0 same in
      let none_here : has_route_via rows number x via ≡ false = rw (← e) h in
      rw (none_here) (inl (ground (arith, e)))
  | inr ne ↦
      let below = Has-announced rows number via set d (ground arith) h in
      elim (Bool-cases (has_route_via rows number x via)) [
        | inl there ↦ rw there below
        | inr absent ↦ rw absent (inr below)
      ]
]

announced-Has :
    (rows : List Row) (number via : ℕ) (set : List ℕ) (e : Entry)
    → Has e (check_announced rows number via set)
    → (d : ℕ) × (e ≡ log error (missing_announcement number d via))
      × In d set
      × (has_route_via rows number d via ≡ false)
unfolding check_announced
announced-Has rows number via [] e h = absurd h
announced-Has rows number via (x ∷ set) e h = elim (Bool-cases (has_route_via rows number x via)) [
  | inl there ↦
      let (d, same, m, none_here) = announced-Has rows number via set e (rw there at h) in
      (d, same, ground arith, none_here)
  | inr absent ↦ first (announced-Has rows number via set e) (rw absent at h) absent
]
  where
    first :
        (Has e (check_announced rows number via set)
          → (d : ℕ) × (e ≡ log error (missing_announcement number d via))
            × In d set
            × (has_route_via rows number d via ≡ false))
        → Has e (
            log error (missing_announcement number x via)
            ∷ map
                (λ d. log error (missing_announcement number d via))
                (filter (λ d. not (has_route_via rows number d via)) set))
        → has_route_via rows number x via ≡ false
        → (d : ℕ) × (e ≡ log error (missing_announcement number d via))
          × In d (x ∷ set)
          × (has_route_via rows number d via ≡ false)
    first later (inl same) absent = (x, same, ground (arith, nat_eq_iff x x), absent)
    first later (inr m) absent =
        let (d, same, k, none_here) = later m in (d, same, ground arith, none_here)

-- The ASes that a neighbour below or beside should announce: itself and everything below it.
abbrev pub Announces : Config → ℕ → ℕ → Type 0
Announces c via d = (d ≡ via) ⊎ Reach (customers c) via d

module _ (c : Config) (rows : List Row) (number : ℕ) where
  check_customer_correct :
      (via : ℕ)
      → (out : List Entry) × (check_customer c rows number via ≡ ok out)
        × ((d : ℕ)
            → Announces c via d
            → has_route_via rows number d via ≡ false
            → Has (log error (missing_announcement number d via)) out)
        × ((e : Entry)
            → Has e out
            → (d : ℕ) × (e ≡ log error (missing_announcement number d via))
              × Announces c via d
              × (has_route_via rows number d via ≡ false))
  unfolding check_customer
  check_customer_correct via =
      let (below, ends, good) = recursive_customers_correct c via in
      let set = update (via ∷ []) below in
      (
        check_announced rows number via set,
        rw ends refl,
        λ d a h. Has-announced rows number via set d (inside below good d a) h,
        λ e h.
            let (d, same, m, absent) = announced-Has rows number via set e h in
            (d, same, outside below good d m, absent),
      )
    where
      inside :
          (below : List ℕ)
          → ((a : ℕ) → In a below ↔ Reach (customers c) via a)
          → (d : ℕ) → Announces c via d
          → In d (update (via ∷ []) below)
      inside below good d (inl e) = ground (arith, elem-update d (via ∷ []) below, nat_eq_iff d via)
      inside below good d (inr p) =
          let m = (good d).1 p in ground (arith, elem-update d (via ∷ []) below)

      outside :
          (below : List ℕ)
          → ((a : ℕ) → In a below ↔ Reach (customers c) via a)
          → (d : ℕ) → In d (update (via ∷ []) below)
          → Announces c via d
      outside below good d m = elim (Bool-cases (elem d below)) [
        | inl there ↦ inr ((good d).0 there)
        | inr absent ↦ inl (ground (arith, elem-update d (via ∷ []) below, nat_eq_iff d via))
      ]

  -- The loop over neighbours returns, and logs exactly what is missing at each of them.
  check_all :
      (vias : List ℕ)
      → (out : List Entry) × (collect (check_customer c rows number) vias ≡ ok out)
        × ((e : Entry)
            → Has e out ↔ (
                (via : ℕ) × (d : ℕ) × In via vias
                × Announces c via d
                × (has_route_via rows number d via ≡ false)
                × (e ≡ log error (missing_announcement number d via))))
  check_all vias =
      let (out, ends) =
        collect-ok (check_customer c rows number) vias
          (λ via. let (here, returns, _, _) = check_customer_correct via in (here, returns)) in
      (
        out,
        ends,
        λ e. (
          λ h.
              let (via, here, m, returns, k) =
                collect-Has (check_customer c rows number) vias e out ends h in
              let (here', returns', full, sound) = check_customer_correct via in
              let same : here ≡ here' = ground (arith, returns, returns') in
              let (d, shape, a, absent) = sound e (rw same at k) in
              (via, d, In-Has via vias m, a, absent, shape),
          λ (via, d, m, a, absent, shape).
              let (here, returns, full, sound) = check_customer_correct via in
              rw shape (
                Has-collect (check_customer c rows number) vias via
                  (log error (missing_announcement number d via)) here out (Has-In via vias m)
                  returns (full d a absent) ends),
        ),
      )

-- The check of an AS's customers returns; it logs an entry exactly for each customer and each AS
-- that is the customer or reached from it over links down, for which no route of the AS has that
-- AS's prefix and goes through the customer.
pub check_customers_correct :
    (c : Config) (rows : List Row) (number : ℕ)
    → (out : List Entry) × (check_customers c rows number ≡ ok out)
      × ((e : Entry)
          → Has e out ↔ (
              (via : ℕ) × (d : ℕ) × In via (customers c number)
              × Announces c via d
              × (has_route_via rows number d via ≡ false)
              × (e ≡ log error (missing_announcement number d via))))
unfolding check_customers
check_customers_correct c rows number = check_all c rows number (customers c number)

-- The check of an AS's peers returns; it logs an entry exactly for each peer and each AS that is
-- the peer or reached from it over links down, for which no route of the AS has that AS's prefix
-- and goes through the peer.
pub check_peers_correct :
    (c : Config) (rows : List Row) (number : ℕ)
    → (out : List Entry) × (check_peers c rows number ≡ ok out)
      × ((e : Entry)
          → Has e out ↔ (
              (via : ℕ) × (d : ℕ) × In via (peers c number)
              × Announces c via d
              × (has_route_via rows number d via ≡ false)
              × (e ≡ log error (missing_announcement number d via))))
unfolding check_peers
check_peers_correct c rows number = check_all c rows number (peers c number)
