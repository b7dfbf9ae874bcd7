-- ===== src/Policy/Relations/Group.antt =====
-- The worklist of get_as_group ends with the ASes that customer and provider links connect.
use mini_internet_extention.Prelude.{
  ℕ, zero, suc, ◌≤◌, ◌≡◌, refl, ◌↔◌, ◌⊎◌, inl, inr, some, List, [], ◌∷◌, if◌then◌else◌, true, false,
  ◌||◌, arith, ◌==◌, Eq_nat, nat_eq_iff, elem, In, insert, elem-insert, missing, missing-lt,
  missing-le-length, Bool-cases, ok, IsSimple, IsSimple-insert,
}
use mini_internet_extention.Policy.Config.{Config}
use mini_internet_extention.Policy.Relations.{
  customers, providers, linked, rounds, offer_new, group_loop, get_as_group,
}
use mini_internet_extention.Policy.Relations.Cones.{customers-linked, providers-linked}

module _ (c : Config) where
  pub elem-offer_new :
      (group new xs : List ℕ) (a : ℕ)
      → (elem a (offer_new c group new xs) ≡ true)
        ↔ ((elem a new ≡ true) ⊎ (elem a xs ≡ true) × (elem a group ≡ false))
  unfolding offer_new
  elem-offer_new group new [] a = ground arith
  elem-offer_new group new (x ∷ xs) a = ground (
    arith,
    elem-offer_new group (if elem x group then new else insert x new) xs a,
    elem-insert a x new,
    nat_eq_iff a x,
  )

  IsSimple-offer_new : (group new xs : List ℕ) → IsSimple new → IsSimple (offer_new c group new xs)
  unfolding offer_new
  IsSimple-offer_new group new [] u = u
  IsSimple-offer_new group new (x ∷ xs) u = elim (Bool-cases (elem x group)) [
    | inl old ↦ rw old (IsSimple-offer_new group new xs u)
    | inr fresh ↦ rw fresh (IsSimple-offer_new group (insert x new) xs (IsSimple-insert x new u))
  ]

  -- A link of either kind.
  abbrev pub Neighbour : ℕ → ℕ → Type 0
  Neighbour a b = In b (providers c a) ⊎ In b (customers c a)

  -- The ASes that such links connect to `a`, itself included.
  pub data Connected (a : ℕ) : ℕ → Type 0 where
    here : Connected a a
    step : {b d : ℕ} → Connected a b → Neighbour b d → Connected a d

  abbrev next_new : ℕ → List ℕ → List ℕ → List ℕ
  next_new n group rest =
      offer_new c (insert n group) (offer_new c (insert n group) rest (providers c n))
        (customers c n)

  module _ (a : ℕ) where
    record Inv (group new : List ℕ) : Type 0 where
      simple : IsSimple new
      apart : (x : ℕ) → In x new → elem x group ≡ false
      source : (elem a group || elem a new) ≡ true
      sound : (x : ℕ) → (elem x group || elem x new) ≡ true → Connected a x
      closed : (x y : ℕ) → In x group → Neighbour x y → (elem y group || elem y new) ≡ true

    next_iff :
        (n : ℕ) (group rest : List ℕ) (x : ℕ)
        → (elem x (next_new n group rest) ≡ true)
          ↔ ((elem x rest ≡ true) ⊎ Neighbour n x × (elem x (insert n group) ≡ false))
    next_iff n group rest x = ground (
      arith,
      elem-offer_new (insert n group) (offer_new c (insert n group) rest (providers c n))
          (customers c n) x,
      elem-offer_new (insert n group) rest (providers c n) x,
    )

    Inv-step :
        (n : ℕ) (group rest : List ℕ)
        → Inv group (n ∷ rest)
        → Inv (insert n group) (next_new n group rest)
    Inv-step n group rest i = record {
      simple =
          IsSimple-offer_new (insert n group) (offer_new c (insert n group) rest (providers c n))
            (customers c n) (IsSimple-offer_new (insert n group) rest (providers c n) i.simple.1);
      apart = λ x h. ground (
        arith,
        next_iff n group rest x,
        elem-insert x n group,
        nat_eq_iff x n,
        i.apart x,
        i.simple,
      );
      source = ground (arith, elem-insert a n group, next_iff n group rest a, i.source);
      sound = λ x h. elim (Bool-cases (elem x group || elem x (n ∷ rest))) [
        | inl old ↦ i.sound x old
        | inr fresh ↦
            step (i.sound n (ground (arith, nat_eq_iff n n)))
              (ground (arith, elem-insert x n group, next_iff n group rest x))
      ];
      closed = λ x y h k. elim (Bool-cases (x == n)) [
        | inl same ↦
            let e = (nat_eq_iff x n).0 same in
            let k' : Neighbour n y = rw (← e) k in
            elim (Bool-cases (elem y (insert n group))) [
              | inl old ↦ ground arith
              | inr fresh ↦ ground (arith, next_iff n group rest y)
            ]
        | inr ne ↦ ground (
          arith,
          elem-insert x n group,
          elem-insert y n group,
          next_iff n group rest y,
          i.closed x y,
          k,
        )
      ];
    }

    full : (group : List ℕ) → Inv group [] → {x : ℕ} → Connected a x → In x group
    full group i here = ground (arith, i.source)
    full group i (step {b} {d} p h) = ground (arith, i.closed b d (full group i p) h)

    group_ends :
        (all : List ℕ)
        → ((x y : ℕ) → Neighbour x y → In y all)
        → (fuel : ℕ) (group new : List ℕ) → Inv group new
        → ((x : ℕ) → In x new → In x all)
        → missing group all ≤ fuel
        → (r : List ℕ) × (group_loop c fuel group new ≡ some r) × ((x : ℕ) → In x r ↔ Connected a x)
    unfolding group_loop
    group_ends all within zero group [] i sub h =
        (group, refl, λ x. (λ k. i.sound x (ground arith), full group i))
    group_ends all within (suc fuel) group [] i sub h =
        (group, refl, λ x. (λ k. i.sound x (ground arith), full group i))
    group_ends all within zero group (n ∷ rest) i sub h = absurd (
        omega (
          arith,
          missing-lt group (insert n group) all n (λ b k. ground (arith, elem-insert b n group))
              (sub n (ground (arith, nat_eq_iff n n)))
              (ground (arith, elem-insert n n group, nat_eq_iff n n))
              (i.apart n (ground (arith, nat_eq_iff n n))),
        ))
    group_ends all within (suc fuel) group (n ∷ rest) i sub h =
        group_ends all within fuel (insert n group) (next_new n group rest)
          (Inv-step n group rest i)
          (λ x k. elim (Bool-cases (elem x rest)) [
            | inl old ↦ sub x (ground arith)
            | inr fresh ↦ within n x (ground (arith, next_iff n group rest x))
          ])
          (omega (
            arith,
            missing-lt group (insert n group) all n (λ b k. ground (arith, elem-insert b n group))
                (sub n (ground (arith, nat_eq_iff n n)))
                (ground (arith, elem-insert n n group, nat_eq_iff n n))
                (i.apart n (ground (arith, nat_eq_iff n n))),
          ))

-- The loop of get_as_group ends, and its set is everything that customer and provider links
-- connect to the AS, in either direction and any number of steps.
pub get_as_group_correct :
    (c : Config) (a : ℕ)
    → (r : List ℕ) × (get_as_group c a ≡ ok r) × ((x : ℕ) → In x r ↔ Connected c a x)
unfolding get_as_group
get_as_group_correct c a =
    let (r, ends, good) =
      group_ends c a (a ∷ linked c)
        (λ x y h. ground (arith, providers-linked c x y, customers-linked c x y, h))
        (suc (rounds c)) [] (a ∷ [])
        (record {
          simple = (refl, tt);
          apart = λ x h. refl;
          source = ground (arith, nat_eq_iff a a);
          sound = λ x h. rw ((nat_eq_iff x a).0 (ground arith)) here;
          closed = λ x y h k. absurd (ground arith);
        })
        (λ x h. ground arith) (omega (arith, missing-le-length [] (a ∷ linked c))) in
    (r, rw ends refl, good)
