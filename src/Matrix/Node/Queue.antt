-- ===== src/Matrix/Node/Queue.antt =====
-- The queue of compute_customers_rec and compute_providers_rec: it ends with everything that is
-- reached where links form no cycle, and never where they do.
use mini_internet_extention.Prelude.{
  ℕ, zero, suc, ◌+◌, ◌≤◌, ◌<◌, ◌≡◌, refl, ◌↔◌, ◌⊎◌, inl, inr, true, ◌||◌, none, some, List, [], ◌∷◌,
  ◌++◌, ◌==◌, Eq_nat, nat_eq_iff, elem, In, insert, elem-insert, elem-append, arith, Bool-cases,
}
use mini_internet_extention.Policy.Closure.Correct.{Reach, one, more}
use mini_internet_extention.Matrix.Node.{queue_loop}

abbrev pub sum : (ℕ → ℕ) → List ℕ → ℕ
sum f [] = 0
sum f (x ∷ xs) = f x + sum f xs

module _ (next : ℕ → List ℕ) where
  -- The number of walks of at most `k` steps from an AS.
  unfoldable pub walks : ℕ → ℕ → ℕ
  walks zero x = 1
  walks (suc k) x = 1 + sum (walks k) (next x)

  sum-append : (f : ℕ → ℕ) (xs ys : List ℕ) → sum f (xs ++ ys) ≡ sum f xs + sum f ys
  sum-append f [] ys = omega arith
  sum-append f (x ∷ xs) ys = omega (arith, sum-append f xs ys)

  sum_congr : (f g : ℕ → ℕ) (xs : List ℕ) → ((x : ℕ) → In x xs → f x ≡ g x) → sum f xs ≡ sum g xs
  sum_congr f g [] h = refl
  sum_congr f g (x ∷ xs) h =
      omega
        (arith, h x (ground (arith, nat_eq_iff x x)), sum_congr f g xs (λ y m. h y (ground arith)))

  -- A ranking that falls along every step: there is no cycle.
  module _ (rank : ℕ → ℕ) (falls : (x y : ℕ) → In y (next x) → rank y < rank x) where
    no_next : (x : ℕ) → rank x ≤ 0 → sum (walks 0) (next x) ≡ 0
    no_next x h = empty (next x) (λ y m. absurd (omega (arith, falls x y m)))
      where
        empty : (ys : List ℕ) → ((y : ℕ) → In y ys → ⊥) → sum (walks 0) ys ≡ 0
        empty [] k = refl
        empty (y ∷ ys) k = absurd (k y (ground (arith, nat_eq_iff y y)))

    walks_stable : (k x : ℕ) → rank x ≤ k → walks (suc k) x ≡ walks k x
    unfolding walks
    walks_stable zero x h = omega (arith, no_next x h)
    walks_stable (suc k) x h = omega (
      arith,
      sum_congr (walks (suc k)) (walks k) (next x)
          (λ y m. walks_stable k y (omega (arith, falls x y m))),
    )

    queue_ends :
        (k : ℕ)
        → ((x : ℕ) → rank x ≤ k)
        → (fuel : ℕ) (found queue : List ℕ) → sum (walks k) queue ≤ fuel
        → (r : List ℕ) × (queue_loop next fuel found queue ≡ some r)
    unfolding queue_loop walks
    queue_ends k low fuel found [] h = (found, refl)
    queue_ends zero low zero found (x ∷ queue) h = absurd (omega arith)
    queue_ends (suc k) low zero found (x ∷ queue) h = absurd (omega arith)
    queue_ends k low (suc fuel) found (x ∷ queue) h =
        queue_ends k low fuel (insert x found) (queue ++ next x)
          (omega (arith, sum-append (walks k) queue (next x), walks_stable k x (low x)))

  -- What the queue holds or has held was reached, and at the end nothing is left out.
  module _ (a : ℕ) where
    record Inv (found queue : List ℕ) : Type 0 where
      start : (x : ℕ) → In x (next a) → (elem x found || elem x queue) ≡ true
      sound : (x : ℕ) → (elem x found || elem x queue) ≡ true → Reach next a x
      closed : (x y : ℕ) → In x found → In y (next x) → (elem y found || elem y queue) ≡ true

    Inv-step :
        (found queue : List ℕ) (x : ℕ)
        → Inv found (x ∷ queue)
        → Inv (insert x found) (queue ++ next x)
    Inv-step found queue x i = record {
      start = λ y m.
          ground (
            arith,
            elem-insert y x found,
            elem-append y queue (next x),
            i.start y m,
            nat_eq_iff y x,
          );
      sound = λ y m. elim (Bool-cases (elem y found || elem y (x ∷ queue))) [
        | inl old ↦ i.sound y old
        | inr fresh ↦
            more (i.sound x (ground (arith, nat_eq_iff x x)))
              (ground (arith, elem-insert y x found, elem-append y queue (next x), nat_eq_iff y x))
      ];
      closed = λ y z m h. elim (Bool-cases (y == x)) [
        | inl same ↦
            let e = (nat_eq_iff y x).0 same in
            let h' : In z (next x) = rw (← e) h in
            ground (arith, elem-insert z x found, elem-append z queue (next x))
        | inr ne ↦ ground (
          arith,
          elem-insert y x found,
          elem-insert z x found,
          elem-append z queue (next x),
          i.closed y z,
          h,
          nat_eq_iff z x,
        )
      ];
    }

    full : (found : List ℕ) → Inv found [] → {x : ℕ} → Reach next a x → In x found
    full found i (one h) = ground (arith, i.start _ h)
    full found i (more {b} {c} p h) = ground (arith, i.closed b c (full found i p) h)

    queue_sound :
        (fuel : ℕ) (found queue r : List ℕ)
        → Inv found queue
        → queue_loop next fuel found queue ≡ some r
        → (x : ℕ) → In x r ↔ Reach next a x
    unfolding queue_loop
    queue_sound fuel found [] r i e x =
        let same : found ≡ r = ground arith in
        (λ m. i.sound x (ground arith), λ p. rw (← same) (full found i p))
    queue_sound zero found (y ∷ queue) r i e x = absurd (ground arith)
    queue_sound (suc fuel) found (y ∷ queue) r i e x =
        queue_sound fuel (insert y found) (queue ++ next y) r (Inv-step found queue y i) e x

    Inv-start : Inv [] (next a)
    Inv-start = record {
      start = λ x m. m;
      sound = λ x m. one m;
      closed = λ x y m h. absurd (ground arith);
    }

-- Where a ranking of at most k falls along every link, as in a hierarchy of customers, the queue
-- ends with any fuel that the number of walks allows, and finds exactly the ASes that are reached.
pub queue_correct :
    (next : ℕ → List ℕ) (rank : ℕ → ℕ) (k a fuel : ℕ)
    → ((x y : ℕ) → In y (next x) → rank y < rank x)
    → ((x : ℕ) → rank x ≤ k)
    → sum (walks next k) (next a) ≤ fuel
    → (r : List ℕ) × (queue_loop next fuel [] (next a) ≡ some r)
      × ((x : ℕ) → In x r ↔ Reach next a x)
queue_correct next rank k a fuel falls low h =
    let (r, ends) = queue_ends next rank falls k low fuel [] (next a) h in
    (r, ends, queue_sound next a fuel [] (next a) r (Inv-start next a) ends)

-- Where `stays` holds of an AS in the queue and of a next one of each for which it holds, the
-- queue never empties.
queue_forever :
    (next : ℕ → List ℕ) (Stays : ℕ → Type 0)
    → ((x : ℕ) → Stays x → (y : ℕ) × In y (next x) × Stays y)
    → (fuel : ℕ) (found queue : List ℕ) (x : ℕ) → In x queue
    → Stays x
    → queue_loop next fuel found queue ≡ none
unfolding queue_loop
queue_forever next Stays keep fuel found [] x m s = absurd (ground arith)
queue_forever next Stays keep zero found (z ∷ queue) x m s = refl
queue_forever next Stays keep (suc fuel) found (z ∷ queue) x m s = elim (Bool-cases (x == z)) [
  | inl same ↦
      let (y, k, t) = keep x s in
      let k' : In y (next z) = rw (← ((nat_eq_iff x z).0 same)) k in
      queue_forever next Stays keep fuel (insert z found) (queue ++ next z) y
        (ground (arith, elem-append y queue (next z))) t
  | inr ne ↦
      queue_forever next Stays keep fuel (insert z found) (queue ++ next z) x
        (ground (arith, elem-append x queue (next z))) s
]

Reach-first :
    (next : ℕ → List ℕ) {a b : ℕ}
    → Reach next a b
    → (y : ℕ) × In y (next a) × ((y ≡ b) ⊎ Reach next y b)
Reach-first next (one {b} h) = (b, h, inl refl)
Reach-first next (more {b} {c} p h) =
    let (y, m, rest) = Reach-first next p in
    (y, m, inr (elim rest [ inl e ↦ one (rw e h) | inr q ↦ more q h ]))

-- From an AS on a cycle of links the queue never ends, whatever the fuel.
pub queue_cycle_diverges :
    (next : ℕ → List ℕ) (a fuel : ℕ) → Reach next a a → queue_loop next fuel [] (next a) ≡ none
queue_cycle_diverges next a fuel cycle =
    let (y, m, s) = step a cycle in
    queue_forever next (λ x. Reach next x a) step fuel [] (next a) y m s
  where
    step : (x : ℕ) → Reach next x a → (y : ℕ) × In y (next x) × Reach next y a
    step x p =
        let (y, m, rest) = Reach-first next p in
        (y, m, elim rest [ inl e ↦ rw e cycle | inr q ↦ q ])
