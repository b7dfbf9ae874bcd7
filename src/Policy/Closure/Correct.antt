-- ===== src/Policy/Closure/Correct.antt =====
-- The loop ends, and finds exactly the ASes that a walk of at least one step reaches.
use mini_internet_extention.Prelude.{
  ℕ, zero, suc, ◌<◌, ◌≡◌, refl, ◌↔◌, ◌⊎◌, inl, inr, some, List, [], ◌∷◌, if◌then◌else◌, Eq_nat,
  elem, In, insert, update, false, ◌||◌, arith, ◌==◌, Bool-cases, elem-insert, elem-update, missing,
  missing-lt, missing-le-length, length, nat_eq_iff, List-cases,
}
use mini_internet_extention.Policy.Closure.{round, loop, closure}

-- The walks of at least one step from `a`.
pub data Reach (next : ℕ → List ℕ) (a : ℕ) : ℕ → Type 0 where
  one : {b : ℕ} → In b (next a) → Reach next a b
  more : {b c : ℕ} → Reach next a b → In c (next b) → Reach next a c

module _ (next : ℕ → List ℕ) where
  -- After a round everything of `todo` is done.
  done-round :
      (done new todo : List ℕ) (a : ℕ)
      → elem a (round next done new todo).0 ≡ (elem a done || elem a todo)
  unfolding round
  done-round done new [] a = ground arith
  done-round done new (x ∷ todo) a = ground (
    arith,
    done-round (insert x done) (if elem x done then new else update new (next x)) todo a,
    elem-insert a x done,
  )

  -- What was new stays new.
  new-round : (done new todo : List ℕ) (a : ℕ) → In a new → In a (round next done new todo).1
  unfolding round
  new-round done new [] a h = h
  new-round done new (x ∷ todo) a h =
      new-round (insert x done) (if elem x done then new else update new (next x)) todo a
        (ground (arith, elem-update a new (next x)))

  -- A round puts the neighbours of what it makes done into `new`.
  full-round :
      (done new todo : List ℕ) (x a : ℕ)
      → In x todo
      → elem x done ≡ false
      → In a (next x)
      → In a (round next done new todo).1
  unfolding round
  full-round done new [] x a m old h = absurd (ground arith)
  full-round done new (y ∷ todo) x a m old h = elim (Bool-cases (x == y)) [
    | inl same ↦
        let e = (nat_eq_iff x y).0 same in
        let fresh : elem y done ≡ false = rw (← e) old in
        new-round (insert y done) (if elem y done then new else update new (next y)) todo a
          (rw fresh (ground (arith, elem-update a new (next y), e)))
    | inr ne ↦
        full-round (insert y done) (if elem y done then new else update new (next y)) todo x a
          (ground arith) (ground (arith, elem-insert x y done)) h
  ]

  -- What is new is a neighbour of something of `todo`.
  sound-round :
      (done new todo : List ℕ) (a : ℕ)
      → In a (round next done new todo).1
      → In a new ⊎ ((x : ℕ) × In x todo × (elem x done ≡ false) × In a (next x))
  unfolding round
  sound-round done new [] a h = inl h
  sound-round done new (y ∷ todo) a h =
      elim (sound-round (insert y done) (if elem y done then new else update new (next y)) todo a
        h) [
          | inl m ↦ elim (Bool-cases (elem y done)) [
            | inl old ↦ inl (rw old at m)
            | inr fresh ↦ elim (Bool-cases (elem a new)) [
              | inl k ↦ inl k
              | inr k ↦ inr (
                y,
                ground (arith, nat_eq_iff y y),
                fresh,
                ground (arith, elem-update a new (next y)),
              )
            ]
          ]
          | inr (x, m, old, n) ↦ inr (x, ground arith, ground (arith, elem-insert x y done), n)
        ]

  module _ (nr : ℕ) where
    -- What the loop keeps: the result so far is what is done or to do.
    record Inv (cs done todo : List ℕ) : Type 0 where
      split : (a : ℕ) → elem a cs ≡ (elem a done || elem a todo)
      start : (a : ℕ) → In a (next nr) → In a cs
      sound : (a : ℕ) → In a cs → Reach next nr a
      closed : (x a : ℕ) → In x done → In a (next x) → In a cs

    Inv-start : Inv (next nr) [] (next nr)
    Inv-start = record {
      split = λ a. refl;
      start = λ a h. h;
      sound = λ a h. one h;
      closed = λ x a h k. absurd (ground arith);
    }

    -- A neighbour of what a round has done was known or is new.
    closed-round :
        (cs done todo : List ℕ) (i : Inv cs done todo) (x a : ℕ)
        → In x (round next done [] todo).0
        → In a (next x)
        → In a (update cs (round next done [] todo).1)
    closed-round cs done todo i x a h k = elim (Bool-cases (elem x done)) [
      | inl old ↦ ground (arith, elem-update a cs (round next done [] todo).1, i.closed x a old k)
      | inr fresh ↦
          let m : In x todo = ground (arith, done-round done [] todo x) in
          ground (
            arith,
            elem-update a cs (round next done [] todo).1,
            full-round done [] todo x a m fresh k,
          )
    ]

    Inv-round :
        (cs done todo : List ℕ)
        → Inv cs done todo
        → Inv
            (update cs (round next done [] todo).1)
            (round next done [] todo).0
            (round next done [] todo).1
    Inv-round cs done todo i = record {
      split = λ a. ground (
        arith,
        elem-update a cs (round next done [] todo).1,
        done-round done [] todo a,
        i.split a,
      );
      start = λ a h. ground (arith, elem-update a cs (round next done [] todo).1, i.start a h);
      sound = λ a h. elim (Bool-cases (elem a cs)) [
        | inl old ↦ i.sound a old
        | inr fresh ↦
            elim (sound-round done [] todo a
              (ground (arith, elem-update a cs (round next done [] todo).1))) [
                | inl no_one ↦ absurd (ground arith)
                | inr (x, m, old, n) ↦ more (i.sound x (ground (arith, i.split x))) n
              ]
      ];
      closed = λ x a h k. closed-round cs done todo i x a h k;
    }

    full : (r : List ℕ) (i : Inv r r []) {a : ℕ} → Reach next nr a → In a r
    full r i (one h) = i.start _ h
    full r i (more {b} {c} p h) = i.closed b c (full r i p) h

    -- With nothing new, what is done is all.
    Inv-end :
        (cs done todo : List ℕ)
        → Inv cs done todo
        → (round next done [] todo).1 ≡ []
        → (a : ℕ) → In a cs ↔ Reach next nr a
    Inv-end cs done todo i e a = (
      i.sound a,
      full cs (record {
        split = λ b. ground arith;
        start = i.start;
        sound = i.sound;
        closed = λ x b h k.
            let m : In x (round next done [] todo).0 =
              ground (arith, done-round done [] todo x, i.split x) in
            ground (
              arith,
              closed-round cs done todo i x b m k,
              elem-update b cs (round next done [] todo).1,
              e,
            );
      }),
    )

    module _ (all : List ℕ) (within : (x a : ℕ) → In a (next x) → In a all) where
      -- Each round that finds something new makes something done that was not.
      loop_ends :
          (fuel : ℕ) (cs done todo : List ℕ)
          → Inv cs done todo
          → ((a : ℕ) → In a todo → In a all)
          → missing done all < fuel
          → (r : List ℕ) × (loop next fuel cs done todo ≡ some r)
            × ((a : ℕ) → In a r ↔ Reach next nr a)
      unfolding loop
      loop_ends zero cs done todo i sub h = absurd (omega arith)
      loop_ends (suc fuel) cs done todo i sub h = elim (List-cases (round next done [] todo).1) [
        | inl e ↦ (cs, rw e refl, Inv-end cs done todo i e)
        | inr (y, ys, e) ↦
            let found : In y (round next done [] todo).1 = rw e (ground (arith, nat_eq_iff y y)) in
            let (x, m, old, n) = source y found in
            let (r, ends, good) =
              loop_ends fuel (update cs (round next done [] todo).1) (round next done [] todo).0
                (round next done [] todo).1 (Inv-round cs done todo i)
                (λ a k. let (x', m', old', n') = source a k in within x' a n') (fewer x m old) in
            (r, ground (arith, ends, e), good)
      ]
        where
          source :
              (a : ℕ)
              → In a (round next done [] todo).1
              → (x : ℕ) × In x todo × (elem x done ≡ false) × In a (next x)
          source a k = elim (sound-round done [] todo a k) [
            | inl no_one ↦ absurd (ground arith)
            | inr found ↦ found
          ]

          fewer :
              (x : ℕ)
              → In x todo
              → elem x done ≡ false
              → missing (round next done [] todo).0 all < fuel
          fewer x m old = omega (
            arith,
            missing-lt done (round next done [] todo).0 all x
                (λ b k. ground (arith, done-round done [] todo b)) (sub x m)
                (ground (arith, done-round done [] todo x)) old,
          )

      -- With one round more than there are ASes the loop ends with the set of all that are reached.
      pub closure_correct :
          (fuel : ℕ)
          → length all < fuel
          → (r : List ℕ) × (closure next fuel nr ≡ some r) × ((a : ℕ) → In a r ↔ Reach next nr a)
      unfolding closure
      closure_correct fuel h = elim (List-cases (next nr)) [
        | inl e ↦ ([], rw e refl, λ a. (λ k. absurd (ground arith), λ p. absurd (stuck e p)))
        | inr (y, ys, e) ↦
            let (r, ends, good) =
              loop_ends fuel (next nr) [] (next nr) Inv-start (λ a k. within nr a k)
                (omega (arith, missing-le-length [] all)) in
            (r, ground (arith, ends, e), good)
      ]
        where
          stuck : {a : ℕ} → next nr ≡ [] → Reach next nr a → ⊥
          stuck e (one k) = ground arith
          stuck e (more p k) = stuck e p
