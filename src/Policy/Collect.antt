-- ===== src/Policy/Collect.antt =====
-- A loop that logs: the entries of all its rounds, or the first exception.
use mini_internet_extention.Prelude.{
  ◌≡◌, refl, ◌⊎◌, inl, inr, List, [], ◌∷◌, ◌++◌, Result, ok, ◌>>=◌, Result-cases, arith, ℕ, In,
  nat_eq_iff, Eq_nat, Bool-cases, ◌==◌,
}
use mini_internet_extention.Policy.Config.{Error}

module _ {A B : Type 0} where
  unfoldable pub collect : (A → Result Error (List B)) → List A → Result Error (List B)
  collect f [] = ok []
  collect f (x ∷ xs) = do here ← f x; more ← collect f xs; ok (here ++ more)

-- Membership as a type that computes.
abbrev pub Has : {A : Type 0} → A → List A → Type 0
Has a [] = ⊥
Has a (x ∷ xs) = (a ≡ x) ⊎ Has a xs

module _ {A : Type 0} where
  pub Has-append_left : (a : A) (xs ys : List A) → Has a xs → Has a (xs ++ ys)
  Has-append_left a [] ys h = absurd h
  Has-append_left a (x ∷ xs) ys (inl e) = inl e
  Has-append_left a (x ∷ xs) ys (inr h) = inr (Has-append_left a xs ys h)

  pub Has-append_right : (a : A) (xs ys : List A) → Has a ys → Has a (xs ++ ys)
  Has-append_right a [] ys h = h
  Has-append_right a (x ∷ xs) ys h = inr (Has-append_right a xs ys h)

  pub Has-append_cases : (a : A) (xs ys : List A) → Has a (xs ++ ys) → Has a xs ⊎ Has a ys
  Has-append_cases a [] ys h = inr h
  Has-append_cases a (x ∷ xs) ys (inl e) = inl (inl e)
  Has-append_cases a (x ∷ xs) ys (inr h) = elim (Has-append_cases a xs ys h) [
    | inl k ↦ inl (inr k)
    | inr k ↦ inr k
  ]

module _ {A B : Type 0} (f : A → Result Error (List B)) where
  -- A loop whose rounds all return returns.
  pub collect-ok :
      (xs : List A)
      → ((x : A) → (here : List B) × (f x ≡ ok here))
      → (out : List B) × (collect f xs ≡ ok out)
  unfolding collect
  collect-ok [] h = ([], refl)
  collect-ok (x ∷ xs) h =
      let (here, now) = h x in
      let (out, later) = collect-ok xs h in (here ++ out, rw (now, later) refl)

  -- What a round logs is in the result.
  pub Has-collect :
      (xs : List A) (x : A) (b : B) (here out : List B)
      → Has x xs
      → f x ≡ ok here
      → Has b here
      → collect f xs ≡ ok out
      → Has b out
  unfolding collect
  Has-collect [] x b here out m e h k = absurd m
  Has-collect (y ∷ xs) x b here out m e h k = elim (Result-cases (f y)) [
    | inr (z, bad) ↦ absurd (ground (arith, bad))
    | inl (now, good) ↦ elim (Result-cases (collect f xs)) [
      | inr (z, bad) ↦ absurd (ground (arith, good, bad))
      | inl (later, rest) ↦
          let whole : now ++ later ≡ out = ground (arith, good, rest) in
          rw (← whole) (elim m [
            | inl same ↦
                let eq : here ≡ now = ground (arith, good) in
                Has-append_left b now later (rw eq at h)
            | inr below ↦
                Has-append_right b now later (Has-collect xs x b here later below e h rest)
          ])
    ]
  ]

  -- What is in the result was logged by a round.
  pub collect-Has :
      (xs : List A) (b : B) (out : List B)
      → collect f xs ≡ ok out
      → Has b out
      → (x : A) × (here : List B) × Has x xs × (f x ≡ ok here) × Has b here
  unfolding collect
  collect-Has [] b out k h = let empty : out ≡ [] = ground arith in absurd (rw empty at h)
  collect-Has (y ∷ xs) b out k h = elim (Result-cases (f y)) [
    | inr (z, bad) ↦ absurd (ground (arith, bad))
    | inl (now, good) ↦ elim (Result-cases (collect f xs)) [
      | inr (z, bad) ↦ absurd (ground (arith, good, bad))
      | inl (later, rest) ↦
          let whole : out ≡ now ++ later = ground (arith, good, rest) in
          elim (Has-append_cases b now later (rw whole at h)) [
            | inl m ↦ (y, now, inl refl, good, m)
            | inr m ↦
                let (x, here, below, e, n) = collect-Has xs b later rest m in
                (x, here, inr below, e, n)
          ]
    ]
  ]

pub In-Has : (a : ℕ) (xs : List ℕ) → Has a xs → In a xs
In-Has a [] h = absurd h
In-Has a (x ∷ xs) (inl e) = ground (arith, nat_eq_iff a x)
In-Has a (x ∷ xs) (inr h) = ground (arith, In-Has a xs h)

pub Has-In : (a : ℕ) (xs : List ℕ) → In a xs → Has a xs
Has-In a [] h = absurd (ground arith)
Has-In a (x ∷ xs) h = elim (Bool-cases (a == x)) [
  | inl same ↦ inl ((nat_eq_iff a x).0 same)
  | inr ne ↦ inr (Has-In a xs (ground arith))
]
