-- ===== src/Ping/Rounds.antt =====
-- After a pass over all ASes, the matrix holds the last pings and is symmetric.
use mini_internet_extention.Prelude.{
  ℕ, ◌≤◌, ◌≡◌, sym, subst, ap, ◌∙◌, Bool, false, ◌&&◌, ◌||◌, List, [], ◌∷◌, leb, elem, In, Eq_nat,
  elem-filter, nat_eq_iff, arith, Bool-cases, Result-cases, inl, inr, Text, ◌==◌, Result, ok, err,
}
use mini_internet_extention.Files.Clean.{Error}
use mini_internet_extention.Ping.{Matrix, set, is_reached, start_pings, collect, rounds}

abbrev pub IsSymmetric : Matrix → Type 0
IsSymmetric co = (x y : ℕ) → co x y ≡ co y x

IsSymmetric-set :
    (f t : ℕ) (s : Bool) (co : Matrix) → IsSymmetric co → IsSymmetric (set t f s (set f t s co))
unfolding set
IsSymmetric-set f t s co h x y = ground (arith, h x y)

-- Is the entry (x, y) set by a ping of `f`?
abbrev touched : ℕ → List ℕ → ℕ → ℕ → Bool
touched f ts x y = x == f && elem y ts || y == f && elem x ts

set-other :
    (f t : ℕ) (s : Bool) (co : Matrix) (x y : ℕ)
    → (x == f && y == t) ≡ false
    → (y == f && x == t) ≡ false
    → set t f s (set f t s co) x y ≡ co x y
unfolding set
set-other f t s co x y h k = ground arith

set_self : (f t : ℕ) (s : Bool) (co : Matrix) → set t f s (set f t s co) f t ≡ s
unfolding set
set_self f t s co = ground arith

ok_inj : {co out : Matrix} → ◌≡◌ {A = Result Error Matrix} (ok co) (ok out) → co ≡ out
ok_inj {co = co} h = ap (λ r. elim r [ ok m ↦ m | err e ↦ co ]) h

module _ (output : ℕ → ℕ → Text) where
  IsSymmetric-collect :
      (f : ℕ) (ts : List ℕ) (co out : Matrix)
      → collect output f ts co ≡ ok out
      → IsSymmetric co
      → IsSymmetric out
  unfolding collect
  IsSymmetric-collect f [] co out h k = subst IsSymmetric (ok_inj h) k
  IsSymmetric-collect f (t ∷ ts) co out h k = elim (Result-cases (is_reached (output f t))) [
    | inl (s, e) ↦
        IsSymmetric-collect f ts (set t f s (set f t s co)) out (ground (arith, e, h))
          (IsSymmetric-set f t s co k)
    | inr (x, e) ↦ absurd (ground (arith, e, h))
  ]

  collect-other :
      (f : ℕ) (ts : List ℕ) (co out : Matrix) (x y : ℕ)
      → collect output f ts co ≡ ok out
      → touched f ts x y ≡ false
      → out x y ≡ co x y
  unfolding collect
  collect-other f [] co out x y h k = ap (λ (m : Matrix). m x y) (sym (ok_inj h))
  collect-other f (t ∷ ts) co out x y h k = elim (Result-cases (is_reached (output f t))) [
    | inl (s, e) ↦
        collect-other f ts (set t f s (set f t s co)) out x y (ground (arith, e, h)) (ground arith)
        ∙ set-other f t s co x y (ground arith) (ground arith)
    | inr (z, e) ↦ absurd (ground (arith, e, h))
  ]

  collect-reached :
      (f : ℕ) (ts : List ℕ) (co out : Matrix) (y : ℕ)
      → collect output f ts co ≡ ok out
      → In y ts
      → is_reached (output f y) ≡ ok (out f y)
  unfolding collect
  collect-reached f [] co out y h k = absurd (ground arith)
  collect-reached f (t ∷ ts) co out y h k = elim (Result-cases (is_reached (output f t))) [
    | inl (s, e) ↦
        let next = set t f s (set f t s co) in
        let h' : collect output f ts next ≡ ok out = ground (arith, e, h) in
        elim (Bool-cases (elem y ts)) [
          | inl later ↦ collect-reached f ts next out y h' later
          | inr now ↦
              let y_is_t = (nat_eq_iff y t).0 (ground (arith, now, k)) in
              let stays : out f t ≡ s =
                collect-other f ts next out f t h'
                  (ground (arith, now, ap (λ z. elem z ts) y_is_t, nat_eq_iff t f))
                ∙ set_self f t s co in
              ap (λ z. is_reached (output f z)) y_is_t
              ∙ e
              ∙ ap ok (sym stays)
              ∙ ap (λ z. ok (out f z)) (sym y_is_t)
        ]
    | inr (z, e) ↦ absurd (ground (arith, e, h))
  ]

  module _ (shuffled : ℕ → List ℕ) where
    -- The first AS of a pass is done before the others.
    rounds-first :
        (f : ℕ) (fs : List ℕ) (co out : Matrix)
        → rounds output shuffled (f ∷ fs) co ≡ ok out
        → (targets : List ℕ) × (after : Matrix) × (start_pings f (shuffled f) ≡ ok targets)
          × (collect output f targets co ≡ ok after)
          × (rounds output shuffled fs after ≡ ok out)
    unfolding rounds
    rounds-first f fs co out h = elim (Result-cases (start_pings f (shuffled f))) [
      | inr (z, e) ↦ absurd (ground (arith, e, h))
      | inl (ts, e) ↦ elim (Result-cases (collect output f ts co)) [
        | inr (z, k) ↦ absurd (ground (arith, e, k, h))
        | inl (after, k) ↦ (ts, after, e, k, ground (arith, e, k, h))
      ]
    ]

    targets_lem :
        (f y : ℕ) (ts : List ℕ)
        → start_pings f (shuffled f) ≡ ok ts
        → (In y ts → f ≤ y) × (f ≤ y → In y (shuffled f) → In y ts)
    targets_lem f y ts h = ground (arith, h, elem-filter (λ t. leb f t) y (shuffled f))

    IsSymmetric-rounds :
        (fs : List ℕ) (co out : Matrix)
        → rounds output shuffled fs co ≡ ok out
        → IsSymmetric co
        → IsSymmetric out
    unfolding rounds
    IsSymmetric-rounds [] co out h k = subst IsSymmetric (ok_inj h) k
    IsSymmetric-rounds (f ∷ fs) co out h k =
        let (ts, after, e, c, r) = rounds-first f fs co out h in
        IsSymmetric-rounds fs after out r (IsSymmetric-collect f ts co after c k)

    -- What a source has set, the later ones leave.
    rounds-other :
        (fs : List ℕ) (co out : Matrix) (x y : ℕ)
        → rounds output shuffled fs co ≡ ok out
        → x ≤ y
        → elem x fs ≡ false
        → out x y ≡ co x y
    unfolding rounds
    rounds-other [] co out x y h le new = ap (λ (m : Matrix). m x y) (sym (ok_inj h))
    rounds-other (f ∷ fs) co out x y h le new =
        let (ts, after, e, c, r) = rounds-first f fs co out h in
        rounds-other fs after out x y r le (ground arith)
        ∙ collect-other f ts co after x y c
            (ground (arith, targets_lem f x ts e, nat_eq_iff x f, nat_eq_iff y f))

    rounds-first_reached :
        (f : ℕ) (fs : List ℕ) (co out : Matrix) (y : ℕ)
        → rounds output shuffled (f ∷ fs) co ≡ ok out
        → elem f fs ≡ false
        → In y (shuffled f)
        → f ≤ y
        → is_reached (output f y) ≡ ok (out f y)
    rounds-first_reached f fs co out y h new hy le =
        let (ts, after, e, c, r) = rounds-first f fs co out h in
        collect-reached f ts co after y c ((targets_lem f y ts e).1 le hy)
        ∙ ap ok (sym (rounds-other fs after out f y r le new))

    rounds-reached :
        (fs : List ℕ) (co out : Matrix) (x y : ℕ)
        → rounds output shuffled fs co ≡ ok out
        → In x fs
        → In y (shuffled x)
        → x ≤ y
        → is_reached (output x y) ≡ ok (out x y)
    rounds-reached [] co out x y h hx hy le = absurd (ground arith)
    rounds-reached (f ∷ fs) co out x y h hx hy le = elim (Bool-cases (elem x fs)) [
      | inl later ↦
          let (ts, after, e, c, r) = rounds-first f fs co out h in
          rounds-reached fs after out x y r later hy le
      | inr now ↦
          let x_is_f = (nat_eq_iff x f).0 (ground (arith, now, hx)) in
          subst (λ z. is_reached (output z y) ≡ ok (out z y)) (sym x_is_f)
            (rounds-first_reached f fs co out y h (ap (λ z. elem z fs) (sym x_is_f) ∙ now)
              (subst (λ z. In y (shuffled z)) x_is_f hy) (subst (λ z. z ≤ y) x_is_f le))
    ]

    -- After the rounds a matrix that was symmetric is symmetric, and the entry of a pair that was pinged,
    -- with the smaller number first, is what its ping gave.
    pub rounds_correct :
        (fs : List ℕ) (co out : Matrix)
        → IsSymmetric co
        → rounds output shuffled fs co ≡ ok out
        → IsSymmetric out
          × ((x y : ℕ)
              → In x fs
              → In y (shuffled x)
              → x ≤ y
              → is_reached (output x y) ≡ ok (out x y))
    rounds_correct fs co out k h =
        (IsSymmetric-rounds fs co out h k, λ x y. rounds-reached fs co out x y h)
