-- ===== src/Files/Sort.antt =====
-- `sorted(connections, key=lambda x: (x[0]['asn'], x[1]['asn']))`: Python's sort keeps the order of
-- elements with one key.
use mini_internet_extention.Prelude.{
  ℕ, ◌≡◌, refl, Bool, true, ◌&&◌, ◌||◌, List, [], ◌∷◌, if◌then◌else◌, ◌==◌, Eq_nat, ltb, leb, all,
  filter, Eq, elem, length, suc, arith, Bool-cases, inl, inr, ◌∙◌, nat_eq_iff,
}

-- The order of pairs of numbers.
abbrev pub pair_leb : ℕ × ℕ → ℕ × ℕ → Bool
pair_leb p q = ltb p.0 q.0 || p.0 == q.0 && leb p.1 q.1

abbrev pub pair_eq : ℕ × ℕ → ℕ × ℕ → Bool
pair_eq p q = p.0 == q.0 && p.1 == q.1

module _ {A : Type 0} (key : A → ℕ × ℕ) where
  place : A → List A → List A
  place x [] = x ∷ []
  place x (y ∷ ys) = if pair_leb (key x) (key y) then x ∷ y ∷ ys else y ∷ place x ys

  unfoldable pub sorted : List A → List A
  unfolding place
  sorted [] = []
  sorted (x ∷ xs) = place x (sorted xs)

  abbrev pub least : A → List A → Bool
  least x ys = all (λ y. pair_leb (key x) (key y)) ys

  abbrev pub IsSorted : List A → Type 0
  IsSorted [] = Unit
  IsSorted (x ∷ xs) = (least x xs ≡ true) × IsSorted xs

  least-place :
      (x y : A) (ys : List A)
      → pair_leb (key x) (key y) ≡ true
      → least x ys ≡ true
      → least x (place y ys) ≡ true
  unfolding place
  least-place x y [] h k = ground (arith, h)
  least-place x y (z ∷ zs) h k = ground (arith, h, least-place x y zs h)

  least_trans :
      (x y : A) (ys : List A)
      → pair_leb (key x) (key y) ≡ true
      → least y ys ≡ true
      → least x ys ≡ true
  least_trans x y [] h k = refl
  least_trans x y (z ∷ zs) h k = ground (arith, h, least_trans x y zs h)

  IsSorted-place : (x : A) (ys : List A) → IsSorted ys → IsSorted (place x ys)
  unfolding place
  IsSorted-place x [] h = (refl, tt)
  IsSorted-place x (y ∷ ys) h = elim (Bool-cases (pair_leb (key x) (key y))) [
    | inl le ↦ rw le (ground (arith, le, least_trans x y ys le h.0), h)
    | inr gt ↦ rw gt (least-place y x ys (ground (arith, gt)) h.0, IsSorted-place x ys h.1)
  ]

  pub sorted-IsSorted : (xs : List A) → IsSorted (sorted xs)
  unfolding sorted
  sorted-IsSorted [] = tt
  sorted-IsSorted (x ∷ xs) = IsSorted-place x (sorted xs) (sorted-IsSorted xs)

  -- The elements with one key.
  abbrev pub with_key : ℕ × ℕ → List A → List A
  with_key k = filter (λ x. pair_eq (key x) k)

  with_key-place : (k : ℕ × ℕ) (x : A) (ys : List A) → with_key k (place x ys) ≡ with_key k (x ∷ ys)
  unfolding place
  with_key-place k x [] = refl
  with_key-place k x (y ∷ ys) = ground (
    arith,
    with_key-place k x ys,
    nat_eq_iff (key x).0 k.0,
    nat_eq_iff (key x).1 k.1,
    nat_eq_iff (key y).0 k.0,
    nat_eq_iff (key y).1 k.1,
  )

  pub with_key-sorted : (k : ℕ × ℕ) (xs : List A) → with_key k (sorted xs) ≡ with_key k xs
  unfolding sorted
  with_key-sorted k [] = refl
  with_key-sorted k (x ∷ xs) = with_key-place k x (sorted xs) ∙ ground (arith, with_key-sorted k xs)

  all-place : (p : A → Bool) (x : A) (ys : List A) → all p (place x ys) ≡ (p x && all p ys)
  unfolding place
  all-place p x [] = refl
  all-place p x (y ∷ ys) = ground (arith, all-place p x ys)

  pub all-sorted : (p : A → Bool) (xs : List A) → all p (sorted xs) ≡ all p xs
  unfolding sorted
  all-sorted p [] = refl
  all-sorted p (x ∷ xs) = ground (arith, all-place p x (sorted xs), all-sorted p xs)

  length-place : (x : A) (ys : List A) → length (place x ys) ≡ suc (length ys)
  unfolding place
  length-place x [] = refl
  length-place x (y ∷ ys) = ground (arith, length-place x ys)

  pub length-sorted : (xs : List A) → length (sorted xs) ≡ length xs
  unfolding sorted
  length-sorted [] = refl
  length-sorted (x ∷ xs) = ground (arith, length-place x (sorted xs), length-sorted xs)

module _ {A : Type 0} (key : A → ℕ × ℕ) ⦃e : Eq A⦄ where
  elem-place : (a x : A) (ys : List A) → elem a (place key x ys) ≡ (a == x || elem a ys)
  unfolding place
  elem-place a x [] = refl
  elem-place a x (y ∷ ys) = ground (arith, elem-place a x ys)

  pub elem-sorted : (a : A) (xs : List A) → elem a (sorted key xs) ≡ elem a xs
  unfolding sorted
  elem-sorted a [] = refl
  elem-sorted a (x ∷ xs) = ground (arith, elem-place a x (sorted key xs), elem-sorted a xs)
