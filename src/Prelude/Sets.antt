-- ===== src/Prelude/Sets.antt =====
-- Python's sets as lists without repetitions, in order of insertion.
use Prim.Native.Nat.{ℕ, suc, ◌≤◌, ◌<◌}
use mathlib.Core.Path.{◌≡◌, refl}
use mathlib.Core.Logic.{◌↔◌, inl, inr}
use mathlib.Core.Bool.{Bool, true, false, ◌&&◌, ◌||◌}
use mathlib.Core.List.{List, [], ◌∷◌, ◌++◌, map}
use native.Mathlib.Omega.{arith}
use mini_internet_extention.Prelude.Tests.{Eq, ◌==◌, if◌then◌else◌, Bool-cases}
use mini_internet_extention.Prelude.Lists.{length, filter, any}

module _ {ℓ} {A : Type ℓ} ⦃e : Eq A⦄ where
  abbrev pub elem : A → List A → Bool
  elem a [] = false
  elem a (x ∷ xs) = a == x || elem a xs

  -- s.add(a)
  unfoldable pub insert : A → List A → List A
  insert a s = if elem a s then s else s ++ a ∷ []

  -- s.update(xs), s.union(xs)
  unfoldable pub update : List A → List A → List A
  unfolding insert
  update s [] = s
  update s (x ∷ xs) = update (insert x s) xs

  -- SELECT DISTINCT
  unfoldable pub distinct : List A → List A
  unfolding update
  distinct xs = update [] xs

  -- Who is in a list, as a proposition that computes.
  abbrev pub In : A → List A → Type 0
  In a xs = elem a xs ≡ true

  pub elem_self : (a : A) (xs : List A) → elem a (a ∷ xs) ≡ true
  elem_self a xs = ground (arith, e.beq_iff a a)

  pub elem-append : (a : A) (xs ys : List A) → elem a (xs ++ ys) ≡ (elem a xs || elem a ys)
  elem-append a [] ys = refl
  elem-append a (x ∷ xs) ys = ground (arith, elem-append a xs ys)

  pub elem-insert : (a b : A) (s : List A) → elem a (insert b s) ≡ (a == b || elem a s)
  unfolding insert
  elem-insert a b s = ground (arith, elem-append a s (b ∷ []), e.beq_iff a b)

  pub elem-update : (a : A) (s xs : List A) → elem a (update s xs) ≡ (elem a s || elem a xs)
  unfolding update
  elem-update a s [] = ground arith
  elem-update a s (x ∷ xs) = ground (arith, elem-update a (insert x s) xs, elem-insert a x s)

  pub elem-distinct : (a : A) (xs : List A) → elem a (distinct xs) ≡ elem a xs
  unfolding distinct
  elem-distinct a xs = elem-update a [] xs

  -- No element occurs twice.
  abbrev pub IsSimple : List A → Type 0
  IsSimple [] = Unit
  IsSimple (x ∷ xs) = (elem x xs ≡ false) × IsSimple xs

  pub IsSimple-concat :
      (s : List A) (a : A) → elem a s ≡ false → IsSimple s → IsSimple (s ++ a ∷ [])
  IsSimple-concat [] a h u = (refl, tt)
  IsSimple-concat (x ∷ s) a h u = (
    ground (arith, elem-append x s (a ∷ []), e.beq_iff a x, e.beq_iff x a),
    IsSimple-concat s a (ground arith) u.1,
  )

  pub IsSimple-insert : (a : A) (s : List A) → IsSimple s → IsSimple (insert a s)
  unfolding insert
  IsSimple-insert a s u = elim (Bool-cases (elem a s)) [
    | inl old ↦ rw old u
    | inr new ↦ rw new (IsSimple-concat s a new u)
  ]

  pub IsSimple-update : (s xs : List A) → IsSimple s → IsSimple (update s xs)
  unfolding update
  IsSimple-update s [] u = u
  IsSimple-update s (x ∷ xs) u = IsSimple-update (insert x s) xs (IsSimple-insert x s u)

  pub IsSimple-distinct : (xs : List A) → IsSimple (distinct xs)
  unfolding distinct
  IsSimple-distinct xs = IsSimple-update [] xs tt

  -- The elements of `u` that are not in `s`, and how adding to `s` makes them fewer.
  unfoldable pub missing : List A → List A → ℕ
  missing s [] = 0
  missing s (x ∷ xs) = let rest = missing s xs in if elem x s then rest else suc rest

  pub missing-le : (s t u : List A) → ((a : A) → In a s → In a t) → missing t u ≤ missing s u
  unfolding missing
  missing-le s t [] sub = omega arith
  missing-le s t (x ∷ xs) sub = ground (arith, missing-le s t xs sub, sub x)

  pub missing-lt :
      (s t u : List A) (a : A)
      → ((b : A) → In b s → In b t)
      → In a u
      → In a t
      → elem a s ≡ false
      → missing t u < missing s u
  unfolding missing
  missing-lt s t [] a sub m new old = absurd (ground arith)
  missing-lt s t (x ∷ xs) a sub m new old =
      ground (arith, missing-lt s t xs a sub, missing-le s t xs sub, sub x, e.beq_iff a x)

  pub missing-le-length : (s u : List A) → missing s u ≤ length u
  unfolding missing
  missing-le-length s [] = omega arith
  missing-le-length s (x ∷ xs) = ground (arith, missing-le-length s xs)

module _ {ℓ} {A : Type ℓ} ⦃e : Eq A⦄ where
  pub elem-filter :
      (p : A → Bool) (a : A) (xs : List A)
      → (elem a (filter p xs) ≡ true) ↔ ((elem a xs ≡ true) × (p a ≡ true))
  elem-filter p a [] = ground arith
  elem-filter p a (x ∷ xs) = elim (Bool-cases (a == x)) [
    | inl same ↦ rw ((e.beq_iff a x).0 same) (ground (arith, elem-filter p x xs, e.beq_iff x x))
    | inr ne ↦ ground (arith, elem-filter p a xs)
  ]

module _ {ℓ κ} {A : Type ℓ} {B : Type κ} ⦃e : Eq B⦄ where
  -- SELECT f FROM xs WHERE p, as a test on its rows.
  pub elem-select :
      (b : B) (f : A → B) (p : A → Bool) (xs : List A)
      → elem b (map f (filter p xs)) ≡ any (λ x. p x && b == f x) xs
  elem-select b f p [] = refl
  elem-select b f p (x ∷ xs) = ground (arith, elem-select b f p xs)
