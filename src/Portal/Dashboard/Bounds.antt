-- ===== src/Portal/Dashboard/Bounds.antt =====
-- How many measurements the dashboard gets.
use mini_internet_extention.Prelude.{
  ℕ, zero, suc, ◌+◌, ◌-◌, ◌*◌, ◌/◌, ◌≤◌, ◌<◌, ◌≡◌, refl, ap, subst, sym, some, List, [], ◌∷◌, ltb,
  length, Bool-cases, inl, inr, arith,
}
use native.Mathlib.Nat.{mul-le-mul_right, lt-mul-div-succ, le-div_iff_mul-le}
use mini_internet_extention.Portal.Dashboard.{every_from, every, separator, dashboard}

-- The rest of the arithmetic: `n` values in `q` steps, with `q` the quotient by the limit `m`.
at_most : (n m k l : ℕ) → n < m * suc (suc k) → l * suc k ≤ n + k → l ≤ 2 * m
at_most n m k l p q = elim (Bool-cases (ltb (2 * m) l)) [
  | inr small ↦ ground arith
  | inl big ↦
      let more : suc (2 * m) * suc k ≤ l * suc k = mul-le-mul_right _ (ground arith) in
      absurd (ground (arith, p, q, more, pos m k))
]
  where
    pos : (a b : ℕ) → a * suc (suc b) ≤ 2 * a * suc b
    pos a b = ground arith

module _ {A : Type 0} where
  -- With a step of 1, nothing is left out.
  every_from-one : (xs : List A) → every_from 0 1 xs ≡ xs
  unfolding every_from
  every_from-one [] = refl
  every_from-one (x ∷ xs) = ap (λ ys. x ∷ ys) (every_from-one xs)

  every_from-bound :
      (skip step : ℕ) (xs : List A)
      → skip < suc step
      → length (every_from skip (suc step) xs) * suc step + skip ≤ length xs + step
  unfolding every_from
  every_from-bound skip step [] p = ground arith
  every_from-bound zero step (x ∷ xs) p =
      let ih = every_from-bound step step xs (ground arith) in
      let pred : suc step - 1 ≡ step = ground arith in
      rw pred (step_one (length (every_from step (suc step) xs)) step (length xs) ih)
    where
      step_one : (n s l : ℕ) → n * suc s + s ≤ l + s → suc n * suc s + 0 ≤ suc l + s
      step_one n s l h = ground arith
  every_from-bound (suc skip) step (x ∷ xs) p =
      let ih = every_from-bound skip step xs (ground arith) in ground (arith, ih)

-- For a positive limit, the dashboard gets no more than twice as many measurements as the limit
-- says, and all of them if they are fewer than the limit.
pub dashboard-bound :
    {A : Type 0} (max_results : ℕ) (measurement_arr : List A)
    → 0 < max_results
    → (out : List A) × (dashboard max_results measurement_arr ≡ some out)
      × (length out ≤ 2 * max_results)
      × (length measurement_arr < max_results → out ≡ measurement_arr)
unfolding dashboard separator every
dashboard-bound zero xs p = absurd (ground arith)
dashboard-bound (suc m) xs p = elim (Bool-cases (ltb (length xs) (suc m))) [
  | inl few ↦ (xs, ground (arith, few, every_from-one xs), ground arith, λ _. refl)
  | inr many ↦
      let quotient = length xs / suc m in
      let enough : 1 ≤ quotient = (le-div_iff_mul-le {x = 1} p).1 (ground arith) in
      let (k, shape) = positive quotient enough in
      let bound : length (every_from 0 (suc k) xs) * suc k ≤ length xs + k =
        ground (arith, every_from-bound 0 k xs (ground arith)) in
      (
        every_from 0 quotient xs,
        ground (arith, many),
        at_most (length xs) (suc m) k (length (every_from 0 quotient xs))
            (subst (λ q. length xs < suc m * suc q) shape
              (ground (arith, lt-mul-div-succ (length xs) p)))
            (subst (λ q. length (every_from 0 q xs) * suc k ≤ length xs + k) (sym shape) bound),
        λ less. absurd (ground arith),
      )
]
  where
    positive : (q : ℕ) → 1 ≤ q → (k : ℕ) × (q ≡ suc k)
    positive zero h = absurd (ground arith)
    positive (suc k) h = (k, refl)
