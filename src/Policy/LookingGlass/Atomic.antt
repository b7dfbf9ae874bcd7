-- ===== src/Policy/LookingGlass/Atomic.antt =====
-- A router's rows are replaced as a whole or not at all.
use mini_internet_extention.Prelude.{
  ℕ, String, ◌≡◌, refl, Bool, true, not, none, some, List, [], ◌∷◌, ◌++◌, append-nil, Eq_nat,
  Eq_string, ok, err, filter, all, arith, Option-cases, inl, inr, ◌⊎◌,
}
use mini_internet_extention.Policy.LookingGlass.{
  runtime_error, Lg, Row, opened, is_of, delete_router, load_router,
}
use mini_internet_extention.Policy.LookingGlass.Rows.{
  rows_of, rows_of-are_of, parse_lg-rows, parse_lg-stops,
}

filter-append :
    (p : Row → Bool) (xs ys : List Row) → filter p (xs ++ ys) ≡ filter p xs ++ filter p ys
filter-append p [] ys = refl
filter-append p (x ∷ xs) ys = ground (arith, filter-append p xs ys)

filter_own :
    (p : Row → Bool) (xs : List Row)
    → all p xs ≡ true
    → (filter p xs ≡ xs) × (filter (λ r. not (p r)) xs ≡ [])
filter_own p [] h = (refl, refl)
filter_own p (x ∷ xs) h = ground (arith, filter_own p xs)

filter_others :
    (p : Row → Bool) (xs : List Row)
    → (filter p (filter (λ r. not (p r)) xs) ≡ [])
      × (filter (λ r. not (p r)) (filter (λ r. not (p r)) xs) ≡ filter (λ r. not (p r)) xs)
filter_others p [] = (refl, refl)
filter_others p (x ∷ xs) = ground (arith, filter_others p xs)

-- If the data of a router stand for rows, the load of the router returns, the rows of it that are
-- committed are exactly these, and the others are as before; if not, the table is as before, both
-- in the file and for the connection, and the error is raised.
pub load_router_correct :
    (g : ℕ) (l : String) (lg : Lg) (table : List Row)
    → ((rows : List Row) × (rows_of lg g l ≡ some rows)
        × ((load_router g l lg (opened table)).1 ≡ ok tt)
        × (filter (is_of g l) (load_router g l lg (opened table)).0.committed ≡ rows)
        × (filter (λ r. not (is_of g l r)) (load_router g l lg (opened table)).0.committed
            ≡ filter (λ r. not (is_of g l r)) table))
      ⊎ ((rows_of lg g l ≡ none)
          × (load_router g l lg (opened table) ≡ (opened table, err runtime_error)))
unfolding load_router delete_router
load_router_correct g l lg table = elim (Option-cases (rows_of lg g l)) [
  | inl bad ↦
      let (e, stops) = parse_lg-stops g l lg (filter (λ r. not (is_of g l r)) table) bad in
      inr (bad, ground (arith, stops))
  | inr (rows, good) ↦
      let own = filter_own (is_of g l) rows (rows_of-are_of g l lg rows good) in
      let others = filter_others (is_of g l) table in
      let parsed = parse_lg-rows g l lg rows (filter (λ r. not (is_of g l r)) table) good in
      inl (
        rows,
        good,
        ground (arith, parsed),
        ground (
          arith,
          parsed,
          own,
          others,
          filter-append (is_of g l) (filter (λ r. not (is_of g l r)) table) rows,
        ),
        ground (
          arith,
          parsed,
          own,
          others,
          append-nil (filter (λ r. not (is_of g l r)) table),
          filter-append (λ r. not (is_of g l r)) (filter (λ r. not (is_of g l r)) table) rows,
        ),
      )
]
