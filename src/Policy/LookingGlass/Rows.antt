-- ===== src/Policy/LookingGlass/Rows.antt =====
-- The rows that the data of a router stand for, and that parse_lg inserts these.
use mini_internet_extention.Prelude.{
  ℕ, String, ◌≡◌, true, ◌&&◌, Option, none, some, List, [], ◌∷◌, ◌++◌, append-nil, append_assoc,
  if◌then◌else◌, ◌==◌, Eq_nat, Eq_string, nat_eq_iff, Text, ok, err, all, all-append, arith,
  Result-cases, Option-cases, Bool-cases, inl, inr,
}
use mini_internet_extention.Policy.LookingGlass.{
  LgError, Route, Lg, Row, is_of, no_bgp, parse_route, parse_header, insert_route, insert_routes,
  insert_prefixes, parse_lg,
}

-- The rows that a router's data stand for, read apart from the table; `none` if they do not stand
-- for rows.
pub rows_of_routes : ℕ → ℕ → String → Text → List Route → Option (List Row)
rows_of_routes tv g l prefix [] = some []
rows_of_routes tv g l prefix (r ∷ rs) = elim (parse_route tv g l prefix r) [
  | err e ↦ none
  | ok row ↦ elim (rows_of_routes tv g l prefix rs) [ none ↦ none | some more ↦ some (row ∷ more) ]
]

pub rows_of_prefixes : ℕ → ℕ → String → List (Text × List Route) → Option (List Row)
rows_of_prefixes tv g l [] = some []
rows_of_prefixes tv g l ((prefix, rs) ∷ rest) = elim (rows_of_routes tv g l prefix rs) [
  | none ↦ none
  | some rows ↦ elim (rows_of_prefixes tv g l rest) [
    | none ↦ none
    | some more ↦ some (rows ++ more)
  ]
]

abbrev pub rows_of : Lg → ℕ → String → Option (List Row)
rows_of lg g l =
    if lg.size == 1 && no_bgp lg.warning
    then some []
    else elim (parse_header lg) [ err e ↦ none | ok (tv, routes) ↦ rows_of_prefixes tv g l routes ]

module _ (g : ℕ) (l : String) where
  parse_route-is_of :
      (tv : ℕ) (prefix : Text) (r : Route) (row : Row)
      → parse_route tv g l prefix r ≡ ok row
      → is_of g l row ≡ true
  unfolding parse_route
  parse_route-is_of tv prefix r row h = ground (arith, nat_eq_iff g g, Eq_string.beq_iff l l)

  rows_of_routes-are_of :
      (tv : ℕ) (prefix : Text) (rs : List Route) (rows : List Row)
      → rows_of_routes tv g l prefix rs ≡ some rows
      → all (is_of g l) rows ≡ true
  unfolding rows_of_routes
  rows_of_routes-are_of tv prefix [] rows h = ground arith
  rows_of_routes-are_of tv prefix (r ∷ rs) rows h =
      elim (Result-cases (parse_route tv g l prefix r)) [
        | inr (x, e) ↦ absurd (ground (arith, e))
        | inl (row, e) ↦ elim (Option-cases (rows_of_routes tv g l prefix rs)) [
          | inl e' ↦ absurd (ground (arith, e, e'))
          | inr (more, e') ↦ ground (
            arith,
            e,
            e',
            parse_route-is_of tv prefix r row,
            rows_of_routes-are_of tv prefix rs more,
          )
        ]
      ]

  rows_of_prefixes-are_of :
      (tv : ℕ) (ps : List (Text × List Route)) (rows : List Row)
      → rows_of_prefixes tv g l ps ≡ some rows
      → all (is_of g l) rows ≡ true
  unfolding rows_of_prefixes
  rows_of_prefixes-are_of tv [] rows h = ground arith
  rows_of_prefixes-are_of tv ((prefix, rs) ∷ ps) rows h =
      elim (Option-cases (rows_of_routes tv g l prefix rs)) [
        | inl e ↦ absurd (ground (arith, e))
        | inr (here, e) ↦ elim (Option-cases (rows_of_prefixes tv g l ps)) [
          | inl e' ↦ absurd (ground (arith, e, e'))
          | inr (more, e') ↦ ground (
            arith,
            e,
            e',
            rows_of_routes-are_of tv prefix rs here,
            rows_of_prefixes-are_of tv ps more,
            all-append (is_of g l) here more,
          )
        ]
      ]

  insert_routes-rows :
      (tv : ℕ) (prefix : Text) (rs : List Route) (new rows : List Row)
      → rows_of_routes tv g l prefix rs ≡ some new
      → insert_routes tv g l prefix rs rows ≡ (rows ++ new, ok tt)
  unfolding rows_of_routes insert_routes insert_route
  insert_routes-rows tv prefix [] new rows h = ground (arith, append-nil rows)
  insert_routes-rows tv prefix (r ∷ rs) new rows h =
      elim (Result-cases (parse_route tv g l prefix r)) [
        | inr (x, e) ↦ absurd (ground (arith, e))
        | inl (row, e) ↦ elim (Option-cases (rows_of_routes tv g l prefix rs)) [
          | inl e' ↦ absurd (ground (arith, e, e'))
          | inr (more, e') ↦ ground (
            arith,
            e,
            e',
            insert_routes-rows tv prefix rs more (rows ++ row ∷ []),
            append_assoc rows (row ∷ []) more,
          )
        ]
      ]

  insert_routes-stops :
      (tv : ℕ) (prefix : Text) (rs : List Route) (rows : List Row)
      → rows_of_routes tv g l prefix rs ≡ none
      → (e : LgError) × ((insert_routes tv g l prefix rs rows).1 ≡ err e)
  unfolding rows_of_routes insert_routes insert_route
  insert_routes-stops tv prefix [] rows h = absurd (ground arith)
  insert_routes-stops tv prefix (r ∷ rs) rows h =
      elim (Result-cases (parse_route tv g l prefix r)) [
        | inr (x, e) ↦ (x, ground (arith, e))
        | inl (row, e) ↦
            let (x, e') = insert_routes-stops tv prefix rs (rows ++ row ∷ []) (ground (arith, e)) in
            (x, ground (arith, e, e'))
      ]

  insert_prefixes-rows :
      (tv : ℕ) (ps : List (Text × List Route)) (new rows : List Row)
      → rows_of_prefixes tv g l ps ≡ some new
      → insert_prefixes tv g l ps rows ≡ (rows ++ new, ok tt)
  unfolding rows_of_prefixes insert_prefixes
  insert_prefixes-rows tv [] new rows h = ground (arith, append-nil rows)
  insert_prefixes-rows tv ((prefix, rs) ∷ ps) new rows h =
      elim (Option-cases (rows_of_routes tv g l prefix rs)) [
        | inl e ↦ absurd (ground (arith, e))
        | inr (here, e) ↦ elim (Option-cases (rows_of_prefixes tv g l ps)) [
          | inl e' ↦ absurd (ground (arith, e, e'))
          | inr (more, e') ↦ ground (
            arith,
            e,
            e',
            insert_routes-rows tv prefix rs here rows e,
            insert_prefixes-rows tv ps more (rows ++ here),
            append_assoc rows here more,
          )
        ]
      ]

  insert_prefixes-stops :
      (tv : ℕ) (ps : List (Text × List Route)) (rows : List Row)
      → rows_of_prefixes tv g l ps ≡ none
      → (e : LgError) × ((insert_prefixes tv g l ps rows).1 ≡ err e)
  unfolding rows_of_prefixes insert_prefixes
  insert_prefixes-stops tv [] rows h = absurd (ground arith)
  insert_prefixes-stops tv ((prefix, rs) ∷ ps) rows h =
      elim (Option-cases (rows_of_routes tv g l prefix rs)) [
        | inl e ↦ let (x, e') = insert_routes-stops tv prefix rs rows e in (x, ground (arith, e'))
        | inr (here, e) ↦
            let (x, e') = insert_prefixes-stops tv ps (rows ++ here) (ground (arith, e)) in
            (x, ground (arith, e', insert_routes-rows tv prefix rs here rows e))
      ]

  pub rows_of-are_of :
      (lg : Lg) (rows : List Row) → rows_of lg g l ≡ some rows → all (is_of g l) rows ≡ true
  rows_of-are_of lg rows h = elim (Bool-cases (lg.size == 1 && no_bgp lg.warning)) [
    | inl warned ↦ ground (arith, warned)
    | inr some_keys ↦ elim (Result-cases (parse_header lg)) [
      | inr (e, bad) ↦ absurd (ground (arith, some_keys, bad))
      | inl ((tv, ps), good) ↦ rows_of_prefixes-are_of tv ps rows (ground (arith, some_keys, good))
    ]
  ]

  pub parse_lg-rows :
      (lg : Lg) (new rows : List Row)
      → rows_of lg g l ≡ some new
      → parse_lg lg g l rows ≡ (rows ++ new, ok tt)
  unfolding parse_lg
  parse_lg-rows lg new rows h = elim (Bool-cases (lg.size == 1 && no_bgp lg.warning)) [
    | inl warned ↦ ground (arith, warned, append-nil rows)
    | inr some_keys ↦ elim (Result-cases (parse_header lg)) [
      | inr (e, bad) ↦ absurd (ground (arith, some_keys, bad))
      | inl ((tv, ps), good) ↦ ground (arith, some_keys, good, insert_prefixes-rows tv ps new rows)
    ]
  ]

  pub parse_lg-stops :
      (lg : Lg) (rows : List Row)
      → rows_of lg g l ≡ none
      → (e : LgError) × ((parse_lg lg g l rows).1 ≡ err e)
  unfolding parse_lg
  parse_lg-stops lg rows h = elim (Bool-cases (lg.size == 1 && no_bgp lg.warning)) [
    | inl warned ↦ absurd (ground (arith, warned))
    | inr some_keys ↦ elim (Result-cases (parse_header lg)) [
      | inr (e, bad) ↦ (e, ground (arith, some_keys, bad))
      | inl ((tv, ps), good) ↦
          let (x, e') = insert_prefixes-stops tv ps rows (ground (arith, some_keys, good)) in
          (x, ground (arith, some_keys, good, e'))
    ]
  ]
