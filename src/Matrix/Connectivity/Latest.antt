-- ===== src/Matrix/Connectivity/Latest.antt =====
-- The matrix holds the latest status of each pair, and False where there is none.
use mini_internet_extention.Prelude.{
  ℕ, ◌≡◌, ◌≢◌, refl, Bool, true, false, ◌&&◌, Option, none, some, List, [], ◌∷◌, if◌then◌else◌,
  ◌==◌, Eq_nat, nat_eq_iff, ok, any, arith, Option-cases, inl, inr,
}
use mini_internet_extention.Dict.{Dict, lookup, put, lookup-put}
use mini_internet_extention.Matrix.Connectivity.{
  AsData, is_as, all_false, blank, fill, check_connectivity,
}

-- Is the number a key of type AS?
abbrev pub is_as_key : Dict AsData → ℕ → Bool
is_as_key as_data n = any (λ a. n == a.0 && is_as a.1) as_data

-- The status of the pair after all measurements, if it was `before` at first.
abbrev pub latest : Bool → ℕ → ℕ → List (ℕ × ℕ × Bool) → Bool
latest before src dst [] = before
latest before src dst ((s, d, status) ∷ rest) =
    latest (if src == s && dst == d then status else before) src dst rest

abbrev pub cell : ℕ → ℕ → Dict (Dict Bool) → Option Bool
cell src dst m = elim (lookup src m) [ none ↦ none | some row ↦ lookup dst row ]

lookup-all_false :
    (as_data : Dict AsData) (row : Dict Bool) (n : ℕ)
    → lookup n (all_false as_data row) ≡ (if is_as_key as_data n then some false else lookup n row)
unfolding all_false
lookup-all_false [] row n = refl
lookup-all_false ((k, d) ∷ rest) row n = ground (
  arith,
  lookup-all_false rest (if is_as d then put k false row else row) n,
  lookup-put k n false row,
)

lookup-blank :
    (as_data rest : Dict AsData) (m : Dict (Dict Bool)) (n : ℕ)
    → lookup n (blank as_data rest m)
      ≡ (if is_as_key rest n then some (all_false as_data []) else lookup n m)
unfolding blank
lookup-blank as_data [] m n = refl
lookup-blank as_data ((k, d) ∷ rest) m n = ground (
  arith,
  lookup-blank as_data rest (if is_as d then put k (all_false as_data []) m else m) n,
  lookup-put k n (all_false as_data []) m,
)

cell-fill :
    (data' : List (ℕ × ℕ × Bool)) (m out : Dict (Dict Bool)) (src dst : ℕ) (before : Bool)
    → fill data' m ≡ ok out
    → cell src dst m ≡ some before
    → cell src dst out ≡ some (latest before src dst data')
unfolding fill
cell-fill [] m out src dst before h e = ground arith
cell-fill ((s, d, status) ∷ rest) m out src dst before h e = elim (Option-cases (lookup s m)) [
  | inl missing ↦ absurd (ground (arith, missing))
  | inr (row, found) ↦
      cell-fill rest (put s (put d status row) m) out src dst
        (if src == s && dst == d then status else before) (ground (arith, found))
        (ground (
          arith,
          found,
          lookup-put s src (put d status row) m,
          lookup-put d dst status row,
          nat_eq_iff src s,
        ))
]

-- When the matrix is returned, the entry of two ASes of type AS is the last status measured for
-- that pair, and False if there is none.
pub check_connectivity-latest :
    (as_data : Dict AsData) (measured : List (ℕ × ℕ × Bool)) (out : Dict (Dict Bool)) (src dst : ℕ)
    → is_as_key as_data src ≡ true
    → is_as_key as_data dst ≡ true
    → check_connectivity as_data measured ≡ ok out
    → cell src dst out ≡ some (latest false src dst measured)
unfolding check_connectivity
check_connectivity-latest as_data measured out src dst hs hd h =
    cell-fill measured (blank as_data as_data []) out src dst false h
      (ground (arith, hs, hd, lookup-blank as_data as_data [] src, lookup-all_false as_data [] dst))

fill_returns :
    (measured : List (ℕ × ℕ × Bool)) (m : Dict (Dict Bool))
    → ((s : ℕ) → any (λ r. s == r.0) measured ≡ true → lookup s m ≢ none)
    → (out : Dict (Dict Bool)) × (fill measured m ≡ ok out)
unfolding fill
fill_returns [] m h = (m, refl)
fill_returns ((s, d, status) ∷ rest) m h = elim (Option-cases (lookup s m)) [
  | inl missing ↦ absurd (h s (ground (arith, nat_eq_iff s s)) missing)
  | inr (row, found) ↦
      let (out, ends) = fill_returns rest (put s (put d status row) m) (λ n k gone.
        h n (ground arith) (ground (arith, lookup-put s n (put d status row) m, gone))) in
      (out, ground (arith, found, ends))
]

-- If every measurement is from an AS of type AS, the matrix is returned.
pub check_connectivity_returns :
    (as_data : Dict AsData) (measured : List (ℕ × ℕ × Bool))
    → ((s : ℕ) → any (λ r. s == r.0) measured ≡ true → is_as_key as_data s ≡ true)
    → (out : Dict (Dict Bool)) × (check_connectivity as_data measured ≡ ok out)
unfolding check_connectivity
check_connectivity_returns as_data measured h =
    fill_returns measured (blank as_data as_data [])
      (λ s k gone. ground (arith, h s k, gone, lookup-blank as_data as_data [] s))
