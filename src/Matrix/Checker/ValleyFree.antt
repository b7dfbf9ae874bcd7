-- ===== src/Matrix/Checker/ValleyFree.antt =====
-- What path_checker accepts where the first hop leads to a neighbour.
use mini_internet_extention.Prelude.{
  ℕ, zero, suc, ◌≡◌, ◌≢◌, refl, sym, ap, ◌∙◌, ◌↔◌, Bool, true, false, Option, none, some, List, [],
  ◌∷◌, Eq_nat, Result, ok, ◌>>=◌, Result-cases, inl, inr, arith,
}
use mini_internet_extention.Dict.{Dict}
use mini_internet_extention.Matrix.Connectivity.{Error}
use mini_internet_extention.Matrix.Node.{Node}
use mini_internet_extention.Matrix.Checker.{
  Status, up, down, flat, node_of, kind, hop, check_from, path_checker,
}

-- The kinds of the hops, `none` for two ASes that are no neighbours.
unfoldable pub kinds : Dict Node → List ℕ → Result Error (List (Option Status))
kinds dic_as [] = ok []
kinds dic_as (x ∷ []) = ok []
kinds dic_as (x ∷ y ∷ rest) =
    node_of dic_as x >>= λ a. kinds dic_as (y ∷ rest) >>= λ ks. ok (kind a y ∷ ks)

-- `a` hops up, then perhaps one to a peer, then `b` hops down.
abbrev pub fall : ℕ → List (Option Status)
fall zero = []
fall (suc b) = some down ∷ fall b

abbrev pub climb_and_fall : ℕ → Bool → ℕ → List (Option Status)
climb_and_fall zero true b = some flat ∷ fall b
climb_and_fall zero false b = fall b
climb_and_fall (suc a) peak b = some up ∷ climb_and_fall a peak b

abbrev pub IsValley : List (Option Status) → Type 0
IsValley ks = (a : ℕ) × (peak : Bool) × (b : ℕ) × (ks ≡ climb_and_fall a peak b)

-- The loop over the kinds alone.
abbrev pub judge : Status → List (Option Status) → Bool
judge s [] = false
judge s (none ∷ ks) = true
judge s (some down ∷ ks) = judge down ks
judge up (some k ∷ ks) = judge k ks
judge down (some k ∷ ks) = true
judge flat (some k ∷ ks) = true

pub judge-fall : (s : Status) (b : ℕ) → judge s (fall b) ≡ false
judge-fall s zero = refl
judge-fall s (suc b) = judge-fall down b

judge-climb : (a : ℕ) (peak : Bool) (b : ℕ) → judge up (climb_and_fall a peak b) ≡ false
judge-climb zero true b = judge-fall flat b
judge-climb zero false b = judge-fall up b
judge-climb (suc a) peak b = judge-climb a peak b

pub fall-judge :
    (s : Status) (ks : List (Option Status)) → s ≢ up → judge s ks ≡ false → (b : ℕ) × (ks ≡ fall b)
fall-judge s [] n e = (0, refl)
fall-judge s (none ∷ ks) n e = absurd (ground arith)
fall-judge s (some down ∷ ks) n e =
    let (b, same) = fall-judge down ks (λ d. ground arith) e in (suc b, ground arith)
fall-judge up (some k ∷ ks) n e = absurd (n refl)
fall-judge down (some up ∷ ks) n e = absurd (ground arith)
fall-judge down (some flat ∷ ks) n e = absurd (ground arith)
fall-judge flat (some up ∷ ks) n e = absurd (ground arith)
fall-judge flat (some flat ∷ ks) n e = absurd (ground arith)

climb-judge : (ks : List (Option Status)) → judge up ks ≡ false → IsValley ks
climb-judge [] e = (0, false, 0, refl)
climb-judge (none ∷ ks) e = absurd (ground arith)
climb-judge (some up ∷ ks) e =
    let (a, peak, b, same) = climb-judge ks e in (suc a, peak, b, ground arith)
climb-judge (some down ∷ ks) e =
    let (b, same) = fall-judge down ks (λ d. ground arith) e in (0, false, suc b, ground arith)
climb-judge (some flat ∷ ks) e =
    let (b, same) = fall-judge flat ks (λ d. ground arith) e in (0, true, b, ground arith)

module _ (dic_as : Dict Node) where
  pub check_from-judge :
      (s : Status) (path : List ℕ) (ks : List (Option Status))
      → kinds dic_as path ≡ ok ks
      → check_from dic_as (some s) path ≡ ok (judge s ks)
  unfolding check_from hop kinds
  check_from-judge s [] ks h = ground arith
  check_from-judge s (x ∷ []) ks h = ground arith
  check_from-judge s (x ∷ y ∷ rest) ks h = elim (Result-cases (node_of dic_as x)) [
    | inr (e, bad) ↦ absurd (ground (arith, bad))
    | inl (a, found) ↦ elim (Result-cases (kinds dic_as (y ∷ rest))) [
      | inr (e, bad) ↦ absurd (ground (arith, found, bad))
      | inl (more, good) ↦
          let whole : ks ≡ kind a y ∷ more = ground (arith, found, good) in
          rw (whole, found) (step s (kind a y) more (λ t. check_from-judge t (y ∷ rest) more good))
    ]
  ]
    where
      step :
          (t : Status) (k : Option Status) (more : List (Option Status))
          → ((u : Status) → check_from dic_as (some u) (y ∷ rest) ≡ ok (judge u more))
          → (hop (some t) k >>= λ next. elim next [
            | none ↦ ok true
            | some u ↦ check_from dic_as (some u) (y ∷ rest)
          ])
            ≡ ok (judge t (k ∷ more))
      step t none more ih = refl
      step t (some down) more ih = ih down
      step up (some up) more ih = ih up
      step up (some flat) more ih = ih flat
      step down (some up) more ih = refl
      step down (some flat) more ih = refl
      step flat (some up) more ih = refl
      step flat (some flat) more ih = refl

  judge-start : (s : Status) (ks : List (Option Status)) → judge up (some s ∷ ks) ≡ judge s ks
  judge-start up ks = refl
  judge-start down ks = refl
  judge-start flat ks = refl

  judge_iff :
      (s : Status) (ks : List (Option Status)) → (judge s ks ≡ false) ↔ IsValley (some s ∷ ks)
  judge_iff s ks = (
    λ e. climb-judge (some s ∷ ks) (judge-start s ks ∙ e),
    λ (a, peak, b, shape). sym (judge-start s ks) ∙ (ap (judge up) shape ∙ judge-climb a peak b),
  )

-- For a path of known ASes whose first hop leads to a neighbour, path_checker returns, and finds
-- the path right exactly if its hops are some up, at most one to a peer, and some down.
pub path_checker-IsValley :
    (dic_as : Dict Node) (path : List ℕ) (s : Status) (ks : List (Option Status))
    → kinds dic_as path ≡ ok (some s ∷ ks)
    → (wrong : Bool) × (path_checker dic_as path ≡ ok wrong)
      × ((wrong ≡ false) ↔ IsValley (some s ∷ ks))
unfolding path_checker
path_checker-IsValley dic_as [] s ks h = absurd (unfold kinds in ground arith)
path_checker-IsValley dic_as (x ∷ []) s ks h = absurd (unfold kinds in ground arith)
path_checker-IsValley dic_as (x ∷ y ∷ rest) s ks h = elim (Result-cases (node_of dic_as x)) [
  | inr (e, bad) ↦ absurd (unfold kinds in ground (arith, bad))
  | inl (a, found) ↦ elim (Result-cases (kinds dic_as (y ∷ rest))) [
    | inr (e, bad) ↦ absurd (unfold kinds in ground (arith, found, bad))
    | inl (more, good) ↦
        let first : kind a y ≡ some s = unfold kinds in ground (arith, found, good) in
        let later : more ≡ ks = unfold kinds in ground (arith, found, good) in
        (
          judge s ks,
          rw found (rw first (check_from-judge dic_as s (y ∷ rest) ks (rw later at good))),
          judge_iff dic_as s ks,
        )
  ]
]
