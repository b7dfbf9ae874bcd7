-- ===== src/Matrix/Checker/Stranger.antt =====
-- What path_checker does with a path whose first hop leads to no neighbour: `status` is not set.
use mini_internet_extention.Prelude.{
  ℕ, suc, zero, ◌≡◌, ◌≢◌, refl, ap, ◌∙◌, ◌↔◌, Bool, true, false, Option, none, some, List, [], ◌∷◌,
  Eq_nat, Result, ok, err, ◌>>=◌, Result-cases, inl, inr, arith,
}
use mini_internet_extention.Dict.{Dict}
use mini_internet_extention.Matrix.Connectivity.{Error, unbound_local_error}
use mini_internet_extention.Matrix.Node.{Node}
use mini_internet_extention.Matrix.Checker.{
  Status, up, down, flat, node_of, kind, hop, check_from, path_checker,
}
use mini_internet_extention.Matrix.Checker.ValleyFree.{
  kinds, fall, judge, judge-fall, fall-judge, check_from-judge,
}

-- The loop over the kinds of the later hops, before `status` is set.
abbrev unset : List (Option Status) → Result Error Bool
unset [] = ok false
unset (none ∷ ks) = ok true
unset (some down ∷ ks) = ok (judge down ks)
unset (some up ∷ ks) = err unbound_local_error
unset (some flat ∷ ks) = err unbound_local_error

check_from-unset :
    (dic_as : Dict Node) (path : List ℕ) (ks : List (Option Status))
    → kinds dic_as path ≡ ok ks
    → check_from dic_as none path ≡ unset ks
unfolding check_from hop kinds
check_from-unset dic_as [] ks h = ground arith
check_from-unset dic_as (x ∷ []) ks h = ground arith
check_from-unset dic_as (x ∷ y ∷ rest) ks h = elim (Result-cases (node_of dic_as x)) [
  | inr (e, bad) ↦ absurd (ground (arith, bad))
  | inl (a, found) ↦ elim (Result-cases (kinds dic_as (y ∷ rest))) [
    | inr (e, bad) ↦ absurd (ground (arith, found, bad))
    | inl (more, good) ↦
        let whole : ks ≡ kind a y ∷ more = ground (arith, found, good) in
        rw (whole, found) (step (kind a y) more (check_from-judge dic_as down (y ∷ rest) more good))
  ]
]
  where
    step :
        (k : Option Status) (more : List (Option Status))
        → check_from dic_as (some down) (y ∷ rest) ≡ ok (judge down more)
        → (hop none k >>= λ next. elim next [
          | none ↦ ok true
          | some u ↦ check_from dic_as (some u) (y ∷ rest)
        ])
          ≡ unset (k ∷ more)
    step none more falls = refl
    step (some down) more falls = falls
    step (some up) more falls = refl
    step (some flat) more falls = refl

-- The second hop leads to a provider or to a peer.
abbrev pub ClimbsNext : List (Option Status) → Type 0
ClimbsNext ks = (k : Status) × (rest : List (Option Status)) × (ks ≡ some k ∷ rest) × (k ≢ down)

unset-cases :
    (ks : List (Option Status))
    → ((unset ks ≡ err unbound_local_error) ↔ ClimbsNext ks)
      × ((unset ks ≡ ok false) ↔ ((b : ℕ) × (ks ≡ fall b)))
unset-cases ks = ((raises ks, raised ks), (accepts ks, accepted ks))
  where
    raises : (js : List (Option Status)) → unset js ≡ err unbound_local_error → ClimbsNext js
    raises [] e = absurd (ground arith)
    raises (none ∷ js) e = absurd (ground arith)
    raises (some down ∷ js) e = absurd (ground arith)
    raises (some up ∷ js) e = (up, js, refl, λ d. ground arith)
    raises (some flat ∷ js) e = (flat, js, refl, λ d. ground arith)

    raised : (js : List (Option Status)) → ClimbsNext js → unset js ≡ err unbound_local_error
    raised js (up, rest, same, n) = ap unset same
    raised js (flat, rest, same, n) = ap unset same
    raised js (down, rest, same, n) = absurd (n refl)

    accepts : (js : List (Option Status)) → unset js ≡ ok false → (b : ℕ) × (js ≡ fall b)
    accepts [] e = (0, refl)
    accepts (none ∷ js) e = absurd (ground arith)
    accepts (some down ∷ js) e =
        let (b, same) = fall-judge down js (λ d. ground arith) (ground arith) in
        (suc b, ap (λ l. some down ∷ l) same)
    accepts (some up ∷ js) e = absurd (ground arith)
    accepts (some flat ∷ js) e = absurd (ground arith)

    falls : (b : ℕ) → unset (fall b) ≡ ok false
    falls zero = refl
    falls (suc b) = ap ok (judge-fall down b)

    accepted : (js : List (Option Status)) → (b : ℕ) × (js ≡ fall b) → unset js ≡ ok false
    accepted js (b, same) = ap unset same ∙ falls b

-- For a path of known ASes whose first hop leads to no neighbour, path_checker ends with an
-- UnboundLocalError exactly if the next hop leads to a provider or a peer, and counts the path as
-- right exactly if all later hops, if there are any, go down.
pub path_checker_unknown_first :
    (dic_as : Dict Node) (path : List ℕ) (ks : List (Option Status))
    → kinds dic_as path ≡ ok (none ∷ ks)
    → ((path_checker dic_as path ≡ err unbound_local_error) ↔ ClimbsNext ks)
      × ((path_checker dic_as path ≡ ok false) ↔ ((b : ℕ) × (ks ≡ fall b)))
unfolding path_checker
path_checker_unknown_first dic_as [] ks h = absurd (unfold kinds in ground arith)
path_checker_unknown_first dic_as (x ∷ []) ks h = absurd (unfold kinds in ground arith)
path_checker_unknown_first dic_as (x ∷ y ∷ rest) ks h = elim (Result-cases (node_of dic_as x)) [
  | inr (e, bad) ↦ absurd (unfold kinds in ground (arith, bad))
  | inl (a, found) ↦ elim (Result-cases (kinds dic_as (y ∷ rest))) [
    | inr (e, bad) ↦ absurd (unfold kinds in ground (arith, found, bad))
    | inl (more, good) ↦
        let first : kind a y ≡ none = unfold kinds in ground (arith, found, good) in
        let later : more ≡ ks = unfold kinds in ground (arith, found, good) in
        rw found (
          rw first (rw (check_from-unset dic_as (y ∷ rest) ks (rw later at good)) (unset-cases ks)))
  ]
]
