-- ===== src/Policy/Analysis/Route/Safety.antt =====
-- The assertion on repeated hops never fires.
use mini_internet_extention.Prelude.{
  ℕ, suc, ◌≡◌, ◌≢◌, inl, inr, false, Option, none, some, List, [], ◌∷◌, ◌++◌, ◌==◌, Eq_nat, Eq_text,
  text_eq_iff, Text, str, int, split, ok, err, Result-cases, Bool-cases, arith,
}
use mini_internet_extention.Policy.Config.{assertion_error, Config}
use mini_internet_extention.Policy.Relations.{Relationship, get_relationship}
use mini_internet_extention.Policy.AsPath.{space, normalize_as_path}
use mini_internet_extention.Policy.AsPath.Normal.{
  IsNormal, normalize_as_path-IsNormal, normalize_as_path-no_assertion,
}
use mini_internet_extention.Policy.LookingGlass.{Row}
use mini_internet_extention.Policy.Log.{Level, error}
use mini_internet_extention.Policy.Analysis.Route.{
  Walk, next_state, level_at, walk, first_label, check_hops, check_row,
}

module _ (c : Config) (unique : (f t : ℕ) → get_relationship c f t ≢ err assertion_error) where
  walk-no_assertion :
      (w : Walk) (state : Option Relationship) (before : Option Text) (nlinks : ℕ) (level : Level)
      (hops : List Text)
      → IsNormal before hops
      → walk c w state nlinks level hops ≢ err assertion_error
  unfolding walk
  walk-no_assertion w state before nlinks level [] n e = ground arith
  walk-no_assertion w state before nlinks level (f ∷ []) n e = ground arith
  walk-no_assertion w state before nlinks level (f ∷ t ∷ rest) n e =
      let apart : (f == t) ≡ false = ground (arith, text_eq_iff f t, text_eq_iff t f, n.2.1) in
      elim (Result-cases (get_relationship c (int f) (int t))) [
        | inr (x, bad) ↦ ground (arith, bad, apart, unique (int f) (int t))
        | inl (link, good) ↦
            walk-no_assertion w (next_state state link) (some f) (suc nlinks)
              (level_at nlinks level) (t ∷ rest) n.2 (ground (arith, good, apart))
      ]

  check_hops-no_assertion :
      (number : ℕ) (prefix path : Text) (hops : List Text)
      → IsNormal none hops
      → check_hops c number prefix path hops ≢ err assertion_error
  unfolding check_hops
  check_hops-no_assertion number prefix path [] n e = ground arith
  check_hops-no_assertion number prefix path (f ∷ []) n e = ground arith
  check_hops-no_assertion number prefix path (f ∷ t ∷ rest) n e =
      walk-no_assertion
        (record { number = number; prefix = prefix; path = path; from_as = f; tested_as = t }) none
        none 0 error (f ∷ t ∷ rest) n e

  -- An empty path has one hop, which is not looked at.
  check_empty-no_assertion :
      (number : ℕ) (prefix path : Text)
      → check_hops c number prefix path (split space []) ≢ err assertion_error
  unfolding check_hops split
  check_empty-no_assertion number prefix path e = ground arith

-- If the relationship of any two ASes is unique, checking a route raises no AssertionError: the
-- one on an AS that follows itself cannot fire, since the path is normalized first.
pub check_row-no_assertion :
    (c : Config) (number : ℕ) (r : Row)
    → ((f t : ℕ) → get_relationship c f t ≢ err assertion_error)
    → check_row c number r ≢ err assertion_error
unfolding check_row
check_row-no_assertion c number r unique e =
    elim (Bool-cases (str number == first_label b'.' r.prefix)) [
      | inl own ↦ ground (arith, own)
      | inr other ↦ elim (Result-cases (normalize_as_path (str number ++ space ∷ r.path))) [
        | inr (x, bad) ↦
            ground
              (arith, bad, other, normalize_as_path-no_assertion (str number ++ space ∷ r.path))
        | inl (q, norm) ↦ hops q norm (ground (arith, norm, other))
      ]
    ]
  where
    hops :
        (q : Text)
        → normalize_as_path (str number ++ space ∷ r.path) ≡ ok q
        → check_hops c number r.prefix r.path (split space q) ≡ err assertion_error
        → ⊥
    hops [] norm k = check_empty-no_assertion c unique number r.prefix r.path k
    hops (x ∷ q) norm k =
        check_hops-no_assertion c unique number r.prefix r.path (split space (x ∷ q))
          (normalize_as_path-IsNormal (str number ++ space ∷ r.path) (x ∷ q) norm (ground arith)).0
          k
