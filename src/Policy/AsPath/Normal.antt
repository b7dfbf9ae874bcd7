-- ===== src/Policy/AsPath/Normal.antt =====
-- What a normalized path looks like, and that its hops can be read back.
use mini_internet_extention.Prelude.{
  ◌≡◌, ◌≢◌, refl, sym, true, false, List, [], ◌∷◌, ◌||◌, Option, none, some, Text, Eq_text, ok, err,
  isdigit, is_digit, is_empty, split, join, split-join, AllHaveNo, HasNo, all, Result-cases, inl,
  inr, Bool-cases, arith,
}
use mini_internet_extention.Policy.Config.{assertion_error}
use mini_internet_extention.Policy.AsPath.{space, same_as, normalize_loop, normalize_as_path}

-- Every hop is a number, and no two hops in a row are the same.
abbrev pub IsNormal : Option Text → List Text → Type 0
IsNormal prev [] = Unit
IsNormal prev (e ∷ np) = (isdigit e ≡ true) × (same_as prev e ≡ false) × IsNormal (some e) np

pub normalize_loop-IsNormal :
    (prev : Option Text) (pe np : List Text) → normalize_loop prev pe ≡ ok np → IsNormal prev np
unfolding normalize_loop
normalize_loop-IsNormal prev [] np h = subst_nil np (ground arith)
  where
    subst_nil : (np : List Text) → np ≡ [] → IsNormal prev np
    subst_nil [] h = tt
    subst_nil (x ∷ xs) h = absurd (ground arith)
normalize_loop-IsNormal prev (e ∷ pe) np h = elim (Bool-cases (same_as prev e || is_empty e)) [
  | inl skip ↦ normalize_loop-IsNormal prev pe np (rw skip at h)
  | inr take ↦ elim (Bool-cases (isdigit e)) [
    | inr bad ↦ absurd (ground arith)
    | inl digits ↦ elim (Result-cases (normalize_loop (some e) pe)) [
      | inr (x, fails) ↦ absurd (ground (arith, fails))
      | inl (more, ends) ↦
          let whole : np ≡ e ∷ more = ground (arith, ends) in
          rw whole (digits, ground arith, normalize_loop-IsNormal (some e) pe more ends)
    ]
  ]
]

digit-not-space : (s : Text) → all is_digit s ≡ true → HasNo space s
digit-not-space [] h = tt
digit-not-space (c ∷ s) h = (ground arith, digit-not-space s (ground arith))

IsNormal-AllHaveNo : (prev : Option Text) (np : List Text) → IsNormal prev np → AllHaveNo space np
IsNormal-AllHaveNo prev [] h = tt
IsNormal-AllHaveNo prev (e ∷ np) h =
    (digit-not-space e (ground arith), IsNormal-AllHaveNo (some e) np h.2)

-- A path that normalizes and has a hop left splits into hops that are all numbers, of which no two
-- in a row are the same, and joining them gives the path back.
pub normalize_as_path-IsNormal :
    (p q : Text)
    → normalize_as_path p ≡ ok q
    → q ≢ []
    → IsNormal none (split space q) × (join space (split space q) ≡ q)
unfolding normalize_as_path
normalize_as_path-IsNormal p q h ne = elim (Result-cases (normalize_loop none (split space p))) [
  | inr (x, fails) ↦ absurd (ground (arith, fails))
  | inl (np, ends) ↦
      some_hops np (normalize_loop-IsNormal none (split space p) np ends) (ground (arith, ends))
]
  where
    some_hops :
        (np : List Text)
        → IsNormal none np
        → join space np ≡ q
        → IsNormal none (split space q) × (join space (split space q) ≡ q)
    some_hops [] n e = absurd (ne (unfold join in sym e))
    some_hops (w ∷ ws) n e =
        let back = split-join space w ws (IsNormal-AllHaveNo none (w ∷ ws) n) in
        rw (← e) (rw back (n, refl))

normalize_loop-no_assertion :
    (prev : Option Text) (pe : List Text) → normalize_loop prev pe ≢ err assertion_error
unfolding normalize_loop
normalize_loop-no_assertion prev [] e = ground arith
normalize_loop-no_assertion prev (x ∷ pe) e =
    ground (arith, normalize_loop-no_assertion prev pe, normalize_loop-no_assertion (some x) pe)

pub normalize_as_path-no_assertion : (p : Text) → normalize_as_path p ≢ err assertion_error
unfolding normalize_as_path
normalize_as_path-no_assertion p e =
    ground (arith, normalize_loop-no_assertion none (split space p))
