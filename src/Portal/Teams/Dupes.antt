-- ===== src/Portal/Teams/Dupes.antt =====
-- What check_for_dupes accepts.
use mini_internet_extention.Prelude.{
  ℕ, ◌≡◌, refl, ◌↔◌, true, none, some, List, [], ◌∷◌, Eq_nat, IsSimple, arith,
}
use mini_internet_extention.Portal.Teams.{Member, check_for_dupes}

-- The ids that are given.
abbrev pub ids : List Member → List ℕ
ids [] = []
ids (none ∷ ms) = ids ms
ids (some a ∷ ms) = a ∷ ids ms

-- check_for_dupes passes exactly if no id is given twice.
check_for_dupes_correct :
    (member1 member2 member3 member4 : Member)
    → (check_for_dupes member1 member2 member3 member4 ≡ true)
      ↔ IsSimple (ids (member1 ∷ member2 ∷ member3 ∷ member4 ∷ []))
unfolding check_for_dupes
check_for_dupes_correct a b c d = go a b c d
  where
    go : (w x y z : Member) → (check_for_dupes w x y z ≡ true) ↔ IsSimple (ids (w ∷ x ∷ y ∷ z ∷ []))
    go none none none none = (λ e. tt, λ u. refl)
    go none none none (some d) = (λ e. (refl, tt), λ u. refl)
    go none none (some c) none = (λ e. (refl, tt), λ u. refl)
    go none none (some c) (some d) = (λ e. (ground arith, (refl, tt)), λ u. ground (arith, u.0))
    go none (some b) none none = (λ e. (refl, tt), λ u. refl)
    go none (some b) none (some d) = (λ e. (ground arith, (refl, tt)), λ u. ground (arith, u.0))
    go none (some b) (some c) none = (λ e. (ground arith, (refl, tt)), λ u. ground (arith, u.0))
    go none (some b) (some c) (some d) =
        (λ e. (ground arith, (ground arith, (refl, tt))), λ (u, (v, _)). ground (arith, u, v))
    go (some a) none none none = (λ e. (refl, tt), λ u. refl)
    go (some a) none none (some d) = (λ e. (ground arith, (refl, tt)), λ u. ground (arith, u.0))
    go (some a) none (some c) none = (λ e. (ground arith, (refl, tt)), λ u. ground (arith, u.0))
    go (some a) none (some c) (some d) =
        (λ e. (ground arith, (ground arith, (refl, tt))), λ (u, (v, _)). ground (arith, u, v))
    go (some a) (some b) none none = (λ e. (ground arith, (refl, tt)), λ u. ground (arith, u.0))
    go (some a) (some b) none (some d) =
        (λ e. (ground arith, (ground arith, (refl, tt))), λ (u, (v, _)). ground (arith, u, v))
    go (some a) (some b) (some c) none =
        (λ e. (ground arith, (ground arith, (refl, tt))), λ (u, (v, _)). ground (arith, u, v))
    go (some a) (some b) (some c) (some d) = (
      λ e. (ground arith, (ground arith, (ground arith, (refl, tt)))),
      λ (u, (v, (w, _))). ground (arith, u, v, w),
    )
