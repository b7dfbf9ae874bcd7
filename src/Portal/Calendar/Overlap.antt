-- ===== src/Portal/Calendar/Overlap.antt =====
-- The collision test against common minutes.
use mini_internet_extention.Prelude.{
  ℕ, ◌+◌, ◌≤◌, ◌<◌, ◌≡◌, refl, sym, ap, subst, ◌∙◌, ltb, ◌↔◌, inl, inr, true, List, [], ◌∷◌, ◌==◌,
  Eq_nat, Bool-cases, nat_eq_iff, arith,
}
use mini_internet_extention.Policy.Collect.{Has}
use mini_internet_extention.Portal.Db.{Rendezvous}
use mini_internet_extention.Portal.Calendar.{collides, detect_rend_collision}

-- Two stretches of time have a minute in common.
abbrev pub Overlap : ℕ → ℕ → ℕ → ℕ → Type 0
Overlap start duration start' duration' =
    (t : ℕ) × (start ≤ t) × (t < start + duration) × (start' ≤ t) × (t < start' + duration')

pub collides_iff :
    (date duration : ℕ) (rend : Rendezvous)
    → 0 < duration
    → 0 < rend.duration
    → (collides date duration rend ≡ true) ↔ Overlap date duration rend.datetime rend.duration
unfolding collides
collides_iff date duration rend p q = (
  λ c. elim (Bool-cases (ltb rend.datetime date)) [
    | inl before ↦ (date, ground arith, ground arith, ground arith, ground arith)
    | inr after ↦ (rend.datetime, ground arith, ground arith, ground arith, ground arith)
  ],
  λ (t, a, b, c, d). ground arith,
)

-- If all durations are positive, a collision is reported exactly if a rendezvous of the period
-- shares a minute with the new one.
pub detect_rend_collision_correct :
    (rends : List Rendezvous) (date duration period : ℕ)
    → 0 < duration
    → ((r : Rendezvous) → Has r rends → 0 < r.duration)
    → (detect_rend_collision rends date duration period ≡ true) ↔ (
        (r : Rendezvous) × Has r rends
        × (r.period ≡ period)
        × Overlap date duration r.datetime r.duration)
unfolding detect_rend_collision
detect_rend_collision_correct [] date duration period p q =
    (λ e. absurd (ground arith), λ (r, h, _, _). absurd h)
detect_rend_collision_correct (r ∷ rs) date duration period p q =
    let (to, from) = detect_rend_collision_correct rs date duration period p (λ s h. q s (inr h)) in
    let (hit, meet) = collides_iff date duration r p (q r (inl refl)) in
    (
      λ e. elim (Bool-cases (r.period == period)) [
        | inl same ↦ elim (Bool-cases (collides date duration r)) [
          | inl c ↦ (r, inl refl, (nat_eq_iff r.period period).0 same, hit c)
          | inr none_here ↦
              let (s, h, k, o) = to (ground (arith, same, none_here)) in (s, inr h, k, o)
        ]
        | inr other ↦ let (s, h, k, o) = to (ground (arith, other)) in (s, inr h, k, o)
      ],
      λ (s, h, k, o). elim h [
        | inl same ↦
            let c : collides date duration r ≡ true =
              meet (subst (λ x. Overlap date duration x.datetime x.duration) same o) in
            let in_period : (r.period == period) ≡ true =
              (nat_eq_iff r.period period).1 (ap (λ x. x.period) (sym same) ∙ k) in
            ground (arith, c, in_period)
        | inr below ↦
            let later = from (s, below, k, o) in
            elim (Bool-cases (r.period == period)) [
              | inl here ↦ ground (arith, here, later)
              | inr other ↦ ground (arith, other, later)
            ]
      ],
    )
