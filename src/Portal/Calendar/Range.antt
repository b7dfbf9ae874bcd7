-- ===== src/Portal/Calendar/Range.antt =====
-- Adding a range of rendezvous: it ends, and makes no two of a period overlap.
use mini_internet_extention.Prelude.{
  ℕ, zero, suc, ◌+◌, ◌≤◌, ◌<◌, ◌≡◌, refl, sym, subst, ltb, inl, inr, Bool, true, false, some, List,
  [], ◌∷◌, ◌++◌, Eq_nat, Bool-cases, arith,
}
use mini_internet_extention.Policy.Collect.{Has, Has-append_cases}
use mini_internet_extention.Portal.Db.{Rendezvous}
use mini_internet_extention.Portal.Calendar.{
  detect_rend_collision, Added, new_rendezvous, add_one, range_loop, add_range,
}
use mini_internet_extention.Portal.Calendar.Overlap.{Overlap, detect_rend_collision_correct}

-- Two rendezvous of one period have no minute in common.
abbrev pub Apart : Rendezvous → Rendezvous → Type 0
Apart r s = r.period ≡ s.period → ¬ Overlap r.datetime r.duration s.datetime s.duration

-- Each is long, and apart from all that come after it in the list.
abbrev pub IsCalendar : List Rendezvous → Type 0
IsCalendar [] = Unit
IsCalendar (r ∷ rs) = (0 < r.duration) × ((s : Rendezvous) → Has s rs → Apart r s) × IsCalendar rs

IsCalendar-positive :
    (rs : List Rendezvous) → IsCalendar rs → (r : Rendezvous) → Has r rs → 0 < r.duration
IsCalendar-positive [] c r h = absurd h
IsCalendar-positive (s ∷ rs) (p, a, c) r (inl e) = subst (λ x. 0 < x.duration) (sym e) p
IsCalendar-positive (s ∷ rs) (p, a, c) r (inr h) = IsCalendar-positive rs c r h

IsCalendar-concat :
    (rs : List Rendezvous) (n : Rendezvous)
    → IsCalendar rs
    → 0 < n.duration
    → ((r : Rendezvous) → Has r rs → Apart r n)
    → IsCalendar (rs ++ n ∷ [])
IsCalendar-concat [] n c p a = (p, λ s h. absurd h, tt)
IsCalendar-concat (r ∷ rs) n (q, b, c) p a = (
  q,
  λ s h. elim (Has-append_cases s rs (n ∷ []) h) [
    | inl old ↦ b s old
    | inr new ↦ elim new [ inl e ↦ subst (Apart r) (sym e) (a r (inl refl)) | inr w ↦ absurd w ]
  ],
  IsCalendar-concat rs n c p (λ s h. a s (inr h)),
)

module _ (new_id : List Rendezvous → ℕ) where
  pub add_one-IsCalendar :
      (period duration start : ℕ) (state : Added)
      → 0 < duration
      → IsCalendar state.rendezvous
      → IsCalendar (add_one new_id false period duration start state).rendezvous
  unfolding add_one new_rendezvous
  add_one-IsCalendar period duration start state p c =
      let rends = state.rendezvous in
      elim (Bool-cases (detect_rend_collision rends start duration period)) [
        | inl hit ↦ rw hit c
        | inr free ↦
            let (to, from) =
              detect_rend_collision_correct rends start duration period p
                (IsCalendar-positive rends c) in
            rw free (
              IsCalendar-concat rends (new_rendezvous new_id false period start duration rends) c p
                (λ r h same (t, a, b, d, e).
                  no_both (detect_rend_collision rends start duration period)
                    (from (r, h, same, (t, d, e, a, b))) free))
      ]
    where
      no_both : (b : Bool) → b ≡ true → b ≡ false → ⊥
      no_both b x y = ground arith

  range_loop-IsCalendar :
      (fuel period duration end start : ℕ) (state out : Added)
      → 0 < duration
      → IsCalendar state.rendezvous
      → range_loop new_id false fuel period duration end start state ≡ some out
      → IsCalendar out.rendezvous
  unfolding range_loop
  range_loop-IsCalendar zero period duration end start state out p c e =
      let same : state ≡ out = ground arith in subst (λ s. IsCalendar s.rendezvous) same c
  range_loop-IsCalendar (suc fuel) period duration end start state out p c e =
      elim (Bool-cases (ltb start end)) [
        | inl more ↦
            range_loop-IsCalendar fuel period duration end (start + duration)
              (add_one new_id false period duration start state) out p
              (add_one-IsCalendar period duration start state p c) (ground (arith, more))
        | inr done ↦
            let same : state ≡ out = ground (arith, done) in
            subst (λ s. IsCalendar s.rendezvous) same c
      ]

module _ (new_id : List Rendezvous → ℕ) (parallel : Bool) where
  range_loop-ends :
      (fuel period duration end start : ℕ) (state : Added)
      → 0 < duration
      → end ≤ start + fuel
      → (out : Added) × (range_loop new_id parallel fuel period duration end start state ≡ some out)
  unfolding range_loop
  range_loop-ends zero period duration end start state p q = (state, ground arith)
  range_loop-ends (suc fuel) period duration end start state p q =
      let (out, e) =
        range_loop-ends fuel period duration end (start + duration)
          (add_one new_id parallel period duration start state) p (ground arith) in
      elim (Bool-cases (ltb start end)) [
        | inl more ↦ (out, ground (arith, more, e))
        | inr done ↦ (state, ground (arith, done))
      ]

-- Adding a range of rendezvous of a positive duration ends, whatever keys the database gives, with
-- parallel rendezvous or without.
add_range-ends :
    (new_id : List Rendezvous → ℕ) (allow_parallel : Bool) (period duration start end : ℕ)
    (rends : List Rendezvous)
    → 0 < duration
    → (out : Added) × (add_range new_id allow_parallel period duration start end rends ≡ some out)
unfolding add_range
add_range-ends new_id allow_parallel period duration start end rends p =
    range_loop-ends new_id allow_parallel end period duration end start
      (record { rendezvous = rends; count = 0; collisions = false }) p (ground arith)

-- Without parallel rendezvous, a calendar of rendezvous that have positive durations, and of which
-- no two of a period have a minute in common, stays one when a range of rendezvous of a positive
-- duration is added; adding it ends.
pub add_range-IsCalendar :
    (new_id : List Rendezvous → ℕ) (period duration start end : ℕ) (rends : List Rendezvous)
    → 0 < duration
    → IsCalendar rends
    → (out : Added) × (add_range new_id false period duration start end rends ≡ some out)
      × IsCalendar out.rendezvous
unfolding add_range
add_range-IsCalendar new_id period duration start end rends p c =
    let (out, e) = add_range-ends new_id false period duration start end rends p in
    (
      out,
      e,
      range_loop-IsCalendar new_id end period duration end start
          (record { rendezvous = rends; count = 0; collisions = false }) out p c e,
    )
