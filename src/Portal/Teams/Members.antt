-- ===== src/Portal/Teams/Members.antt =====
-- What becomes of the students when members leave and join.
pub mod Listed
pub mod Consistent
use mini_internet_extention.Prelude.{
  ℕ, ◌≡◌, refl, sym, ap, subst, ◌∙◌, ◌⊎◌, inl, inr, Bool, true, false, not, ◌&&◌, Option, none,
  some, List, [], ◌∷◌, ◌==◌, Eq_nat, nat_eq_iff, if◌then◌else◌, Bool-cases, Option-cases, Text,
  arith,
}
use mini_internet_extention.Policy.Collect.{Has}
use mini_internet_extention.Portal.Db.{
  Team, Student, Db, team_with, student_with, set_student_team, save_team,
}
use mini_internet_extention.Portal.Teams.{
  Member, same, given, check_for_dupes, leave_team, join_team, Form, Outcome, clear_members,
  members, clear_team, rearrange, chosen, nobody, set_password, set_active, edit_team, config_teams,
}

-- After `set_student_team`, a student is an old one, with another team if its id is the given one.
pub set_student_team-Has :
    (i : ℕ) (team : Option ℕ) (s : Student) (students : List Student)
    → Has s (set_student_team i team students)
    → (o : Student) × Has o students
      × (s.id ≡ o.id)
      × ((((i == o.id) ≡ true) × (s.team ≡ team)) ⊎ (((i == o.id) ≡ false) × (s.team ≡ o.team)))
unfolding set_student_team
set_student_team-Has i team s [] h = absurd h
set_student_team-Has i team s (x ∷ xs) (inl e) = elim (Bool-cases (i == x.id)) [
  | inl here ↦
      let f : s ≡ record x { team = team } = e ∙ rw here refl in
      (x, inl refl, ap (λ z. z.id) f, inl (here, ap (λ z. z.team) f))
  | inr other ↦
      let f : s ≡ x = e ∙ rw other refl in
      (x, inl refl, ap (λ z. z.id) f, inr (other, ap (λ z. z.team) f))
]
set_student_team-Has i team s (x ∷ xs) (inr h) =
    let (o, k, same_id, r) = set_student_team-Has i team s xs h in (o, inr k, same_id, r)

pub leave_team-Has :
    (team : ℕ) (s : Student) (students : List Student)
    → Has s (leave_team team students)
    → (o : Student) × Has o students
      × (s.id ≡ o.id)
      × ((s.team ≡ none) ⊎ ((s.team ≡ o.team) × (same o.team (some team) ≡ false)))
unfolding leave_team
leave_team-Has team s [] h = absurd h
leave_team-Has team s (x ∷ xs) (inl e) = elim (Bool-cases (same x.team (some team))) [
  | inl here ↦
      let f : s ≡ record x { team = none } = e ∙ rw here refl in
      (x, inl refl, ap (λ z. z.id) f, inl (ap (λ z. z.team) f))
  | inr other ↦
      let f : s ≡ x = e ∙ rw other refl in
      (x, inl refl, ap (λ z. z.id) f, inr (ap (λ z. z.team) f, other))
]
leave_team-Has team s (x ∷ xs) (inr h) =
    let (o, k, same_id, r) = leave_team-Has team s xs h in (o, inr k, same_id, r)

-- After the members have joined, a student is in the team as one of them, or is where it was.
pub join_team-Has :
    (team : ℕ) (ms : List Member) (s : Student) (students after : List Student)
    → join_team team ms students ≡ some after
    → Has s after
    → (o : Student) × Has o students
      × (s.id ≡ o.id)
      × ((Has (some s.id) ms × (s.team ≡ some team)) ⊎ (s.team ≡ o.team))
unfolding join_team
join_team-Has team [] s students after e h =
    let same_list : after ≡ students = ground arith in
    (s, subst (Has s) same_list h, refl, inr refl)
join_team-Has team (none ∷ ms) s students after e h =
    let (o, k, same_id, r) = join_team-Has team ms s students after e h in
    (o, k, same_id, elim r [ inl (m, t) ↦ inl (inr m, t) | inr t ↦ inr t ])
join_team-Has team (some i ∷ ms) s students after e h =
    elim (Option-cases (student_with i students)) [
      | inl missing ↦ absurd (ground (arith, missing))
      | inr (x, found) ↦
          let (o, k, same_id, r) =
            join_team-Has team ms s (set_student_team i (some team) students) after
              (ground (arith, found)) h in
          let (p, l, same_id', r') = set_student_team-Has i (some team) o students k in
          (
            p,
            l,
            same_id ∙ same_id',
            elim r [
              | inl (m, t) ↦ inl (inr m, t)
              | inr t ↦ elim r' [
                | inl (here, joined) ↦ inl (
                  inl (ap some (same_id ∙ same_id' ∙ sym ((nat_eq_iff i p.id).0 here))),
                  t ∙ joined,
                )
                | inr (other, kept) ↦ inr (t ∙ kept)
              ]
            ],
          )
    ]

-- After the members have left, a student is in a team as one who was there and is no member of
-- the list.
pub clear_members-Has :
    (ms : List Member) (s : Student) (students after : List Student)
    → clear_members ms students ≡ some after
    → Has s after
    → (o : Student) × Has o students
      × (s.id ≡ o.id)
      × ((s.team ≡ none) ⊎ ((s.team ≡ o.team) × ¬ Has (some s.id) ms))
unfolding clear_members
clear_members-Has [] s students after e h =
    let same_list : after ≡ students = ground arith in
    (s, subst (Has s) same_list h, refl, inr (refl, λ w. w))
clear_members-Has (none ∷ ms) s students after e h =
    let (o, k, same_id, r) = clear_members-Has ms s students after e h in
    (
      o,
      k,
      same_id,
      elim r [
        | inl t ↦ inl t
        | inr (t, n) ↦ inr (t, λ m. elim m [ inl bad ↦ absurd (ground arith) | inr w ↦ n w ])
      ],
    )
clear_members-Has (some i ∷ ms) s students after e h =
    elim (Option-cases (student_with i students)) [
      | inl missing ↦ absurd (ground (arith, missing))
      | inr (x, found) ↦
          let (o, k, same_id, r) =
            clear_members-Has ms s (set_student_team i none students) after (ground (arith, found))
              h in
          let (p, l, same_id', r') = set_student_team-Has i none o students k in
          (
            p,
            l,
            same_id ∙ same_id',
            elim r [
              | inl t ↦ inl t
              | inr (t, n) ↦ elim r' [
                | inl (here, left) ↦ inl (t ∙ left)
                | inr (other, kept) ↦ inr (
                  t ∙ kept,
                  λ m. elim m [
                    | inl bad ↦ no_id i p.id (some_inj s.id i bad) (same_id ∙ same_id') other
                    | inr w ↦ n w
                  ],
                )
              ]
            ],
          )
    ]
  where
    some_inj : (a b : ℕ) → some a ≡ some b → a ≡ b
    some_inj a b e' = ground arith

    no_id : (j q : ℕ) → s.id ≡ j → s.id ≡ q → (j == q) ≡ false → ⊥
    no_id j q u v w = ground (arith, nat_eq_iff j q)
