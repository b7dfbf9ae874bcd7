-- ===== src/Portal/Teams/Members/Consistent.antt =====
-- The students' teams and the teams' members agree.
use mini_internet_extention.Prelude.{
  ℕ, ◌≡◌, refl, sym, ap, subst, ◌∙◌, inl, inr, Bool, true, false, none, some, List, Eq_nat,
  Bool-cases, Option-cases, arith, Text, [], ◌∷◌,
}
use mini_internet_extention.Policy.Collect.{Has}
use mini_internet_extention.Portal.Db.{Team, Student, Db, team_with, save_team}
use mini_internet_extention.Portal.Teams.{
  check_for_dupes, leave_team, join_team, Form, clear_members, members, clear_team, rearrange,
  chosen, nobody, writable, new_password, refused, password_refused, set_password, Flash,
  set_active, edit_team, config_teams,
}
use mini_internet_extention.Portal.Teams.Members.Listed.{
  listed, listed-Has, rearrange-listed, save_team-Has, team_with-Has, no_team, clash, unlisted,
}
use mini_internet_extention.Portal.Teams.Members.{leave_team-Has, join_team-Has, clear_members-Has}

-- A student who is in a team of the table is one of its members.
abbrev pub IsConsistent : Db → Type 0
IsConsistent db =
    (s : Student) (t : Team)
    → Has s db.students
    → Has t db.teams
    → s.team ≡ some t.asn
    → Has (some s.id) (members t)

set_password-keeps :
    (form : Form) (team : Team)
    → (changed : Team) × (pipe : List (ℕ × Text)) × (flashes : List Flash) × (set_password writable
          form team
        ≡ some (changed, pipe, flashes))
      × (changed.asn ≡ team.asn)
unfolding set_password
set_password-keeps form team = elim (Option-cases (new_password form team)) [
  | inl kept ↦ (team, [], [], rw (kept, set_password) refl, refl)
  | inr (p, given_one) ↦ elim (Option-cases (refused team.asn p)) [
    | inr (why, e) ↦ (team, [], password_refused why ∷ [], ground (arith, given_one, e), refl)
    | inl fine ↦ (
      record team { password = p },
      (team.asn, p) ∷ [],
      [],
      ground (arith, given_one, fine),
      refl,
    )
  ]
]

-- The team that is saved: its number is the old one, and the chosen members are in it.
set_active-members :
    (form : Form) (team final : Team) (active : Bool)
    → form.active_as ≡ some active
    → (flash : Flash) → set_active form team ≡ some (final, flash)
    → (final.asn ≡ team.asn)
      × ((i : ℕ) → listed i (chosen form) ≡ true → listed i (members final) ≡ true)
unfolding set_active
set_active-members form team final active fa flash e = elim (Bool-cases (nobody form)) [
  | inl empty ↦ (unfold rearrange in ground (arith, empty), λ i h. absurd (none_chosen i empty h))
  | inr some_given ↦
      let same_team : final ≡ rearrange (filled active) = ground (arith, some_given, fa) in
      (
        ap (λ z. z.asn) same_team ∙ (unfold rearrange in ground arith),
        λ i h.
            subst (λ z. listed i (members z) ≡ true) (sym same_team)
              (rearrange-listed i (filled active) h),
      )
]
  where
    filled : Bool → Team
    filled active = record team {
      member1 = form.member1;
      member2 = form.member2;
      member3 = form.member3;
      member4 = form.member4;
      is_authenticated = active;
    }

    none_chosen : (i : ℕ) → nobody form ≡ true → listed i (chosen form) ≡ true → ⊥
    none_chosen i p q = ground arith

module _ (db : Db) (c : IsConsistent db) (team : Team) (known : Has team db.teams) where
  left-IsConsistent : IsConsistent (record db { students = leave_team team.asn db.students })
  left-IsConsistent s t hs ht in_team =
      let (o, ho, ids, r) = leave_team-Has team.asn s db.students hs in
      elim r [
        | inl gone ↦ absurd (no_team s.team t.asn gone in_team)
        | inr (kept, other) ↦
            subst (λ i. Has (some i) (members t)) (sym ids) (c o t ho ht (sym kept ∙ in_team))
      ]

  joined-IsConsistent :
      (form : Form) (final : Team) (students : List Student)
      → join_team team.asn (chosen form) (leave_team team.asn db.students) ≡ some students
      → final.asn ≡ team.asn
      → ((i : ℕ) → listed i (chosen form) ≡ true → listed i (members final) ≡ true)
      → IsConsistent (record db { students = students; teams = save_team final db.teams })
  joined-IsConsistent form final students joined number holds s t hs ht in_team =
      let (o, ho, ids, r) =
        join_team-Has team.asn (chosen form) s (leave_team team.asn db.students) students joined
          hs in
      elim r [
        | inl (m, new_team) ↦ elim (save_team-Has t final db.teams ht) [
          | inl e ↦
              subst (λ z. Has (some s.id) (members z)) (sym e)
                ((listed-Has s.id (members final)).1
                  (holds s.id ((listed-Has s.id (chosen form)).0 m)))
          | inr (k, other) ↦
              absurd (clash s.team final.asn t.asn (new_team ∙ ap some (sym number)) in_team other)
        ]
        | inr kept ↦
            let (p, hp, ids', r') = leave_team-Has team.asn o db.students ho in
            elim r' [
              | inl gone ↦ absurd (no_team s.team t.asn (kept ∙ gone) in_team)
              | inr (kept', other) ↦ elim (save_team-Has t final db.teams ht) [
                | inl e ↦ absurd (
                    unlisted p.team team.asn
                      (sym kept' ∙ sym kept ∙ in_team ∙ ap (λ z. some z.asn) e ∙ ap some number)
                      other)
                | inr (k, _) ↦
                    subst (λ i. Has (some i) (members t)) (sym (ids ∙ ids'))
                      (c p t hp k (sym kept' ∙ sym kept ∙ in_team))
              ]
            ]
      ]

  cleared-IsConsistent :
      (final : Team) (students : List Student)
      → clear_members (members team) db.students ≡ some students
      → final.asn ≡ team.asn
      → IsConsistent (record db { students = students; teams = save_team final db.teams })
  cleared-IsConsistent final students cleared number s t hs ht in_team =
      let (o, ho, ids, r) = clear_members-Has (members team) s db.students students cleared hs in
      elim r [
        | inl gone ↦ absurd (no_team s.team t.asn gone in_team)
        | inr (kept, outside) ↦ elim (save_team-Has t final db.teams ht) [
          | inl e ↦ absurd (
              outside (
                subst (λ i. Has (some i) (members team)) (sym ids)
                  (c o team ho known
                    (sym kept ∙ in_team ∙ ap (λ z. some z.asn) e ∙ ap some number))))
          | inr (k, _) ↦
              subst (λ i. Has (some i) (members t)) (sym ids) (c o t ho k (sym kept ∙ in_team))
        ]
      ]

module _ (db : Db) (c : IsConsistent db) (team : Team) (known : Has team db.teams) where
  clear_team-IsConsistent : IsConsistent (clear_team team db).db
  unfolding clear_team clear_members
  clear_team-IsConsistent = elim (Option-cases (clear_members (members team) db.students)) [
    | inl missing ↦ rw missing c
    | inr (students, cleared) ↦
        rw cleared (cleared-IsConsistent db c team known (emptied team) students cleared refl)
  ]
    where
      emptied : Team → Team
      emptied t = record t {
        member1 = none;
        member2 = none;
        member3 = none;
        member4 = none;
        is_authenticated = false;
      }

  edit_team-IsConsistent :
      (form : Form) (active : Bool)
      → form.active_as ≡ some active
      → IsConsistent (edit_team writable form team db).db
  unfolding edit_team join_team
  edit_team-IsConsistent form active fa =
      let left : List Student = leave_team team.asn db.students in
      let (changed, pipe, flashes, set, same_number) = set_password-keeps form team in
      elim (Option-cases (join_team team.asn (chosen form) left)) [
        | inl missing ↦ rw missing (left-IsConsistent db c team known)
        | inr (students, joined) ↦ elim (Option-cases (set_active form changed)) [
          | inl bad ↦ absurd (unfold set_active in ground (arith, fa, bad))
          | inr ((final, flash), done) ↦
              let (number, holds) = set_active-members form changed final active fa flash done in
              rw joined (
                rw set (
                  rw done (
                    joined-IsConsistent db c team known form final students joined
                      (number ∙ same_number) holds)))
        ]
      ]

-- If each student who is in a team of the table is one of its members, it stays so when the admin
-- clears or edits a team with a form that has the field active_as and the docker pipe can be
-- written, whether the request succeeds or fails for another reason.
pub config_teams-IsConsistent :
    (form : Form) (active : Bool) (db : Db)
    → form.active_as ≡ some active
    → IsConsistent db
    → IsConsistent (config_teams writable form db).db
unfolding config_teams
config_teams-IsConsistent form active db fa c = elim (Bool-cases form.clear) [
  | inl clears ↦ elim (Option-cases (team_with form.asn db.teams)) [
    | inl missing ↦ rw clears (rw missing c)
    | inr (team, found) ↦
        rw clears (rw found (clear_team-IsConsistent db c team (known team found)))
  ]
  | inr edits ↦
      elim (Bool-cases (check_for_dupes form.member1 form.member2 form.member3 form.member4)) [
        | inr dupes ↦ rw edits (rw dupes c)
        | inl fine ↦ elim (Option-cases (team_with form.asn db.teams)) [
          | inl missing ↦ rw edits (rw fine (rw missing c))
          | inr (team, found) ↦ rw edits (
              rw fine
                (rw found (edit_team-IsConsistent db c team (known team found) form active fa)))
        ]
      ]
]
  where
    known : (team : Team) → team_with form.asn db.teams ≡ some team → Has team db.teams
    known team found = (team_with-Has form.asn team db.teams found).1
