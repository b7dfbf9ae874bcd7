-- ===== src/Portal/Teams.antt =====
-- `config_teams` of the admin server, with check_for_dupes, update_students and change_pass of
-- utils.py: the admin clears a team, or sets its members, its password and if it is active.
pub mod Dupes
pub mod Members
pub mod Tests
use mini_internet_extention.Prelude.{
  ℕ, ◌+◌, Bool, true, false, not, ◌&&◌, ◌||◌, Option, none, some, List, [], ◌∷◌, ◌++◌,
  if◌then◌else◌, ◌==◌, Eq_nat, Eq_text, ltb, elem, length, is_empty, starts_with, Text, codes,
}
use mini_internet_extention.Portal.Db.{
  Rendezvous, Team, Student, Db, team_with, student_with, set_student_team, save_team,
}

-- A member field of the form: the id that the page offers, in decimal, or `none` for "-1".
abbrev pub Member : Type 0
Member = Option ℕ

abbrev pub same : Member → Member → Bool
same none none = true
same none (some b) = false
same (some a) none = false
same (some a) (some b) = a == b

abbrev pub given : Member → Bool
given none = false
given (some a) = true

-- True means that there is no duplicate.
pub check_for_dupes : Member → Member → Member → Member → Bool
check_for_dupes member1 member2 member3 member4 =
    if given member1 && (same member1 member2 || same member1 member3 || same member1 member4)
    then false
    else if given member2 && (same member2 member3 || same member2 member4)
    then false
    else if given member3 && same member3 member4
    then false
    else true

-- "First up, remove all students from the team"
pub leave_team : ℕ → List Student → List Student
leave_team team [] = []
leave_team team (s ∷ ss) =
    (if same s.team (some team) then record s { team = none } else s) ∷ leave_team team ss

-- "Then, add the new ones"; `none` is the AttributeError for a student that does not exist.
pub join_team : ℕ → List Member → List Student → Option (List Student)
join_team team [] students = some students
join_team team (none ∷ ms) students = join_team team ms students
join_team team (some i ∷ ms) students = elim (student_with i students) [
  | none ↦ none
  | some s ↦ join_team team ms (set_student_team i (some team) students)
]

-- `needle in hay`
unfoldable pub contains : Text → Text → Bool
contains needle [] = is_empty needle
contains needle (c ∷ hay) = starts_with (c ∷ hay) needle || contains needle hay

-- The messages of the ValueErrors of change_pass
pub data Refused : Type 0 where
  invalid_input with_spaces with_tabs with_newlines too_short : Refused

-- The guards of change_pass, in the order of the code; `none` if the password is set.
unfoldable pub refused : ℕ → Text → Option Refused
refused asn newpass =
    if asn == 0 || is_empty newpass
    then some invalid_input
    else if contains (codes " ") newpass
    then some with_spaces
    else if contains (codes "    ") newpass
    then some with_tabs
    else if elem 10 newpass
    then some with_newlines
    else if elem 9 newpass
    then some with_tabs
    else if ltb (length newpass) 8
    then some too_short
    else none

pub data Flash : Type 0 where
  cleared inactive_now updated duplicate : ℕ → Flash
  password_refused : Refused → Flash
  failed : Flash

-- `request.form` of a POST with an "asn": `active_as` is `none` if the field is missing.
pub record Form : Type 0 where
  pub asn : ℕ
  pub clear : Bool
  pub member1 : Member
  pub member2 : Member
  pub member3 : Member
  pub member4 : Member
  pub password : Option Text
  pub active_as : Option Bool

-- LOCATIONS['docker_pipe']: a KeyError, which comes before the guards of change_pass, an OSError,
-- which comes after them, or a file that is written.
pub data Pipe : Type 0 where
  not_configured not_writable writable : Pipe

-- The database as it is committed when the handler ends, the commands written to the pipe, and
-- the messages.
pub record Outcome : Type 0 where
  pub db : Db
  pub pipe : List (ℕ × Text)
  pub flashes : List Flash

-- "Clear and deactivate the team": the members leave; `none` is the AttributeError for a member
-- that does not exist. The database counts ids from 1, so that `if student` asks if there is one.
pub clear_members : List Member → List Student → Option (List Student)
clear_members [] students = some students
clear_members (none ∷ ms) students = clear_members ms students
clear_members (some i ∷ ms) students = elim (student_with i students) [
  | none ↦ none
  | some s ↦ clear_members ms (set_student_team i none students)
]

-- "Clear the team's rendezvous"
pub clear_rendezvous : ℕ → List Rendezvous → List Rendezvous
clear_rendezvous asn [] = []
clear_rendezvous asn (r ∷ rs) =
    (if same r.team (some asn) then record r { team = none } else r) ∷ clear_rendezvous asn rs

abbrev pub members : Team → List Member
members team = team.member1 ∷ team.member2 ∷ team.member3 ∷ team.member4 ∷ []

-- `team.member1 = … = None`
abbrev pub without_members : Team → Team
without_members team = record team {
  member1 = none;
  member2 = none;
  member3 = none;
  member4 = none;
}

abbrev deactivated : Team → Team
deactivated team = record (without_members team) { is_authenticated = false }

-- The rollback leaves the database as it was before.
pub clear_team : Team → Db → Outcome
clear_team team db = elim (clear_members (members team) db.students) [
  | none ↦ record { db = db; pipe = []; flashes = failed ∷ [] }
  | some students ↦ record {
    db = record {
      teams = save_team (deactivated team) db.teams;
      students = students;
      rendezvous = clear_rendezvous team.asn db.rendezvous;
    };
    pipe = [];
    flashes = cleared team.asn ∷ [];
  }
]

-- "Rearange members if needed", the three tests one after the other.
abbrev first_gap : Team → Team
first_gap t =
    if given t.member1
    then t
    else record t { member1 = t.member2; member2 = t.member3; member3 = t.member4; member4 = none }

abbrev second_gap : Team → Team
second_gap t =
    if given t.member2
    then t
    else record t { member2 = t.member3; member3 = t.member4; member4 = none }

abbrev third_gap : Team → Team
third_gap t = if given t.member3 then t else record t { member3 = t.member4; member4 = none }

pub rearrange : Team → Team
rearrange t = third_gap (second_gap (first_gap t))

abbrev set_members : Form → Team → Team
set_members form team = record team {
  member1 = form.member1;
  member2 = form.member2;
  member3 = form.member3;
  member4 = form.member4;
}

abbrev pub chosen : Form → List Member
chosen form = form.member1 ∷ form.member2 ∷ form.member3 ∷ form.member4 ∷ []

abbrev pub nobody : Form → Bool
nobody form =
    not (given form.member1)
    && not (given form.member2)
    && not (given form.member3)
    && not (given form.member4)

-- The new password, unless there is none, or it is the old one.
abbrev pub new_password : Form → Team → Option Text
new_password form team = elim form.password [
  | none ↦ none
  | some p ↦ if is_empty p || p == team.password then none else some p
]

-- The team with its password, the command for the pipe, and the message; `none` is an exception
-- that is no ValueError.
pub set_password : Pipe → Form → Team → Option (Team × List (ℕ × Text) × List Flash)
set_password pipe form team = elim (new_password form team) [
  | none ↦ some (team, [], [])
  | some p ↦ elim pipe [
    | not_configured ↦ none
    | not_writable ↦ elim (refused team.asn p) [
      | some why ↦ some (team, [], password_refused why ∷ [])
      | none ↦ none
    ]
    | writable ↦ elim (refused team.asn p) [
      | some why ↦ some (team, [], password_refused why ∷ [])
      | none ↦ some (record team { password = p }, (team.asn, p) ∷ [], [])
    ]
  ]
]

-- From "Check if team is active" on; `none` is the KeyError for a form without active_as.
pub set_active : Form → Team → Option (Team × Flash)
set_active form team =
    if nobody form then some (deactivated team, inactive_now team.asn) else elim form.active_as [
      | none ↦ none
      | some active ↦ some (
        rearrange (set_members form (record team { is_authenticated = active })),
        updated team.asn,
      )
    ]

-- update_students commits twice, so that an exception takes back only what came after.
pub edit_team : Pipe → Form → Team → Db → Outcome
edit_team docker_pipe form team db =
    let left = record db { students = leave_team team.asn db.students } in
    elim (join_team team.asn (chosen form) left.students) [
      | none ↦ record { db = left; pipe = []; flashes = failed ∷ [] }
      | some students ↦
          let joined = record left { students = students } in
          elim (set_password docker_pipe form team) [
            | none ↦ record { db = joined; pipe = []; flashes = failed ∷ [] }
            | some (changed, pipe, flashes) ↦ elim (set_active form changed) [
              | none ↦ record { db = joined; pipe = pipe; flashes = flashes ++ failed ∷ [] }
              | some (final, flash) ↦ record {
                db = record joined { teams = save_team final joined.teams };
                pipe = pipe;
                flashes = flashes ++ flash ∷ [];
              }
            ]
          ]
    ]

-- A team that does not exist is None, whose attributes are read in the first two cases.
pub config_teams : Pipe → Form → Db → Outcome
config_teams docker_pipe form db =
    let fail : Outcome = record { db = db; pipe = []; flashes = failed ∷ [] } in
    if form.clear
    then elim (team_with form.asn db.teams) [ none ↦ fail | some team ↦ clear_team team db ]
    else if check_for_dupes form.member1 form.member2 form.member3 form.member4
    then elim (team_with form.asn db.teams) [
      | none ↦ fail
      | some team ↦ edit_team docker_pipe form team db
    ]
    else record { db = db; pipe = []; flashes = duplicate form.asn ∷ [] }
