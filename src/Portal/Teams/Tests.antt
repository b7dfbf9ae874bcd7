-- ===== src/Portal/Teams/Tests.antt =====
-- Team 7 has student 1, and gets student 2 in a later place.
use mini_internet_extention.Prelude.{
  ℕ, arith, ◌≡◌, refl, inl, inr, sym, ap, ◌∙◌, Bool, true, false, Option, none, some, [], ◌∷◌,
  Eq_nat, codes,
}
use mini_internet_extention.Portal.Db.{Team, Student, Db, set_student_team, save_team}
use mini_internet_extention.Portal.Teams.{
  Form, not_writable, writable, failed, refused, contains, check_for_dupes, config_teams, edit_team,
  leave_team, join_team, set_password, set_active, rearrange,
}
use mini_internet_extention.Portal.Teams.Members.Consistent.{
  IsConsistent, config_teams-IsConsistent,
}

abbrev team : Option ℕ → Option ℕ → Option ℕ → Bool → Team
team member1 member2 member3 active = record {
  asn = 7;
  password = codes "secret";
  member1 = member1;
  member2 = member2;
  member3 = member3;
  member4 = none;
  is_authenticated = active;
}

abbrev student : ℕ → Option ℕ → Student
student id team = record { id = id; name = codes "A B"; team = team }

abbrev db : Db
db = record {
  teams = team (some 1) none none true ∷ [];
  students = student 1 (some 7) ∷ student 2 none ∷ [];
  rendezvous = [];
}

abbrev form : Form
form = record {
  asn = 7;
  clear = false;
  member1 = none;
  member2 = some 2;
  member3 = none;
  member4 = none;
  password = none;
  active_as = some true;
}

moved_up : (config_teams writable form db).db ≡ record {
  teams = team (some 2) none none true ∷ [];
  students = student 1 none ∷ student 2 (some 7) ∷ [];
  rendezvous = [];
}
unfolding config_teams edit_team check_for_dupes leave_team join_team set_password set_active
    rearrange set_student_team save_team
moved_up = refl

-- Without a pipe the students have moved, and the members of the team are the old ones.
left_behind :
    (config_teams not_writable (record form { password = some (codes "secret-2") }) db) ≡ record {
      db = record {
        teams = team (some 1) none none true ∷ [];
        students = student 1 none ∷ student 2 (some 7) ∷ [];
        rendezvous = [];
      };
      pipe = [];
      flashes = failed ∷ [];
    }
unfolding config_teams edit_team check_for_dupes leave_team join_team set_password set_active
    rearrange set_student_team save_team refused contains
left_behind = refl

-- Two empty places in front: one is left.
gap : rearrange (team none none (some 3) true) ≡ team none (some 3) none true
unfolding rearrange
gap = refl

consistent : IsConsistent db
consistent s t (inl e) (inl f) in_team = inl (ap (λ z. some z.id) e ∙ sym (ap (λ z. z.member1) f))
consistent s t (inr (inl e)) (inl f) in_team =
    absurd (nowhere s.team t.asn (ap (λ z. z.team) e) in_team)
  where
    nowhere : (o : Option ℕ) (n : ℕ) → o ≡ none → o ≡ some n → ⊥
    nowhere o n a b = ground arith
consistent s t (inr (inr h)) k in_team = absurd h
consistent s t h (inr k) in_team = absurd k

config_teams-IsConsistent_example : IsConsistent (config_teams writable form db).db
config_teams-IsConsistent_example = config_teams-IsConsistent form true db refl consistent
