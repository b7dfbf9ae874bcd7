-- ===== src/Portal/Db.antt =====
-- The tables of database/database_funct.py that the handlers use. A date is a number of minutes,
-- since the forms give dates in whole minutes.
use mini_internet_extention.Prelude.{
  ℕ, Bool, Option, none, some, List, [], ◌∷◌, if◌then◌else◌, ◌==◌, Eq_nat, Text,
}

pub record Rendezvous : Type 0 where
  pub id : ℕ
  pub period : ℕ
  pub datetime : ℕ
  pub duration : ℕ
  pub team : Option ℕ

-- `query(Rendezvous).filter(Rendezvous.id == i).first()`
abbrev pub rendezvous_with : ℕ → List Rendezvous → Option Rendezvous
rendezvous_with i [] = none
rendezvous_with i (r ∷ rs) = if i == r.id then some r else rendezvous_with i rs

-- `rendezvous.team = team` for the row with that primary key.
unfoldable pub assign_team : ℕ → Option ℕ → List Rendezvous → List Rendezvous
assign_team i team [] = []
assign_team i team (r ∷ rs) =
    if i == r.id then record r { team = team } ∷ rs else r ∷ assign_team i team rs

-- A team of the table as_team: its number, its password and up to four members by their ids.
pub record Team : Type 0 where
  pub asn : ℕ
  pub password : Text
  pub member1 : Option ℕ
  pub member2 : Option ℕ
  pub member3 : Option ℕ
  pub member4 : Option ℕ
  pub is_authenticated : Bool

pub record Student : Type 0 where
  pub id : ℕ
  pub name : Text
  pub team : Option ℕ

pub record Db : Type 0 where
  pub teams : List Team
  pub students : List Student
  pub rendezvous : List Rendezvous

-- `query(AS_team).get(asn)`
abbrev pub team_with : ℕ → List Team → Option Team
team_with asn [] = none
team_with asn (t ∷ ts) = if asn == t.asn then some t else team_with asn ts

-- `query(Student).get(i)`
abbrev pub student_with : ℕ → List Student → Option Student
student_with i [] = none
student_with i (s ∷ ss) = if i == s.id then some s else student_with i ss

-- `UPDATE student SET team=… WHERE id=…`, which is how a changed student is saved.
unfoldable pub set_student_team : ℕ → Option ℕ → List Student → List Student
set_student_team i team [] = []
set_student_team i team (s ∷ ss) =
    (if i == s.id then record s { team = team } else s) ∷ set_student_team i team ss

-- `UPDATE as_team SET … WHERE asn=…`
unfoldable pub save_team : Team → List Team → List Team
save_team t [] = []
save_team t (u ∷ us) = (if u.asn == t.asn then t else u) ∷ save_team t us
