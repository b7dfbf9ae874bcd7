-- ===== src/Portal/Account.antt =====
-- `as_login` and `change_pass_index` of the project server: a team logs in and changes its
-- password.
pub mod OldPassword
pub mod Tests
use mini_internet_extention.Prelude.{
  ℕ, Bool, true, false, not, ◌&&◌, Option, none, some, List, [], ◌∷◌, ◌++◌, if◌then◌else◌, ◌==◌,
  Eq_nat, Eq_text, Text,
}
use mini_internet_extention.Portal.Db.{Team, team_with, save_team}
use mini_internet_extention.Portal.Teams.{
  Refused, refused, Pipe, not_configured, not_writable, writable,
}

pub data Login : Type 0 where
  logged_in not_active wrong_password unknown_team : Login

-- From the query for the team on, for a form that validates.
pub as_login : Bool → ℕ → Text → List Team → Login
as_login allow_inactive asn password teams = elim (team_with asn teams) [
  | none ↦ unknown_team
  | some as_team ↦
      if as_team.password == password
      then (if not as_team.is_authenticated && not allow_inactive then not_active else logged_in)
      else wrong_password
]

-- What is written to the log.
pub data Note : Type 0 where
  request wrong_old confirm_differs old_again changing failed : Note

-- The page that is shown, with its message; an exception is the page of an internal error.
pub data Page : Type 0 where
  not_found form_page internal_error : Page
  error_page : Refused → Page
  changed_page : Page

-- The rows of as_team that are committed, and those that the queries of the session see. What
-- change_pass_index sets is not committed: a later request commits it or takes it back.
pub record Session : Type 0 where
  pub committed : List Team
  pub seen : List Team

pub record Answer : Type 0 where
  pub page : Page
  pub session : Session
  pub pipe : List (ℕ × Text)
  pub log : List Note

abbrev answer : Page → Session → List (ℕ × Text) → List Note → Answer
answer page session pipe log = record { page = page; session = session; pipe = pipe; log = log }

-- After the guards of change_pass: the command, and the row of the session.
pub set_new_password : ℕ → Text → List Note → Session → Answer
set_new_password asn new_pass notes s = elim (team_with asn s.seen) [
  | none ↦ answer internal_error s ((asn, new_pass) ∷ []) notes
  | some as_team ↦
      let changed : List Team = save_team (record as_team { password = new_pass }) s.seen in
      answer changed_page (record s { seen = changed }) ((asn, new_pass) ∷ []) notes
]

-- The call of change_pass; only a ValueError is caught.
pub change_password : Pipe → ℕ → Text → List Note → Session → Answer
unfolding set_new_password
change_password docker_pipe asn new_pass notes s = elim docker_pipe [
  | not_configured ↦ answer internal_error s [] (notes ++ changing ∷ [])
  | not_writable ↦ elim (refused asn new_pass) [
    | some why ↦ answer (error_page why) s [] (notes ++ changing ∷ failed ∷ [])
    | none ↦ answer internal_error s [] (notes ++ changing ∷ [])
  ]
  | writable ↦ elim (refused asn new_pass) [
    | some why ↦ answer (error_page why) s [] (notes ++ changing ∷ failed ∷ [])
    | none ↦ set_new_password asn new_pass (notes ++ changing ∷ []) s
  ]
]

-- For a form that was submitted: `new_pass`, and its repetition `confirm`; `asn` is the current
-- user's.
pub change_pass_index : Pipe → Bool → ℕ → Text → Text → Text → Session → Answer
change_pass_index docker_pipe enabled asn old_pass new_pass confirm s =
    if not enabled then answer not_found s [] [] else elim (team_with asn s.seen) [
      | none ↦ answer internal_error s [] (request ∷ [])
      | some as_team ↦
          let notes : List Note =
            if old_pass == as_team.password then request ∷ [] else request ∷ wrong_old ∷ [] in
          if not (confirm == new_pass)
          then answer form_page s [] (notes ++ confirm_differs ∷ [])
          else if new_pass == old_pass
          then answer form_page s [] (notes ++ old_again ∷ [])
          else change_password docker_pipe asn new_pass notes s
    ]
