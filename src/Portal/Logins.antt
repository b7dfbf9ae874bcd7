-- ===== src/Portal/Logins.antt =====
-- `create_as_login` of database/build_db.py: a team for each AS of the file of passwords.
pub mod Kept
pub mod Tests
use mini_internet_extention.Prelude.{
  ℕ, String, Bool, true, false, Option, none, some, List, [], ◌∷◌, ◌++◌, Text, codes, Result, ok,
  err,
}
use mini_internet_extention.Dict.{Dict}
use mini_internet_extention.Files.Clean as Files
use mini_internet_extention.Files.Tables.{parse_as_passwords}
use mini_internet_extention.Portal.Db.{Team, team_with}

-- An exception of the parser, or that of None.items() where the file is missing.
pub data Failure : Type 0 where
  of_file : Files.Error → Failure
  no_credentials : Failure

-- `db.AS_team(asn=asn, password=password)`
abbrev pub new_team : ℕ → String → Team
new_team asn password = record {
  asn = asn;
  password = codes password;
  member1 = none;
  member2 = none;
  member3 = none;
  member4 = none;
  is_authenticated = false;
}

-- The loop; a query sees the rows that were added before it.
unfoldable pub add_teams : Dict String → List Team → List Team
add_teams [] teams = teams
add_teams ((asn, password) ∷ rest) teams = elim (team_with asn teams) [
  | some t ↦ add_teams rest teams
  | none ↦ add_teams rest (teams ++ new_team asn password ∷ [])
]

unfoldable pub create_as_login : Option Text → List Team → Result Failure (List Team)
unfolding parse_as_passwords add_teams
create_as_login as_pass_file teams = elim (parse_as_passwords as_pass_file) [
  | err e ↦ err (of_file e)
  | ok none ↦ err no_credentials
  | ok (some credentials) ↦ ok (add_teams credentials teams)
]
