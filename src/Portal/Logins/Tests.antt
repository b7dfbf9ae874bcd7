-- ===== src/Portal/Logins/Tests.antt =====
-- The file of passwords has two ASes, of which one has a team already.
use mini_internet_extention.Prelude.{
  String, ◌≡◌, refl, ℕ, true, some, List, [], ◌∷◌, Text, codes, ok, IsSimple, Eq_nat, split, int,
  to_string,
}
use mini_internet_extention.Dict.{Dict}
use mini_internet_extention.Files.Tables.{parse_as_passwords}
use mini_internet_extention.Portal.Db.{Team, team_with}
use mini_internet_extention.Portal.Logins.{new_team, create_as_login, add_teams}
use mini_internet_extention.Portal.Logins.Kept.{expected, numbers, create_as_login_correct}

abbrev file : Text
file = codes "5\tabc\n7\tdef\n"

abbrev credentials : Dict String
credentials = (5, "abc") ∷ (7, "def") ∷ []

abbrev teams : List Team
teams = record (new_team 7 "old") { is_authenticated = true } ∷ []

reads : parse_as_passwords (some file) ≡ ok (some credentials)
unfolding parse_as_passwords split int to_string
reads = refl

adds :
    add_teams credentials teams
    ≡ record (new_team 7 "old") { is_authenticated = true } ∷ new_team 5 "abc" ∷ []
unfolding add_teams
adds = refl

create_as_login_correct_example :
    (out : List Team) × (create_as_login (some file) teams ≡ ok out)
    × IsSimple (numbers out)
    × ((asn : ℕ) → team_with asn out ≡ expected asn credentials teams)
create_as_login_correct_example = create_as_login_correct file credentials teams reads (refl, tt)
