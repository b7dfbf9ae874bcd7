-- ===== src/Portal/Logins/Kept.antt =====
-- The teams after a file of passwords was read.
use mini_internet_extention.Prelude.{
  ℕ, String, ◌≡◌, refl, false, Option, none, some, Option-cases, List, [], ◌∷◌, ◌++◌, inl, inr,
  if◌then◌else◌, ◌==◌, Eq_nat, arith, Text, ok, map, elem, ap, sym, subst, IsSimple,
  IsSimple-concat,
}
use mini_internet_extention.Dict.{Dict, lookup}
use mini_internet_extention.Files.Tables.{parse_as_passwords}
use mini_internet_extention.Portal.Db.{Team, team_with}
use mini_internet_extention.Portal.Logins.{new_team, add_teams, create_as_login}

-- The team of a number that a table has, or else the one that its credentials give.
abbrev pub expected : ℕ → Dict String → List Team → Option Team
expected asn d teams = elim (team_with asn teams) [
  | some t ↦ some t
  | none ↦ elim (lookup asn d) [ none ↦ none | some password ↦ some (new_team asn password) ]
]

team_with-append :
    (asn : ℕ) (teams : List Team) (t : Team)
    → team_with asn (teams ++ t ∷ []) ≡ elim (team_with asn teams) [
      | some u ↦ some u
      | none ↦ if asn == t.asn then some t else none
    ]
team_with-append asn [] t = refl
team_with-append asn (u ∷ us) t = ground (arith, team_with-append asn us t)

team_with-add_teams :
    (asn : ℕ) (d : Dict String) (teams : List Team)
    → team_with asn (add_teams d teams) ≡ expected asn d teams
unfolding add_teams
team_with-add_teams asn [] teams = ground (arith, expected)
team_with-add_teams asn ((k, password) ∷ rest) teams = ground (
  arith,
  expected,
  team_with-add_teams asn rest teams,
  team_with-add_teams asn rest (teams ++ new_team k password ∷ []),
  team_with-append asn teams (new_team k password),
)

-- The primary keys of the table.
abbrev pub numbers : List Team → List ℕ
numbers teams = map (λ t. t.asn) teams

elem-team_with :
    (asn : ℕ) (teams : List Team) → team_with asn teams ≡ none → elem asn (numbers teams) ≡ false
elem-team_with asn [] e = refl
elem-team_with asn (t ∷ ts) e = ground (arith, elem-team_with asn ts)

numbers-append :
    (teams : List Team) (t : Team) → numbers (teams ++ t ∷ []) ≡ numbers teams ++ t.asn ∷ []
numbers-append [] t = refl
numbers-append (u ∷ us) t = ap (λ l. u.asn ∷ l) (numbers-append us t)

IsSimple-add_teams :
    (d : Dict String) (teams : List Team)
    → IsSimple (numbers teams)
    → IsSimple (numbers (add_teams d teams))
unfolding add_teams
IsSimple-add_teams [] teams u = u
IsSimple-add_teams ((k, password) ∷ rest) teams u = elim (Option-cases (team_with k teams)) [
  | inl new ↦
      rw (new, add_teams)
        (IsSimple-add_teams rest (teams ++ new_team k password ∷ []) (
          subst IsSimple (sym (numbers-append teams (new_team k password)))
            (IsSimple-concat (numbers teams) k (elem-team_with k teams new) u)))
  | inr (t, e) ↦ rw (e, add_teams) (IsSimple-add_teams rest teams u)
]

-- If the file of passwords can be read and no number is twice in the table, create_as_login ends
-- with a table in which no number is twice and a number has the team that it had, or else, if the
-- file has it, a new team with the password of the file.
pub create_as_login_correct :
    (file : Text) (d : Dict String) (teams : List Team)
    → parse_as_passwords (some file) ≡ ok (some d)
    → IsSimple (numbers teams)
    → (out : List Team) × (create_as_login (some file) teams ≡ ok out)
      × IsSimple (numbers out)
      × ((asn : ℕ) → team_with asn out ≡ expected asn d teams)
unfolding create_as_login
create_as_login_correct file d teams h u = (
  add_teams d teams,
  rw (h, create_as_login) refl,
  IsSimple-add_teams d teams u,
  λ asn. team_with-add_teams asn d teams,
)
