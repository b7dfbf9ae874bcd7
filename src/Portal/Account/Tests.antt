-- ===== src/Portal/Account/Tests.antt =====
-- Team 7 gives a wrong old password.
use mini_internet_extention.Prelude.{◌≡◌, ◌≢◌, refl, true, none, some, [], ◌∷◌, codes, arith}
use mini_internet_extention.Portal.Db.{Team}
use mini_internet_extention.Portal.Account.{as_login, logged_in}
use mini_internet_extention.Portal.Account.OldPassword.{
  reopened, changed, change_pass_index-any_old,
}
use mini_internet_extention.Portal.Teams.{refused, contains}

abbrev team : Team
team = record {
  asn = 7;
  password = codes "secret-1";
  member1 = some 1;
  member2 = none;
  member3 = none;
  member4 = none;
  is_authenticated = true;
}

differ : codes "guess" ≢ codes "secret-2"
differ e = ground arith

accepted : refused 7 (codes "secret-2") ≡ none
unfolding refused contains
accepted = refl

change_pass_index-any_old_example :
    ((changed 7 (codes "guess") (codes "secret-2") (team ∷ [])).pipe ≡ (7, codes "secret-2") ∷ [])
    × (as_login true 7
          (codes "secret-2")
          (changed 7 (codes "guess") (codes "secret-2") (team ∷ [])).session.seen
        ≡ logged_in)
    × (as_login true 7
          (codes "secret-1")
          (reopened (changed 7 (codes "guess") (codes "secret-2") (team ∷ [])).session).seen
        ≡ logged_in)
change_pass_index-any_old_example =
    change_pass_index-any_old 7 (codes "guess") (codes "secret-2") (team ∷ []) team refl differ
      accepted
