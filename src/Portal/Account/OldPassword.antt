-- ===== src/Portal/Account/OldPassword.antt =====
-- The part that the old password plays, and how long the new one lasts.
use mini_internet_extention.Prelude.{
  ℕ, ◌≡◌, ◌≢◌, refl, ap, sym, subst, ◌∙◌, arith, ◌++◌, true, none, some, List, [], ◌∷◌, ◌==◌,
  Eq_nat, Eq_text, nat_eq_iff, Text, Bool-cases, inl, inr,
}
use mini_internet_extention.Portal.Db.{Team, team_with, save_team}
use mini_internet_extention.Portal.Teams.{refused, writable}
use mini_internet_extention.Portal.Account.{
  logged_in, as_login, Session, Note, changing, Answer, changed_page, set_new_password,
  change_password, change_pass_index,
}

-- A saved row is found under its number.
team_with-save_team :
    (t u : Team) (teams : List Team)
    → team_with t.asn teams ≡ some u
    → team_with t.asn (save_team t teams) ≡ some t
unfolding save_team
team_with-save_team t u [] e = absurd (ground (arith, e))
team_with-save_team t u (x ∷ xs) e = elim (Bool-cases (t.asn == x.asn)) [
  | inl here ↦
      ground (arith, here, nat_eq_iff t.asn x.asn, nat_eq_iff x.asn t.asn, nat_eq_iff t.asn t.asn)
  | inr other ↦
      ground
        (arith, other, nat_eq_iff t.asn x.asn, nat_eq_iff x.asn t.asn, team_with-save_team t u xs)
]

team_with-number :
    (asn : ℕ) (u : Team) (teams : List Team) → team_with asn teams ≡ some u → asn ≡ u.asn
team_with-number asn u [] e = absurd (ground (arith, e))
team_with-number asn u (x ∷ xs) e = elim (Bool-cases (asn == x.asn)) [
  | inl here ↦ ground (arith, here, nat_eq_iff asn x.asn)
  | inr other ↦ team_with-number asn u xs (ground (arith, other))
]

-- A new session, as after a restart of the server, sees the committed rows.
abbrev pub reopened : Session → Session
reopened s = record s { seen = s.committed }

as_login-known :
    (asn : ℕ) (t : Team) (teams : List Team)
    → team_with asn teams ≡ some t
    → as_login true asn t.password teams ≡ logged_in
unfolding as_login
as_login-known asn t teams found = ground (arith, found, Eq_text.beq_iff t.password t.password)

-- The session after the request, whatever the old password was.
abbrev accepted_session : Text → Team → List Team → Session
accepted_session new_pass as_team teams = record {
  committed = teams;
  seen = save_team (record as_team { password = new_pass }) teams;
}

change_password-accepted :
    (asn : ℕ) (new_pass : Text) (notes : List Note) (as_team : Team) (teams : List Team)
    → team_with asn teams ≡ some as_team
    → refused asn new_pass ≡ none
    → change_password writable asn new_pass notes (record { committed = teams; seen = teams })
      ≡ record {
        page = changed_page;
        session = accepted_session new_pass as_team teams;
        pipe = (asn, new_pass) ∷ [];
        log = notes ++ changing ∷ [];
      }
unfolding change_password set_new_password
change_password-accepted asn new_pass notes as_team teams found fine = ground (arith, fine, found)

module _ (asn : ℕ) (old_pass new_pass : Text) (teams : List Team) where
  -- What change_pass_index answers where the new password is repeated and the pipe can be written.
  abbrev pub changed : Answer
  changed =
      change_pass_index writable true asn old_pass new_pass new_pass
        (record { committed = teams; seen = teams })

  changed-accepted :
      (as_team : Team)
      → team_with asn teams ≡ some as_team
      → old_pass ≢ new_pass
      → refused asn new_pass ≡ none
      → (changed.session ≡ accepted_session new_pass as_team teams)
        × (changed.pipe ≡ (asn, new_pass) ∷ [])
  unfolding change_pass_index
  changed-accepted as_team found differ fine =
      let again : (new_pass == new_pass) ≡ true = (Eq_text.beq_iff new_pass new_pass).1 refl in
      let done : (notes : List Note) → _ =
        λ notes. change_password-accepted asn new_pass notes as_team teams found fine in
      elim (Bool-cases (new_pass == old_pass)) [
        | inl same ↦ absurd (differ (sym ((Eq_text.beq_iff new_pass old_pass).0 same)))
        | inr other ↦ (
          rw found (rw again (rw other (ap (λ r. r.session) (done _)))),
          rw found (rw again (rw other (ap (λ r. r.pipe) (done _)))),
        )
      ]

  -- If a team of the table repeats a new password that change_pass does not refuse, and the pipe
  -- can be written, the command is sent whatever the team gave as the old password, unless that is
  -- the new one; in the session it then logs in with the new password, but the row is not
  -- committed, so that in a new session it logs in with the old one, if teams that are not active
  -- may log in.
  pub change_pass_index-any_old :
      (as_team : Team)
      → team_with asn teams ≡ some as_team
      → old_pass ≢ new_pass
      → refused asn new_pass ≡ none
      → (changed.pipe ≡ (asn, new_pass) ∷ [])
        × (as_login true asn new_pass changed.session.seen ≡ logged_in)
        × (as_login true asn as_team.password (reopened changed.session).seen ≡ logged_in)
  change_pass_index-any_old as_team found differ fine =
      let (session, pipe) = changed-accepted as_team found differ fine in
      let same = team_with-number asn as_team teams found in
      let changed_team : Team = record as_team { password = new_pass } in
      (
        pipe,
        ap (λ x. as_login true asn new_pass x.seen) session
            ∙ as_login-known asn changed_team (save_team changed_team teams) (
                subst (λ n. team_with n (save_team changed_team teams) ≡ some changed_team)
                  (sym same)
                  (team_with-save_team changed_team as_team teams
                    (subst (λ n. team_with n teams ≡ some as_team) same found))),
        ap (λ x. as_login true asn as_team.password (reopened x).seen) session
            ∙ as_login-known asn as_team teams found,
      )
