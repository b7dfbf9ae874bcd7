-- ===== src/Portal/Periods.antt =====
-- The forms of config_rendezvous in the admin server that change periods, and the one that gives a
-- rendezvous to a team. Periods are a table of database/database_funct.py.
pub mod Names
pub mod Tests
use mini_internet_extention.Prelude.{
  ℕ, Bool, true, false, not, Option, none, some, List, [], ◌∷◌, ◌++◌, if◌then◌else◌, ◌==◌, ◌&&◌,
  Eq_nat, Eq_text, Text, is_empty, any, filter, length,
}
use mini_internet_extention.Portal.Db.{Rendezvous, Team, rendezvous_with, assign_team, team_with}

pub record Period : Type 0 where
  pub id : ℕ
  pub name : Text
  pub live : Bool

pub record Tables : Type 0 where
  pub periods : List Period
  pub rendezvous : List Rendezvous

pub data Note : Type 0 where
  exists_already added no_name no_live empty_name updated no_id no_team : Note
  booked_already inactive assigned deleted_rendezvous failed : Note
  deleted : ℕ → Note

abbrev pub Step : Type 0
Step = Tables × Note

-- `query(Period).get(i)`
abbrev pub period_with : ℕ → List Period → Option Period
period_with i [] = none
period_with i (p ∷ ps) = if i == p.id then some p else period_with i ps

-- `query(Period).filter(Period.name == name).first()`
abbrev pub period_named : Text → List Period → Option Period
period_named name [] = none
period_named name (p ∷ ps) = if name == p.name then some p else period_named name ps

-- `UPDATE period SET … WHERE id=…`
pub save_period : ℕ → Text → Bool → List Period → List Period
save_period i name live [] = []
save_period i name live (p ∷ ps) =
    (if i == p.id then record { id = p.id; name = name; live = live } else p)
    ∷ save_period i name live ps

-- "Add new period"; `new_id` is the primary key that the database gives to a new row.
pub new_period : (List Period → ℕ) → Text → Tables → Step
new_period new_id name t = elim (period_named name t.periods) [
  | some p ↦ (t, exists_already)
  | none ↦ (
    record t {
      periods = t.periods ++ record { id = new_id t.periods; name = name; live = false } ∷ [];
    },
    added,
  )
]

abbrev count_of : ℕ → List Rendezvous → ℕ
count_of i rs = length (filter (λ r. r.period == i) rs)

-- "DELETE BUTTON"; without a name the message at the end raises a KeyError, and all is rolled back.
pub delete_period : ℕ → Option Text → Tables → Step
delete_period i name t = elim (period_with i t.periods) [
  | none ↦ (t, failed)
  | some p ↦ elim name [
    | none ↦ (t, failed)
    | some n ↦ (
      record {
        periods = filter (λ q. not (q.id == i)) t.periods;
        rendezvous = filter (λ r. not (r.period == i)) t.rendezvous;
      },
      deleted (count_of i t.rendezvous),
    )
  ]
]

-- `period_with_name and (period_with_name.id != period.id)`; a period that does not exist is None,
-- whose attribute is read or set.
abbrev pub taken : Option Period → ℕ → Bool
taken none i = false
taken (some q) i = not (q.id == i)

-- "UPDATE BUTTON"; `live` says if the field is "1".
pub update_period : ℕ → Option Text → Option Bool → Tables → Step
update_period i none live t = (t, no_name)
update_period i (some name) none t = (t, no_live)
update_period i (some name) (some live) t =
    if is_empty name then (t, empty_name) else elim (period_with i t.periods) [
      | none ↦ (t, failed)
      | some p ↦
          if taken (period_named name t.periods) i
          then (t, exists_already)
          else (record t { periods = save_period i name live t.periods }, updated)
    ]

-- "UPDATE BUTTON" of a rendezvous: `team` is `none` for -1, for which no row of as_team exists, so
-- that an attribute of None is read.
pub edit_rendezvous : Option ℕ → Option (Option ℕ) → List Team → Tables → Step
edit_rendezvous none team teams t = (t, no_id)
edit_rendezvous (some i) none teams t = (t, no_team)
edit_rendezvous (some i) (some none) teams t = (t, failed)
edit_rendezvous (some i) (some (some asn)) teams t = elim (rendezvous_with i t.rendezvous) [
  | none ↦ (t, if any (has_team asn) t.rendezvous then failed else no_row asn)
  | some r ↦
      if any (λ q. has_team asn q && q.period == r.period) t.rendezvous
      then (t, booked_already)
      else elim (team_with asn teams) [
        | none ↦ (t, failed)
        | some team ↦
            if team.is_authenticated
            then (record t { rendezvous = assign_team i (some asn) t.rendezvous }, assigned)
            else (t, inactive)
      ]
]
  where
    has_team : ℕ → Rendezvous → Bool
    has_team asn q = elim q.team [ none ↦ false | some b ↦ b == asn ]

    -- Without a booked rendezvous to compare with, None is seen only after the team's test.
    no_row : ℕ → Note
    no_row asn = elim (team_with asn teams) [
      | none ↦ failed
      | some team ↦ if team.is_authenticated then failed else inactive
    ]
