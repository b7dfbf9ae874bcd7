-- ===== src/Portal/Slots.antt =====
-- The forms of config_rendezvous in the admin server that add one rendezvous, or a range of them,
-- and the one that deletes a rendezvous. A date is a number of minutes.
pub mod Disjoint
pub mod Tests
use mini_internet_extention.Prelude.{
  ℕ, Bool, true, false, not, ◌&&◌, Option, none, some, List, [], ◌∷◌, ◌++◌, filter, if◌then◌else◌,
  ◌==◌, Eq_nat, ltb,
}
use mini_internet_extention.Portal.Db.{Rendezvous, rendezvous_with}
use mini_internet_extention.Portal.Calendar.{
  Added, detect_rend_collision, new_rendezvous, add_range,
}
use mini_internet_extention.Portal.Periods.{Period, Tables, period_with}

pub record Form : Type 0 where
  pub period : Option ℕ
  pub start : Option ℕ
  pub end : Option ℕ
  pub duration : Option ℕ

pub data Note : Type 0 where
  no_period no_start no_end no_duration in_past after_end too_short collision added : Note
  no_id deleted failed out_of_fuel : Note
  added_range : (count : ℕ) (some_left_out : Bool) → Note

abbrev pub Step : Type 0
Step = Tables × Note

module _ (new_id : List Rendezvous → ℕ) (allow_parallel : Bool) (now : ℕ) where
  -- The tests on the values, and the new row. The message of a collision reads the name of the
  -- period, which fails if there is none.
  checked_slot : ℕ → ℕ → ℕ → Tables → Step
  checked_slot period start duration t =
      if ltb start now
      then (t, in_past)
      else if ltb duration 1
      then (t, too_short)
      else if not allow_parallel && detect_rend_collision t.rendezvous start duration period
      then (t, elim (period_with period t.periods) [ none ↦ failed | some p ↦ collision ])
      else (
        record t {
          rendezvous =
              t.rendezvous
              ++ new_rendezvous new_id allow_parallel period start duration t.rendezvous ∷ [];
        },
        added,
      )

  -- "new-rendezvous"
  unfoldable pub new_slot : Form → Tables → Step
  unfolding checked_slot
  new_slot form t = elim form.period [
    | none ↦ (t, no_period)
    | some period ↦ elim form.start [
      | none ↦ (t, no_start)
      | some start ↦ elim form.duration [
        | none ↦ (t, no_duration)
        | some duration ↦ checked_slot period start duration t
      ]
    ]
  ]

  -- A period that does not exist is None; the loop, if it runs, reads its id.
  checked_range : ℕ → ℕ → ℕ → ℕ → Tables → Step
  checked_range period start end duration t =
      if ltb start now
      then (t, in_past)
      else if ltb end start
      then (t, after_end)
      else if ltb duration 1
      then (t, too_short)
      else elim (period_with period t.periods) [
        | none ↦ (t, if ltb start end then failed else added_range 0 false)
        | some p ↦ elim (add_range new_id allow_parallel p.id duration start end t.rendezvous) [
          | none ↦ (t, out_of_fuel)
          | some a ↦ (record t { rendezvous = a.rendezvous }, added_range a.count a.collisions)
        ]
      ]

  -- "new-rendezvous-range"
  unfoldable pub new_slots : Form → Tables → Step
  unfolding checked_range
  new_slots form t = elim form.period [
    | none ↦ (t, no_period)
    | some period ↦ elim form.start [
      | none ↦ (t, no_start)
      | some start ↦ elim form.end [
        | none ↦ (t, no_end)
        | some end ↦ elim form.duration [
          | none ↦ (t, no_duration)
          | some duration ↦ checked_range period start end duration t
        ]
      ]
    ]
  ]

-- "DELETE BUTTON" of edit-rendezvous: deleting None raises an exception.
unfoldable pub delete_slot : Option ℕ → Tables → Step
delete_slot none t = (t, no_id)
delete_slot (some i) t = elim (rendezvous_with i t.rendezvous) [
  | none ↦ (t, failed)
  | some r ↦ (record t { rendezvous = filter (λ q. not (q.id == i)) t.rendezvous }, deleted)
]
