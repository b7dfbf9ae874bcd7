-- ===== src/Portal/Calendar.antt =====
-- `detect_rend_collision`, and the rendezvous that the admin adds for a range of time.
pub mod Overlap
pub mod Range
pub mod Tests
use mini_internet_extention.Prelude.{
  ℕ, zero, suc, ◌+◌, Bool, true, false, not, ◌&&◌, ◌||◌, Option, none, some, List, [], ◌∷◌, ◌++◌,
  if◌then◌else◌, ◌==◌, Eq_nat, ltb, any, filter,
}
use mini_internet_extention.Portal.Db.{Rendezvous}

-- The body of the loop over the rendezvous of the period.
unfoldable pub collides : ℕ → ℕ → Rendezvous → Bool
collides date duration rend =
    if rend.datetime == date
    then true
    else if ltb rend.datetime date && ltb date (rend.datetime + rend.duration)
    then true
    else ltb date rend.datetime && ltb rend.datetime (date + duration)

unfoldable pub detect_rend_collision : List Rendezvous → ℕ → ℕ → ℕ → Bool
detect_rend_collision rends date duration period =
    any (collides date duration) (filter (λ rend. rend.period == period) rends)

-- The rendezvous, the number of new ones, and whether some were left out.
pub record Added : Type 0 where
  pub rendezvous : List Rendezvous
  pub count : ℕ
  pub collisions : Bool

-- `new_id` is the primary key that the database gives to a new row.
module _ (new_id : List Rendezvous → ℕ) (allow_parallel : Bool) where
  unfoldable pub new_rendezvous : ℕ → ℕ → ℕ → List Rendezvous → Rendezvous
  new_rendezvous period start duration rends = record {
    id = new_id rends;
    period = period;
    datetime = start;
    duration = duration;
    team = none;
  }

  -- One round of `while start < end`. The session flushes before each query, so that the query
  -- sees the rows that were added in the rounds before.
  unfoldable pub add_one : ℕ → ℕ → ℕ → Added → Added
  add_one period duration start state =
      if not allow_parallel && detect_rend_collision state.rendezvous start duration period
      then record state { collisions = true }
      else record {
        rendezvous = state.rendezvous ++ new_rendezvous period start duration state.rendezvous ∷ [];
        count = suc state.count;
        collisions = state.collisions;
      }

  -- `none` means that the fuel ran out.
  unfoldable pub range_loop : ℕ → ℕ → ℕ → ℕ → ℕ → Added → Option Added
  range_loop zero period duration end start state = if ltb start end then none else some state
  range_loop (suc fuel) period duration end start state =
      let rest =
        range_loop fuel period duration end (start + duration)
          (add_one period duration start state) in
      if ltb start end then rest else some state

  -- Each round moves `start` by at least a minute, so that `end` rounds are enough.
  unfoldable pub add_range : ℕ → ℕ → ℕ → ℕ → List Rendezvous → Option Added
  add_range period duration start end rends =
      range_loop end period duration end start
        (record { rendezvous = rends; count = 0; collisions = false })
