-- ===== src/Portal/Booking.antt =====
-- The POST of `rendezvous` in the project server: a team books a rendezvous or cancels its own.
pub mod Guards
pub mod Tests
use mini_internet_extention.Prelude.{
  ℕ, zero, suc, ◌+◌, Bool, true, false, Option, none, some, List, if◌then◌else◌, ◌==◌, Eq_nat, ltb,
  Result, ok, err,
}
use mini_internet_extention.Portal.Db.{Rendezvous, rendezvous_with, assign_team}

-- Reading an attribute of None
pub data Error : Type 0 where
  attribute_error : Error

-- `request.form`: the fields `rend_id` and `team_asn`, and if `cancel` is there.
pub record Form : Type 0 where
  pub rend_id : Option ℕ
  pub cancel : Bool
  pub team_asn : Option ℕ

-- The messages that are shown, without their texts' parameters.
pub data Flash : Type 0 where
  too_late_to_cancel cancel_passed cancel_of_other cancelled_already : Flash
  cancelled : Flash
  book_passed booked_by_you booked_by_other : Flash
  booked : Flash

abbrev pub team_is : Option ℕ → ℕ → Bool
team_is none asn = false
team_is (some t) asn = t == asn

-- `elif requested_rendezvous.team:`, where the number 0 is false
abbrev pub truthy : Option ℕ → Bool
truthy none = false
truthy (some zero) = false
truthy (some (suc n)) = true

abbrev is_none : Option ℕ → Bool
is_none none = true
is_none (some t) = false

abbrev pub Outcome : Type 0
Outcome = List Rendezvous × Option Flash

-- `now` is in whole minutes, rounded up, which is the same for the comparisons with `<`. The
-- test `datetime - block < now` is written with a sum.
module _ (cancelation_block now asn : ℕ) where
  pub cancel_rendezvous : Rendezvous → List Rendezvous → Outcome
  cancel_rendezvous r rends =
      if ltb r.datetime (now + cancelation_block)
      then (rends, some too_late_to_cancel)
      else if ltb r.datetime now
      then (rends, some cancel_passed)
      else if team_is r.team asn
      then (if is_none r.team
          then (rends, some cancelled_already)
          else (assign_team r.id none rends, some cancelled))
      else (rends, some cancel_of_other)

  pub book_rendezvous : Rendezvous → ℕ → List Rendezvous → Outcome
  book_rendezvous r team_asn rends =
      if ltb r.datetime now
      then (rends, some book_passed)
      else if team_is r.team asn
      then (rends, some booked_by_you)
      else if truthy r.team
      then (rends, some booked_by_other)
      else (assign_team r.id (some team_asn) rends, some booked)

  -- A rendezvous that does not exist is None, whose attribute is read in both cases.
  pub post_rendezvous : Form → List Rendezvous → Result Error Outcome
  post_rendezvous form rends = elim form.rend_id [
    | none ↦ ok (rends, none)
    | some i ↦
        if form.cancel
        then elim (rendezvous_with i rends) [
          | none ↦ err attribute_error
          | some r ↦ ok (cancel_rendezvous r rends)
        ]
        else elim form.team_asn [
          | none ↦ ok (rends, none)
          | some team ↦ elim (rendezvous_with i rends) [
            | none ↦ err attribute_error
            | some r ↦ ok (book_rendezvous r team rends)
          ]
        ]
  ]
