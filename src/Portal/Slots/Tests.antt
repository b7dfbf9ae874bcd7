-- ===== src/Portal/Slots/Tests.antt =====
-- A slot that is free, and one that is not.
use mini_internet_extention.Prelude.{
  ℕ, ◌≡◌, refl, true, false, none, some, List, [], ◌∷◌, length, codes, arith,
}
use mini_internet_extention.Portal.Db.{Rendezvous}
use mini_internet_extention.Portal.Calendar.{
  collides, detect_rend_collision, new_rendezvous, add_one, range_loop, add_range,
}
use mini_internet_extention.Portal.Calendar.Range.{IsCalendar}
use mini_internet_extention.Portal.Slots.Disjoint.{slots-IsCalendar}
use mini_internet_extention.Portal.Periods.{Tables}
use mini_internet_extention.Portal.Slots.{
  Form, added, collision, added_range, deleted, new_slot, new_slots, delete_slot,
}

abbrev slot : ℕ → ℕ → Rendezvous
slot id start = record { id = id; period = 1; datetime = start; duration = 10; team = none }

abbrev tables : List Rendezvous → Tables
tables rends = record {
  periods = record { id = 1; name = codes "P1"; live = false } ∷ [];
  rendezvous = rends;
}

abbrev at : ℕ → Form
at start = record { period = some 1; start = some start; end = some 130; duration = some 10 }

free :
    new_slot length false 50 (at 110) (tables (slot 0 100 ∷ []))
    ≡ (tables (slot 0 100 ∷ slot 1 110 ∷ []), added)
unfolding new_slot detect_rend_collision collides new_rendezvous
free = refl

not_free :
    new_slot length false 50 (at 105) (tables (slot 0 100 ∷ []))
    ≡ (tables (slot 0 100 ∷ []), collision)
unfolding new_slot detect_rend_collision collides new_rendezvous
not_free = refl

three_wanted :
    (new_slots length false 50 (at 100) (tables (slot 0 110 ∷ []))).1 ≡ added_range 2 true
unfolding new_slots add_range range_loop add_one detect_rend_collision collides new_rendezvous
three_wanted = refl

deleted_one :
    delete_slot (some 0) (tables (slot 0 100 ∷ slot 1 110 ∷ []))
    ≡ (tables (slot 1 110 ∷ []), deleted)
unfolding delete_slot
deleted_one = refl

calendar : IsCalendar (slot 0 100 ∷ [])
calendar = (omega arith, (λ s h. absurd h), tt)

slots-IsCalendar_example :
    IsCalendar (new_slot length false 50 (at 110) (tables (slot 0 100 ∷ []))).0.rendezvous
    × IsCalendar (new_slots length false 50 (at 110) (tables (slot 0 100 ∷ []))).0.rendezvous
    × IsCalendar (delete_slot (some 0) (tables (slot 0 100 ∷ []))).0.rendezvous
slots-IsCalendar_example =
    slots-IsCalendar length 50 (at 110) (some 0) (tables (slot 0 100 ∷ [])) calendar
