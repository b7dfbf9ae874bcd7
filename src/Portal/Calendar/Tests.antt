-- ===== src/Portal/Calendar/Tests.antt =====
-- One rendezvous from 600 to 630, and a range from 590 to 650 in steps of 20 minutes.
use mini_internet_extention.Prelude.{
  ℕ, ◌+◌, ◌<◌, ◌≡◌, refl, ◌↔◌, inl, inr, subst, sym, true, false, none, some, List, [], ◌∷◌, length,
  ◌++◌, arith,
}
use mini_internet_extention.Policy.Collect.{Has}
use mini_internet_extention.Portal.Db.{Rendezvous}
use mini_internet_extention.Portal.Calendar.{
  collides, detect_rend_collision, Added, add_range, range_loop, add_one, new_rendezvous,
}
use mini_internet_extention.Portal.Calendar.Overlap.{Overlap, detect_rend_collision_correct}
use mini_internet_extention.Portal.Calendar.Range.{IsCalendar, add_range-IsCalendar}

abbrev morning : Rendezvous
morning = record { id = 1; period = 1; datetime = 600; duration = 30; team = none }

abbrev rends : List Rendezvous
rends = morning ∷ []

-- The next key is one more than the number of rows.
abbrev new_id : List Rendezvous → ℕ
new_id rs = length rs + 1

abbrev slot : ℕ → ℕ → Rendezvous
slot id datetime = record { id = id; period = 1; datetime = datetime; duration = 20; team = none }

left_out :
    add_range new_id false 1 20 570 650 rends
    ≡ some (record {
      rendezvous = rends ++ slot 2 570 ∷ slot 3 630 ∷ [];
      count = 2;
      collisions = true;
    })
unfolding add_range range_loop add_one new_rendezvous detect_rend_collision collides
left_out = refl

positive : (r : Rendezvous) → Has r rends → 0 < r.duration
positive r (inl e) = subst (λ x. 0 < x.duration) (sym e) (omega arith)
positive r (inr h) = absurd h

detect_rend_collision_correct_example :
    (detect_rend_collision rends 610 5 1 ≡ true)
    ↔ ((r : Rendezvous) × Has r rends × (r.period ≡ 1) × Overlap 610 5 r.datetime r.duration)
detect_rend_collision_correct_example =
    detect_rend_collision_correct rends 610 5 1 (omega arith) positive

calendar : IsCalendar rends
calendar = (omega arith, (λ s h. absurd h), tt)

add_range-IsCalendar_example :
    (out : Added) × (add_range new_id false 1 20 570 650 rends ≡ some out)
    × IsCalendar out.rendezvous
add_range-IsCalendar_example = add_range-IsCalendar new_id 1 20 570 650 rends (omega arith) calendar
