-- ===== src/Portal/Slots/Disjoint.antt =====
-- The forms keep the rendezvous of a period apart.
use mini_internet_extention.Prelude.{
  ℕ, ◌<◌, ◌≡◌, ltb, inl, inr, Bool, false, not, Option, none, some, List, [], ◌∷◌, ◌++◌, filter,
  ◌==◌, Eq_nat, Bool-cases, Option-cases, arith,
}
use mini_internet_extention.Policy.Collect.{Has}
use mini_internet_extention.Portal.Db.{Rendezvous, rendezvous_with}
use mini_internet_extention.Portal.Calendar.{detect_rend_collision, Added, add_one, new_rendezvous}
use mini_internet_extention.Portal.Calendar.Range.{
  IsCalendar, add_one-IsCalendar, add_range-IsCalendar,
}
use mini_internet_extention.Portal.Periods.{Tables, period_with}
use mini_internet_extention.Portal.Slots.{
  Form, checked_slot, new_slot, checked_range, new_slots, delete_slot,
}

Has-filter :
    (p : Rendezvous → Bool) (rs : List Rendezvous) (r : Rendezvous) → Has r (filter p rs) → Has r rs
Has-filter p [] r h = h
Has-filter p (s ∷ rs) r h = elim (Bool-cases (p s)) [
  | inl keep ↦ elim (rw keep at h) [ inl e ↦ inl e | inr k ↦ inr (Has-filter p rs r k) ]
  | inr drop ↦ inr (Has-filter p rs r (rw drop at h))
]

IsCalendar-filter :
    (p : Rendezvous → Bool) (rs : List Rendezvous) → IsCalendar rs → IsCalendar (filter p rs)
IsCalendar-filter p [] c = c
IsCalendar-filter p (r ∷ rs) (d, a, c) = elim (Bool-cases (p r)) [
  | inl keep ↦ rw keep (d, (λ s h. a s (Has-filter p rs s h)), IsCalendar-filter p rs c)
  | inr drop ↦ rw drop (IsCalendar-filter p rs c)
]

module _ (new_id : List Rendezvous → ℕ) (now : ℕ) where
  abbrev Calendar : Tables → Type 0
  Calendar t = IsCalendar t.rendezvous

  -- The new row is the one that a round of the range adds.
  one_more :
      (period start duration : ℕ) (rends : List Rendezvous)
      → 0 < duration
      → IsCalendar rends
      → detect_rend_collision rends start duration period ≡ false
      → IsCalendar (rends ++ new_rendezvous new_id false period start duration rends ∷ [])
  unfolding add_one
  one_more period start duration rends p c free =
      let state : Added = record { rendezvous = rends; count = 0; collisions = false } in
      rw free at (add_one-IsCalendar new_id period duration start state p c)

  checked_slot-Calendar :
      (period start duration : ℕ) (t : Tables)
      → Calendar t
      → Calendar (checked_slot new_id false now period start duration t).0
  unfolding checked_slot
  checked_slot-Calendar period start duration t c = elim (Bool-cases (ltb start now)) [
    | inl past ↦ rw (past, checked_slot) c
    | inr future ↦ elim (Bool-cases (ltb duration 1)) [
      | inl short ↦ rw (future, short, checked_slot) c
      | inr long ↦ elim (Bool-cases (detect_rend_collision t.rendezvous start duration period)) [
        | inl hit ↦ rw (future, long, hit, checked_slot) c
        | inr free ↦
            rw (future, long, free, checked_slot)
              (one_more period start duration t.rendezvous (ground (arith, long)) c free)
      ]
    ]
  ]

  new_slot-Calendar :
      (form : Form) (t : Tables) → Calendar t → Calendar (new_slot new_id false now form t).0
  unfolding new_slot
  new_slot-Calendar form t c = elim (Option-cases form.period) [
    | inl e ↦ rw (e, new_slot) c
    | inr (period, e) ↦ elim (Option-cases form.start) [
      | inl f ↦ rw (e, f, new_slot) c
      | inr (start, f) ↦ elim (Option-cases form.duration) [
        | inl g ↦ rw (e, f, g, new_slot) c
        | inr (duration, g) ↦
            rw (e, f, g, new_slot) (checked_slot-Calendar period start duration t c)
      ]
    ]
  ]

  checked_range-Calendar :
      (period start end duration : ℕ) (t : Tables)
      → Calendar t
      → Calendar (checked_range new_id false now period start end duration t).0
  unfolding checked_range
  checked_range-Calendar period start end duration t c = elim (Bool-cases (ltb start now)) [
    | inl past ↦ rw (past, checked_range) c
    | inr future ↦ elim (Bool-cases (ltb end start)) [
      | inl after ↦ rw (future, after, checked_range) c
      | inr before ↦ elim (Bool-cases (ltb duration 1)) [
        | inl short ↦ rw (future, before, short, checked_range) c
        | inr long ↦ elim (Option-cases (period_with period t.periods)) [
          | inl missing ↦ rw (future, before, long, missing, checked_range) c
          | inr (p, e) ↦
              let (out, ends, kept) =
                add_range-IsCalendar new_id p.id duration start end t.rendezvous
                  (ground (arith, long)) c in
              rw (future, before, long, e, ends, checked_range) kept
        ]
      ]
    ]
  ]

  new_slots-Calendar :
      (form : Form) (t : Tables) → Calendar t → Calendar (new_slots new_id false now form t).0
  unfolding new_slots
  new_slots-Calendar form t c = elim (Option-cases form.period) [
    | inl e ↦ rw (e, new_slots) c
    | inr (period, e) ↦ elim (Option-cases form.start) [
      | inl f ↦ rw (e, f, new_slots) c
      | inr (start, f) ↦ elim (Option-cases form.end) [
        | inl g ↦ rw (e, f, g, new_slots) c
        | inr (end, g) ↦ elim (Option-cases form.duration) [
          | inl h ↦ rw (e, f, g, h, new_slots) c
          | inr (duration, h) ↦
              rw (e, f, g, h, new_slots) (checked_range-Calendar period start end duration t c)
        ]
      ]
    ]
  ]

delete_slot-IsCalendar :
    (i : Option ℕ) (t : Tables)
    → IsCalendar t.rendezvous
    → IsCalendar (delete_slot i t).0.rendezvous
unfolding delete_slot
delete_slot-IsCalendar none t c = c
delete_slot-IsCalendar (some i) t c = elim (Option-cases (rendezvous_with i t.rendezvous)) [
  | inl missing ↦ rw (missing, delete_slot) c
  | inr (r, e) ↦ rw (e, delete_slot) (IsCalendar-filter (λ q. not (q.id == i)) t.rendezvous c)
]

-- Without parallel rendezvous, the forms of the admin that add one rendezvous, add a range of
-- them, or delete one keep a calendar of rendezvous of positive durations of which no two of a
-- period overlap.
pub slots-IsCalendar :
    (new_id : List Rendezvous → ℕ) (now : ℕ) (form : Form) (i : Option ℕ) (t : Tables)
    → IsCalendar t.rendezvous
    → IsCalendar (new_slot new_id false now form t).0.rendezvous
      × IsCalendar (new_slots new_id false now form t).0.rendezvous
      × IsCalendar (delete_slot i t).0.rendezvous
slots-IsCalendar new_id now form i t c = (
  new_slot-Calendar new_id now form t c,
  new_slots-Calendar new_id now form t c,
  delete_slot-IsCalendar i t c,
)
