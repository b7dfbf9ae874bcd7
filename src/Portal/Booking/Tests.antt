-- ===== src/Portal/Booking/Tests.antt =====
-- Team 7 books a free rendezvous.
use mini_internet_extention.Prelude.{ℕ, ◌≡◌, refl, false, Option, none, some, [], ◌∷◌, ok}
use mini_internet_extention.Portal.Db.{Rendezvous, assign_team}
use mini_internet_extention.Portal.Booking.{Form, booked, post_rendezvous, book_rendezvous}
use mini_internet_extention.Portal.Booking.Guards.{Guarded, post_rendezvous-Guarded}

abbrev slot : Option ℕ → Rendezvous
slot team = record { id = 3; period = 1; datetime = 600; duration = 30; team = team }

abbrev form : Form
form = record { rend_id = some 3; cancel = false; team_asn = some 7 }

books : post_rendezvous 60 500 7 form (slot none ∷ []) ≡ ok (slot (some 7) ∷ [], some booked)
unfolding post_rendezvous book_rendezvous assign_team
books = refl

post_rendezvous-Guarded_example : Guarded 60 500 7 form 3 (slot none) (slot (some 7) ∷ [])
post_rendezvous-Guarded_example =
    post_rendezvous-Guarded 60 500 7 form (slot none ∷ []) (slot (some 7) ∷ []) (some booked) 3
      (slot none) books refl
