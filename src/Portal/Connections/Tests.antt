-- ===== src/Portal/Connections/Tests.antt =====
-- The connections of AS 2.
use mini_internet_extention.Prelude.{ℕ, ◌≡◌, refl, ◌↔◌, ◌⊎◌, true, false, none, some, List, [], ◌∷◌}
use mini_internet_extention.Policy.Collect.{Has}
use mini_internet_extention.Portal.Connections.{SideOf, check_as, selected_connections}
use mini_internet_extention.Portal.Connections.Selected.{selected_connections_correct}

abbrev connections : List (SideOf ℕ × SideOf ℕ)
connections = ((1, 10), (2, 20)) ∷ ((2, 21), (3, 30)) ∷ ((1, 11), (3, 31)) ∷ []

turned :
    selected_connections (some 2) none connections ≡ ((2, 20), (1, 10)) ∷ ((2, 21), (3, 30)) ∷ []
unfolding selected_connections
turned = refl

selected_connections_correct_example :
    Has ((2, 20), (1, 10)) (selected_connections (some 2) none connections) ↔ (
      (check_as {A = ℕ} (some 2) none (2, 20) (1, 10) ≡ true)
      × (Has ((2, 20), (1, 10)) connections
          ⊎ (Has ((1, 10), (2, 20)) connections
              × (check_as {A = ℕ} (some 2) none (1, 10) (2, 20) ≡ false))))
selected_connections_correct_example =
    selected_connections_correct (some 2) none connections (2, 20) (1, 10)
