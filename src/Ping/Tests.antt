-- ===== src/Ping/Tests.antt =====
-- Two ASes, of which each reaches itself and neither the other.
use mini_internet_extention.Prelude.{
  ℕ, ◌≡◌, refl, Bool, true, false, none, some, List, [], ◌∷◌, ◌++◌, if◌then◌else◌, ◌==◌, Eq_nat,
  Text, codes, split, ok, In, arith, int,
}
use mini_internet_extention.Dict.{Dict}
use mini_internet_extention.Files.Clean.{newline}
use mini_internet_extention.Files.Clean.Written.{written}
use mini_internet_extention.Files.Tables.{parse_matrix_connectivity}
use mini_internet_extention.Matrix.Connectivity.{AsData, check_connectivity}
use mini_internet_extention.Matrix.Connectivity.Latest.{cell, is_as_key}
use mini_internet_extention.Ping.{
  Matrix, no_connection, is_reached, rounds, sorted_keys, connectivity_rows, read_destinations, mac,
  set,
}
use mini_internet_extention.Ping.File.{page_shows_pings}

abbrev three_lines : Text
three_lines = newline ∷ newline ∷ newline ∷ []

abbrev nping : ℕ → ℕ → Text
nping f t = three_lines ++ (if f == t then codes "RCVD (0.1s) TCP" else codes "SENT")

abbrev any_order : ℕ → List ℕ
any_order f = 2 ∷ 1 ∷ []

abbrev two_keys : List ℕ
two_keys = 2 ∷ 1 ∷ []

pinged : Matrix
unfolding set
pinged =
    set 2 2 true
      (set 2 2 true (set 1 1 true (set 1 1 true (set 2 1 false (set 1 2 false no_connection)))))

abbrev two_ases : Dict AsData
two_ases =
    (1, record { type = "AS"; routers = none }) ∷ (2, record { type = "AS"; routers = none }) ∷ []

pings : rounds nping any_order (sorted_keys two_keys) no_connection ≡ ok pinged
unfolding rounds sorted_keys pinged split
pings = refl

known : (s : ℕ) → In s two_keys → is_as_key two_ases s ≡ true
known s h = ground arith

page_shows_pings_example :
    (measured : List (ℕ × ℕ × Bool)) × (page : Dict (Dict Bool)) × (status : Bool)
    × (parse_matrix_connectivity (written (connectivity_rows two_keys pinged)) ≡ ok measured)
    × (check_connectivity two_ases measured ≡ ok page)
    × (is_reached (nping 1 2) ≡ ok status)
    × (cell 1 2 page ≡ some status)
    × (cell 2 1 page ≡ some status)
page_shows_pings_example =
    page_shows_pings nping any_order two_keys no_connection pinged two_ases 1 2 (λ x y. refl) pings
      known refl refl refl (omega arith)

destinations :
    read_destinations (codes "1 1.0.0.1" ++ newline ∷ codes "2 2.0.0.1" ++ newline ∷ [])
    ≡ ok ((1, codes "1.0.0.1") ∷ (2, codes "2.0.0.1") ∷ [])
unfolding read_destinations split int
destinations = refl

mac_of_112 : mac 112 ≡ codes "aa:11:11:11:01:12"
unfolding mac
mac_of_112 = refl
