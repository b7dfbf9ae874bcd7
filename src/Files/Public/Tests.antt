-- ===== src/Files/Public/Tests.antt =====
-- Two ASes and an IXP in a file for students.
use mini_internet_extention.Prelude.{
  ℕ, ◌≡◌, refl, String, none, some, List, [], ◌∷◌, ◌++◌, Text, codes, split, to_string, ok, err,
  int,
}
use mini_internet_extention.Files.Clean.{runtime_error, rows, each_row}
use mini_internet_extention.Files.Sort.{IsSorted}
use mini_internet_extention.Files.Public.{
  End, PublicRow, Connection, ends_numbers, parse_public_row, parse_public_as_connections,
}
use mini_internet_extention.Files.Public.Address.{
  address, last_given, parse_public_as_connections-address,
}

abbrev end : ℕ → String → String → End
end asn router role = record { asn = asn; router = some router; role = some role }

abbrev newline_text : Text
newline_text = 10 ∷ []

abbrev file : Text
file =
    codes "3 LYON Provider 1 BASE Customer 179.0.2.1/24"
    ++ newline_text
    ++ codes "1 BASE Customer 3 LYON Provider 179.0.2.2/24"
    ++ newline_text
    ++ codes "1   ZURI Peer 80 None Peer 180.80.0.1/24"
    ++ newline_text

abbrev connections : List Connection
connections =
    record {
      a = end 1 "ZURI" "Peer";
      b = end 80 "None" "Peer";
      a_ip = some "180.80.0.1/24";
      b_ip = none;
    }
    ∷ record {
      a = end 3 "LYON" "Provider";
      b = end 1 "BASE" "Customer";
      a_ip = some "179.0.2.1/24";
      b_ip = some "179.0.2.2/24";
    }
    ∷ []

parsed_file : parse_public_as_connections file ≡ ok connections
unfolding parse_public_as_connections split int to_string
parsed_file = refl

parse_public_as_connections-address_example :
    (parsed : List PublicRow) × (each_row parse_public_row (rows file) ≡ ok parsed)
    × ((a b : End) → address a b connections ≡ last_given none a b parsed)
    × IsSorted ends_numbers connections
parse_public_as_connections-address_example =
    parse_public_as_connections-address file connections parsed_file

twice_first :
    parse_public_as_connections
      (codes "1 A Peer 2 B Peer x" ++ newline_text ++ codes "1 A Peer 2 B Peer y")
    ≡ err runtime_error
unfolding parse_public_as_connections split int to_string
twice_first = refl
