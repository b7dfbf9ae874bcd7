-- ===== src/Files/Connections.antt =====
-- `parse_as_connections`: the file with both sides of each connection and its link.
use mini_internet_extention.Prelude.{
  ℕ, String, Option, none, some, List, if◌then◌else◌, ◌==◌, Eq_string, Text, Result, ok, ◌>>=◌,
}
use mini_internet_extention.Policy.Config.{Side}
use mini_internet_extention.Files.Clean.{Error, rows, int_field, each_row, text_at, text_field}
use mini_internet_extention.Files.Sort.{sorted}

-- One side with the data of the link, which both sides have.
pub record Linked : Type 0 where
  pub side : Side
  pub bandwith : ℕ
  pub delay : ℕ
  pub subnet : Option String

abbrev pub router_of : String → Option String
router_of s = if s == "N/A" then none else some s

unfoldable pub parse_connection : List Text → Result Error (Linked × Linked)
unfolding text_at text_field
parse_connection row = do
  a_asn ← int_field 0 row
  b_asn ← int_field 3 row
  bw ← int_field 6 row
  delay ← int_field 7 row
  ok (
    record {
      side = record { asn = a_asn; router = router_of (text_at 1 row); role = text_at 2 row };
      bandwith = bw;
      delay = delay;
      subnet = text_field 8 row;
    },
    record {
      side = record { asn = b_asn; router = router_of (text_at 4 row); role = text_at 5 row };
      bandwith = bw;
      delay = delay;
      subnet = text_field 8 row;
    },
  )

abbrev pub numbers_of : Linked × Linked → ℕ × ℕ
numbers_of (a, b) = (a.side.asn, b.side.asn)

unfoldable pub parse_as_connections : Text → Result Error (List (Linked × Linked))
unfolding rows each_row parse_connection sorted
parse_as_connections file =
    each_row parse_connection (rows file) >>= λ connections. ok (sorted numbers_of connections)
