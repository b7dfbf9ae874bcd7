-- ===== src/Files/Public.antt =====
-- `parse_public_as_connections`: the file for students has a line for each direction of a
-- connection, with the address of that line's first side.
pub mod Address
pub mod Tests
use mini_internet_extention.Prelude.{
  ℕ, String, ◌≡◌, ◌↔◌, Bool, true, false, ◌&&◌, Option, none, some, List, [], ◌∷◌, ◌++◌, any, map,
  if◌then◌else◌, ◌==◌, Eq, Eq_nat, Eq_string, Text, Result, ok, err, ◌>>=◌, arith, nat_eq_iff,
}
use mini_internet_extention.Files.Clean.{
  Error, runtime_error, rows, int_field, each_row, text_at, text_field,
}
use mini_internet_extention.Files.Sort.{sorted}

-- `tuple(row[f"a_{key}"] for key in ["asn", "router", "role"])`
pub record End : Type 0 where
  pub asn : ℕ
  pub router : Option String
  pub role : Option String

abbrev pub text_eq? : Option String → Option String → Bool
text_eq? none none = true
text_eq? (some s) (some t) = s == t
text_eq? _ _ = false

pub text_eq?_iff : (s t : Option String) → (text_eq? s t ≡ true) ↔ (s ≡ t)
text_eq?_iff none none = ground arith
text_eq?_iff none (some t) = ground arith
text_eq?_iff (some s) none = ground arith
text_eq?_iff (some s) (some t) = ground (arith, Eq_string.beq_iff s t)

abbrev pub end_eq : End → End → Bool
end_eq a b = a.asn == b.asn && text_eq? a.router b.router && text_eq? a.role b.role

pub end_eq_iff : (a b : End) → (end_eq a b ≡ true) ↔ (a ≡ b)
end_eq_iff a b =
    ground
      (arith, nat_eq_iff a.asn b.asn, text_eq?_iff a.router b.router, text_eq?_iff a.role b.role)

instance abbrev pub Eq_end : Eq End
Eq_end = record { beq = end_eq; beq_iff = end_eq_iff }

-- A line of the file: both ends, and the address of the first.
pub record PublicRow : Type 0 where
  pub a : End
  pub b : End
  pub a_ip : Option String

-- An entry of `data`: its key, and the addresses of its two dicts.
pub record Connection : Type 0 where
  pub a : End
  pub b : End
  pub a_ip : Option String
  pub b_ip : Option String

unfoldable pub parse_public_row : List Text → Result Error PublicRow
unfolding text_at text_field
parse_public_row row = do
  a_asn ← int_field 0 row
  b_asn ← int_field 3 row
  ok (record {
    a = record { asn = a_asn; router = some (text_at 1 row); role = some (text_at 2 row) };
    b = record { asn = b_asn; router = text_field 4 row; role = text_field 5 row };
    a_ip = text_field 6 row;
  })

-- Equality of two keys (a, b) and (x, y) of `data`.
unfoldable pub same_key : End → End → End → End → Bool
same_key a b x y = a == x && b == y

pub same_key_iff : (a b x y : End) → (same_key a b x y ≡ true) ↔ ((a ≡ x) × (b ≡ y))
unfolding same_key
same_key_iff a b x y = ground (arith, end_eq_iff a x, end_eq_iff b y)

abbrev pub has_key : End → End → Connection → Bool
has_key a b c = same_key c.a c.b a b

-- `data[(b, a)][1]['ip'] = row['a_ip']`
unfoldable pub set_other : End → End → Option String → List Connection → List Connection
set_other b a ip data' = map (λ c. if has_key b a c then record c { b_ip = ip } else c) data'

unfoldable pub add_row : PublicRow → List Connection → Result Error (List Connection)
add_row row data' =
    if any (has_key row.a row.b) data'
    then err runtime_error
    else if any (has_key row.b row.a) data'
    then ok (set_other row.b row.a row.a_ip data')
    else ok (data' ++ record { a = row.a; b = row.b; a_ip = row.a_ip; b_ip = none } ∷ [])

abbrev pub ends_numbers : Connection → ℕ × ℕ
ends_numbers c = (c.a.asn, c.b.asn)

-- Each row is parsed in the turn of its loop: an error of an earlier row comes first.
unfoldable pub public_loop : List (List Text) → List Connection → Result Error (List Connection)
unfolding parse_public_row add_row set_other same_key
public_loop [] data' = ok data'
public_loop (row ∷ rest) data' = do
  r ← parse_public_row row
  more ← add_row r data'
  public_loop rest more

unfoldable pub parse_public_as_connections : Text → Result Error (List Connection)
unfolding rows public_loop sorted
parse_public_as_connections file =
    public_loop (rows file) [] >>= λ data'. ok (sorted ends_numbers data')
