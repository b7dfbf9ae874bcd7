-- ===== src/Generator.antt =====
-- `print_connection` of generate_connections.py with the subnets of its connections. A file is the
-- list of its lines, and a line the list of its fields.
pub mod Topology
pub mod Routers
pub mod Blocks
pub mod Rows
pub mod Tests
pub mod Subnets
pub mod Loads
pub mod Config
pub mod RoundTrip
use mini_internet_extention.Prelude.{
  ℕ, suc, ◌/◌, ◌%◌, String, Option, none, some, List, [], ◌∷◌, ◌++◌, Text, codes, str,
}

pub throughput : ℕ
throughput = 100000

pub delay : ℕ
delay = 1000

-- The arguments of a call of `print_connection`.
pub record Call : Type 0 where
  pub grp1 : ℕ
  pub r1 : Option String
  pub type1 : String
  pub grp2 : ℕ
  pub r2 : Option String
  pub type2 : String
  pub ixp : Option Text

-- The global variables LINE_NB, FD and FD_STUDENTS.
pub record Output : Type 0 where
  pub line_nb : ℕ
  pub fd : List (List Text)
  pub fd_students : List (List Text)

-- `get_subnet_ebgp(n)`; int() of a quotient rounds it down.
unfoldable pub get_subnet_ebgp : ℕ → ℕ → Text
get_subnet_ebgp line_nb n =
    codes "179."
    ++ (str (line_nb / 100) ++ b'.' ∷ (str (line_nb % 100) ++ b'.' ∷ (str n ++ codes "/24")))

-- `'180.{}.0.{}/24'.format(grp2, n)`
unfoldable pub ixp_addr : ℕ → ℕ → Text
ixp_addr grp2 n = codes "180." ++ (str grp2 ++ b'.' ∷ b'0' ∷ b'.' ∷ (str n ++ codes "/24"))

-- `'{}'.format(r)`
abbrev pub router_text : Option String → Text
router_text none = codes "None"
router_text (some r) = codes r

-- `if ixp is None: update_subnet_ebgp()`
abbrev pub update_subnet_ebgp : Option Text → ℕ → ℕ
update_subnet_ebgp none line_nb = suc line_nb
update_subnet_ebgp (some _) line_nb = line_nb

abbrev pub link_text : ℕ → Option Text → Text
link_text line_nb none = get_subnet_ebgp line_nb 0
link_text line_nb (some ixp) = ixp

abbrev pub address_text : ℕ → ℕ → ℕ → ℕ → Option Text → Text
address_text line_nb n grp2 grp none = get_subnet_ebgp line_nb n
address_text line_nb n grp2 grp (some ixp) = ixp_addr grp2 grp

unfoldable pub print_connection : Call → Output → Output
unfolding throughput delay get_subnet_ebgp ixp_addr
print_connection c o =
    let line_nb = update_subnet_ebgp c.ixp o.line_nb in
    record {
      line_nb = line_nb;
      fd =
          o.fd
          ++ (str c.grp1
              ∷ router_text c.r1
              ∷ codes c.type1
              ∷ str c.grp2
              ∷ router_text c.r2
              ∷ codes c.type2
              ∷ str throughput
              ∷ str delay
              ∷ link_text line_nb c.ixp
              ∷ [])
            ∷ [];
      fd_students =
          o.fd_students
          ++ (str c.grp1
              ∷ router_text c.r1
              ∷ codes c.type1
              ∷ str c.grp2
              ∷ router_text c.r2
              ∷ codes c.type2
              ∷ address_text line_nb 1 c.grp2 c.grp1 c.ixp
              ∷ [])
            ∷ (str c.grp2
                ∷ router_text c.r2
                ∷ codes c.type2
                ∷ str c.grp1
                ∷ router_text c.r1
                ∷ codes c.type1
                ∷ address_text line_nb 2 c.grp2 c.grp2 c.ixp
                ∷ [])
            ∷ [];
    }

unfoldable pub print_all : List Call → Output → Output
unfolding print_connection str
print_all [] o = o
print_all (c ∷ cs) o = print_all cs (print_connection c o)

abbrev pub empty_output : Output
empty_output = record { line_nb = 0; fd = []; fd_students = [] }
