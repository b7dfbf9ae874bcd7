-- ===== src/Generator/RoundTrip.antt =====
-- The parser of utils/parsers.py reads what the generator writes.
use mini_internet_extention.Prelude.{
  ℕ, ◌≡◌, refl, ap, ◌∙◌, Bool, true, ◌&&◌, not, String, Option, none, some, List, [], ◌∷◌, ◌++◌,
  map, all, arith, Text, ◌==◌, Eq_string, to_string, to_string-codes, ok, ◌>>=◌,
}
use mini_internet_extention.Files.Clean.{rows, each_row}
use mini_internet_extention.Files.Clean.Written.{written, rows-written}
use mini_internet_extention.Files.Clean.Numbers.{parse_int-str}
use mini_internet_extention.Files.Sort.{sorted}
use mini_internet_extention.Files.Connections.{
  Linked, parse_connection, parse_as_connections, numbers_of,
}
use mini_internet_extention.Generator.{
  Call, throughput, delay, router_text, update_subnet_ebgp, link_text, print_all, empty_output,
}
use mini_internet_extention.Generator.Rows.{
  is_printable, link_row, link_rows, print_all-rows, is_row-link_rows,
}

-- The router as the file names it: an IXP's missing router is the word None.
abbrev pub router_name : Option String → String
router_name none = "None"
router_name (some r) = r

-- The parser takes the word N/A for no router.
abbrev pub has_routers : Call → Bool
has_routers c = not (router_name c.r1 == "N/A") && not (router_name c.r2 == "N/A")

abbrev pub linked : ℕ → Option Text → ℕ → Option String → String → Linked
linked n ixp grp r type = record {
  side = record { asn = grp; router = some (router_name r); role = type };
  bandwith = throughput;
  delay = delay;
  subnet = some (to_string (link_text n ixp));
}

-- The connections of the calls, with the subnets that they get after `n` others.
abbrev pub connections_of : ℕ → List Call → List (Linked × Linked)
connections_of n [] = []
connections_of n (c ∷ cs) =
    let m = update_subnet_ebgp c.ixp n in
    (linked m c.ixp c.grp1 c.r1 c.type1, linked m c.ixp c.grp2 c.r2 c.type2) ∷ connections_of m cs

to_string-router : (r : Option String) → to_string (router_text r) ≡ router_name r
to_string-router none = to_string-codes "None"
to_string-router (some r) = to_string-codes r

parse_connection-link_row :
    (n : ℕ) (c : Call)
    → has_routers c ≡ true
    → parse_connection (link_row n c ++ [] ∷ [])
      ≡ ok (linked n c.ixp c.grp1 c.r1 c.type1, linked n c.ixp c.grp2 c.r2 c.type2)
unfolding parse_connection
parse_connection-link_row n c h = rw (parse_int-str c.grp1) (
    rw (parse_int-str c.grp2) (
      rw (parse_int-str throughput) (
        rw (parse_int-str delay) (
          rw
            (
              to_string-codes c.type1,
              to_string-codes c.type2,
              to_string-router c.r1,
              to_string-router c.r2,
            )
            (ground arith)))))

each_row-link_rows :
    (n : ℕ) (cs : List Call)
    → all has_routers cs ≡ true
    → each_row parse_connection (map (λ row. row ++ [] ∷ []) (link_rows n cs))
      ≡ ok (connections_of n cs)
unfolding each_row
each_row-link_rows n [] h = refl
each_row-link_rows n (c ∷ cs) h =
    let m = update_subnet_ebgp c.ixp n in
    rw (parse_connection-link_row m c (ground arith))
      (rw (each_row-link_rows m cs (ground arith)) refl)

-- Where routers and roles are words, and no router is called N/A, the parser reads from the
-- printed file the connections of the calls with their subnets, bandwidths and delays, in the
-- order of its sort; the missing router of an IXP is read as the word None.
pub parse_as_connections-print_all :
    (cs : List Call)
    → all is_printable cs ≡ true
    → all has_routers cs ≡ true
    → parse_as_connections (written (print_all cs empty_output).fd)
      ≡ ok (sorted numbers_of (connections_of 0 cs))
unfolding parse_as_connections
parse_as_connections-print_all cs h k =
    let table = link_rows 0 cs in
    let parsed : each_row parse_connection (rows (written (print_all cs empty_output).fd))
        ≡ ok (connections_of 0 cs) =
      ap (λ x. each_row parse_connection (rows (written x))) (print_all-rows cs empty_output).0
      ∙ ap (λ x. each_row parse_connection x) (rows-written table (is_row-link_rows 0 cs h))
      ∙ each_row-link_rows 0 cs k in
    ap (λ x. x >>= λ connections. ok (sorted numbers_of connections)) parsed
