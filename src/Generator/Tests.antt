-- ===== src/Generator/Tests.antt =====
-- A topology of one region of six ASes.
use mini_internet_extention.Prelude.{
  ℕ, ◌≡◌, refl, true, String, List, [], ◌∷◌, map, all, length, some, none, IsSimple, Eq_text, ok,
  err,
}
use mini_internet_extention.Policy.Config.{AsType, plain, ixp, Config, insert_ases, load_config}
use mini_internet_extention.Policy.Config.WellFormed.{IsWellFormed}
use mini_internet_extention.Files.Clean.{is_space}
use mini_internet_extention.Files.Clean.Written.{written}
use mini_internet_extention.Files.Sort.{sorted}
use mini_internet_extention.Files.Connections.{Linked, numbers_of, parse_as_connections}
use mini_internet_extention.Generator.{Call, print_all, empty_output}
use mini_internet_extention.Generator.Topology.{Topology, topology, comma_list}
use mini_internet_extention.Generator.Blocks.{calls}
use mini_internet_extention.Generator.Rows.{is_printable}
use mini_internet_extention.Generator.RoundTrip.{
  has_routers, connections_of, parse_as_connections-print_all,
}
use mini_internet_extention.Generator.Subnets.{printed_subnets, subnets-IsSimple}
use mini_internet_extention.Generator.Loads.{sides, are_declared, generated_loads}

abbrev region : Topology
region = record {
  tier1 = (1 ∷ 2 ∷ []) ∷ [];
  transit = (1 ∷ 2 ∷ 3 ∷ 4 ∷ 5 ∷ 6 ∷ []) ∷ [];
  ixp_central = 80;
  ixp_out = 81 ∷ [];
}

region_calls : List Call
unfolding calls comma_list
region_calls = elim (calls region) [ ok cs ↦ cs | err _ ↦ [] ]

twenty : length region_calls ≡ 20
unfolding region_calls
twenty = refl

generates : calls region ≡ ok region_calls
unfolding calls region_calls comma_list
generates = refl

words : all is_printable region_calls ≡ true
unfolding region_calls is_space comma_list
words = refl

routers : all has_routers region_calls ≡ true
unfolding region_calls
routers = refl

abbrev as_data : List (ℕ × String)
as_data =
    (1, "AS")
    ∷ (2, "AS")
    ∷ (5, "AS")
    ∷ (6, "AS")
    ∷ (3, "AS")
    ∷ (4, "AS")
    ∷ (81, "IXP")
    ∷ (80, "IXP")
    ∷ []

abbrev ases : List (ℕ × AsType)
ases =
    (1, plain)
    ∷ (2, plain)
    ∷ (5, plain)
    ∷ (6, plain)
    ∷ (3, plain)
    ∷ (4, plain)
    ∷ (81, ixp)
    ∷ (80, ixp)
    ∷ []

inserts : insert_ases as_data ≡ ok ases
unfolding load_config
inserts = refl

known : all (are_declared ases) region_calls ≡ true
unfolding region_calls
known = refl

parse_as_connections-print_all_example :
    parse_as_connections (written (print_all region_calls empty_output).fd)
    ≡ ok (sorted numbers_of (connections_of 0 region_calls))
parse_as_connections-print_all_example = parse_as_connections-print_all region_calls words routers

generated_loads_example :
    (connections : List (Linked × Linked)) × (config : Config) × (parse_as_connections
        (written (print_all region_calls empty_output).fd)
      ≡ ok connections)
    × (load_config as_data (map sides connections) ≡ ok config)
    × IsWellFormed config
    × (length config.links ≡ length region_calls)
generated_loads_example =
    generated_loads region region_calls as_data ases generates words routers inserts known

subnets-IsSimple_example :
    (length (print_all region_calls empty_output).fd ≡ length region_calls)
    × IsSimple (printed_subnets region_calls (print_all region_calls empty_output).fd)
subnets-IsSimple_example = subnets-IsSimple region_calls

-- The number of connections of a size.
connections_of_size : ℕ → ℕ
unfolding topology calls comma_list
connections_of_size nb = elim (topology nb) [
  | none ↦ 0
  | some t ↦ elim (calls t) [ ok cs ↦ length cs | err _ ↦ 0 ]
]

sizes :
    map connections_of_size (12 ∷ 20 ∷ 60 ∷ 72 ∷ 76 ∷ 70 ∷ [])
    ≡ 40 ∷ 68 ∷ 204 ∷ 246 ∷ 260 ∷ 267 ∷ []
unfolding connections_of_size
sizes = refl
