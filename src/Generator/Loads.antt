-- ===== src/Generator/Loads.antt =====
-- What the generator writes can be parsed, and its connections load into the analyzer's tables.
use mini_internet_extention.Prelude.{
  ℕ, ◌≡◌, refl, ◌∙◌, Bool, true, ◌&&◌, String, List, [], ◌∷◌, map, all, all-map, length, length-map,
  arith, Eq_string, ok,
}
use mini_internet_extention.Policy.Config.{AsType, Side, Config, declared, insert_ases, load_config}
use mini_internet_extention.Policy.Config.Accepts.{fits, load_config_accepts}
use mini_internet_extention.Policy.Config.WellFormed.{IsWellFormed, load_config-IsWellFormed}
use mini_internet_extention.Files.Clean.Written.{written}
use mini_internet_extention.Files.Sort.{sorted, all-sorted, length-sorted}
use mini_internet_extention.Files.Connections.{Linked, parse_as_connections, numbers_of}
use mini_internet_extention.Generator.{Call, update_subnet_ebgp, print_all, empty_output}
use mini_internet_extention.Generator.Topology.{Topology}
use mini_internet_extention.Generator.Blocks.{calls}
use mini_internet_extention.Generator.Blocks.Roles.{roles_match, calls_match}
use mini_internet_extention.Generator.Rows.{is_printable}
use mini_internet_extention.Generator.RoundTrip.{
  has_routers, connections_of, parse_as_connections-print_all,
}

-- What load_config is given of a parsed connection.
abbrev pub sides : Linked × Linked → Side × Side
sides (a, b) = (a.side, b.side)

abbrev pub are_declared : List (ℕ × AsType) → Call → Bool
are_declared ases c = declared ases c.grp1 && declared ases c.grp2

fits-connections_of :
    (ases : List (ℕ × AsType)) (n : ℕ) (cs : List Call)
    → all roles_match cs ≡ true
    → all (are_declared ases) cs ≡ true
    → all (λ c. fits ases (sides c)) (connections_of n cs) ≡ true
fits-connections_of ases n [] h k = refl
fits-connections_of ases n (c ∷ cs) h k =
    ground (arith, fits-connections_of ases (update_subnet_ebgp c.ixp n) cs)

length-connections_of : (n : ℕ) (cs : List Call) → length (connections_of n cs) ≡ length cs
length-connections_of n [] = refl
length-connections_of n (c ∷ cs) =
    ground (arith, length-connections_of (update_subnet_ebgp c.ixp n) cs)

-- If the generator comes to its end and its words can be read back, the parser reads the
-- connections that it wrote, whatever the topology, and with ASes that declare both ends of each
-- of them the analyzer loads them into a well-formed configuration with one link for each printed
-- connection.
pub generated_loads :
    (t : Topology) (cs : List Call) (as_data : List (ℕ × String)) (ases : List (ℕ × AsType))
    → calls t ≡ ok cs
    → all is_printable cs ≡ true
    → all has_routers cs ≡ true
    → insert_ases as_data ≡ ok ases
    → all (are_declared ases) cs ≡ true
    → (connections : List (Linked × Linked)) × (config : Config) × (parse_as_connections
          (written (print_all cs empty_output).fd)
        ≡ ok connections)
      × (load_config as_data (map sides connections) ≡ ok config)
      × IsWellFormed config
      × (length config.links ≡ length cs)
generated_loads t cs as_data ases gen words routers inserts known =
    let connections = sorted numbers_of (connections_of 0 cs) in
    let (config, loads) = load_config_accepts as_data ases (map sides connections) inserts (
      all-map (fits ases) sides connections
      ∙ all-sorted numbers_of (λ c. fits ases (sides c)) (connections_of 0 cs)
      ∙ fits-connections_of ases 0 cs (calls_match t cs gen) known) in
    let (fine, size) = load_config-IsWellFormed as_data (map sides connections) config loads in
    (
      connections,
      config,
      parse_as_connections-print_all cs words routers,
      loads,
      fine,
      size
          ∙ length-map sides connections
          ∙ length-sorted numbers_of (connections_of 0 cs)
          ∙ length-connections_of 0 cs,
    )
