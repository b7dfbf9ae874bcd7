-- ===== src/Generator/Config.antt =====
-- The file AS_config.txt of generate_connections.py, where the AS 1 of tier 1 hosts krill.
use mini_internet_extention.Prelude.{
  ℕ, ◌-◌, List, [], ◌∷◌, ◌++◌, map, if◌then◌else◌, ◌==◌, Eq_nat, Text, codes, str, length,
}
use mini_internet_extention.Generator.Topology.{Topology, slice}
use mini_internet_extention.Generator.Blocks.{concat}

abbrev krill_row : ℕ → List Text
krill_row asn =
    str asn
    ∷ codes "AS"
    ∷ codes "Config"
    ∷ codes "l3_routers_krill.txt"
    ∷ codes "l3_links_krill.txt"
    ∷ codes "empty.txt"
    ∷ codes "empty.txt"
    ∷ codes "empty.txt"
    ∷ []

abbrev outer_row : ℕ → List Text
outer_row asn =
    str asn
    ∷ codes "AS"
    ∷ codes "Config"
    ∷ codes "l3_routers_tier1_and_stub.txt"
    ∷ codes "l3_links_tier1_and_stub.txt"
    ∷ codes "empty.txt"
    ∷ codes "empty.txt"
    ∷ codes "empty.txt"
    ∷ []

-- The numbers of tier 1 are texts, and only they can equal the text 1.
abbrev pub tier1_row : ℕ → List Text
tier1_row asn = if asn == 1 then krill_row asn else outer_row asn

abbrev pub transit_row : ℕ → List Text
transit_row asn =
    str asn
    ∷ codes "AS"
    ∷ codes "Config"
    ∷ codes "l3_routers.txt"
    ∷ codes "l3_links.txt"
    ∷ codes "l2_switches.txt"
    ∷ codes "l2_hosts.txt"
    ∷ codes "l2_links.txt"
    ∷ []

abbrev pub ixp_row : ℕ → List Text
ixp_row asn =
    str asn
    ∷ codes "IXP"
    ∷ codes "Config"
    ∷ codes "N/A"
    ∷ codes "N/A"
    ∷ codes "N/A"
    ∷ codes "N/A"
    ∷ codes "N/A"
    ∷ []

unfoldable pub all_tier1 : Topology → List ℕ
unfolding concat
all_tier1 t = concat t.tier1

-- `sum(list(map(lambda x:x[2:-2], transit)), [])`
unfoldable pub all_transit : Topology → List ℕ
unfolding concat slice
all_transit t = concat (map (λ b. slice 2 (length b - 2) b) t.transit)

unfoldable pub all_stub : Topology → List ℕ
unfolding concat slice
all_stub t = concat (map (λ b. slice (length b - 2) (length b) b) t.transit)

unfoldable pub all_ixp : Topology → List ℕ
all_ixp t = t.ixp_out ++ t.ixp_central ∷ []

unfoldable pub as_config : Topology → List (List Text)
unfolding all_tier1 all_transit all_stub all_ixp str
as_config t =
    map tier1_row (all_tier1 t)
    ++ map outer_row (all_stub t)
    ++ map transit_row (all_transit t)
    ++ map ixp_row (all_ixp t)
