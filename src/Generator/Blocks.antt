-- ===== src/Generator/Blocks.antt =====
-- The loops of generate_connections.py: the calls of `print_connection` in their order.
pub mod Roles
use mini_internet_extention.Prelude.{
  ℕ, zero, suc, ◌+◌, ◌-◌, ◌%◌, String, Option, none, some, List, [], ◌∷◌, ◌++◌, map, Text, length,
  if◌then◌else◌, ◌==◌, Eq_nat, Result, ok, err, ◌>>=◌,
}
use mini_internet_extention.Generator.{Call}
use mini_internet_extention.Generator.Topology.{
  Topology, Error, nth, from_end, before, modulo, modulo_before, slice, comma_list,
}
use mini_internet_extention.Generator.Routers.{transit_as_topo, tier1_topo, stub_topo}

-- The three kinds of call.
abbrev pub to_customer : ℕ → String → ℕ → String → Call
to_customer a r b s = record {
  grp1 = a;
  r1 = some r;
  type1 = "Provider";
  grp2 = b;
  r2 = some s;
  type2 = "Customer";
  ixp = none;
}

abbrev pub to_peer : ℕ → String → ℕ → String → Call
to_peer a r b s = record {
  grp1 = a;
  r1 = some r;
  type1 = "Peer";
  grp2 = b;
  r2 = some s;
  type2 = "Peer";
  ixp = none;
}

abbrev pub to_ixp : ℕ → String → ℕ → List ℕ → Call
to_ixp a r x members = record {
  grp1 = a;
  r1 = some r;
  type1 = "Peer";
  grp2 = x;
  r2 = none;
  type2 = "Peer";
  ixp = some (comma_list members);
}

-- `sum(xss, [])`
unfoldable pub concat : List (List ℕ) → List ℕ
concat [] = []
concat (xs ∷ xss) = xs ++ concat xss

-- `transit[(block_nb+1)%len(tier1)]` and `transit[(block_nb-1)%len(tier1)]`
abbrev next_block : Topology → ℕ → Result Error (List ℕ)
next_block t block_nb = modulo (suc block_nb) (length t.tier1) >>= λ i. nth i t.transit

abbrev previous_block : Topology → ℕ → Result Error (List ℕ)
previous_block t block_nb = modulo_before block_nb (length t.tier1) >>= λ i. nth i t.transit

tier1_left : Topology → ℕ → List ℕ → Result Error (List Call)
unfolding concat
tier1_left t block_nb b = do
  left ← nth 0 b
  right ← nth 1 b
  i ← modulo (suc block_nb) (length t.transit)
  other_block ← nth i t.tier1
  peer_other_block ← nth 1 other_block
  transits ← nth block_nb t.transit
  customer1 ← nth 2 transits
  customer2 ← nth 3 transits
  ixp2 ← nth block_nb t.ixp_out
  members ← next_block t block_nb
  ok (
      to_peer left tier1_topo.peer2 peer_other_block tier1_topo.peer2
      ∷ to_customer left tier1_topo.provider1 customer1 transit_as_topo.customer2
      ∷ to_customer left tier1_topo.provider2 customer2 transit_as_topo.customer1
      ∷ to_ixp left tier1_topo.ixp_central t.ixp_central (concat t.tier1)
      ∷ to_ixp left tier1_topo.ixp_out ixp2 members
      ∷ to_peer left tier1_topo.peer1 right tier1_topo.peer1
      ∷ [])

tier1_right : Topology → ℕ → List ℕ → Result Error (List Call)
unfolding concat
tier1_right t block_nb b = do
  right ← nth 1 b
  i ← modulo_before block_nb (length t.transit)
  other_block ← nth i t.tier1
  peer_other_block ← nth 0 other_block
  transits ← nth block_nb t.transit
  customer1 ← nth 3 transits
  customer2 ← nth 2 transits
  ixp2 ← before block_nb t.ixp_out
  members ← previous_block t block_nb
  ok (
      to_customer right tier1_topo.provider1 customer1 transit_as_topo.customer2
      ∷ to_customer right tier1_topo.provider2 customer2 transit_as_topo.customer1
      ∷ to_ixp right tier1_topo.ixp_central t.ixp_central (concat t.tier1)
      ∷ to_ixp right tier1_topo.ixp_out ixp2 members
      ∷ [])

-- `for b in tier1`
tier1_blocks : Topology → ℕ → List (List ℕ) → Result Error (List Call)
tier1_blocks t block_nb [] = ok []
tier1_blocks t block_nb (b ∷ blocks) = do
  left_calls ← tier1_left t block_nb b
  right_calls ← tier1_right t block_nb b
  rest ← tier1_blocks t (suc block_nb) blocks
  ok (left_calls ++ right_calls ++ rest)

-- The body of the two loops over transit ASes, with the routers of the customers at place i.
transit_as : Topology → ℕ → List ℕ → String → String → ℕ → ℕ → Result Error (List Call)
transit_as t block_nb b router2 router1 i a =
    if i % 2 == 0
    then (do
      customer1 ← nth (i + 2) b
      customer2 ← nth (i + 3) b
      peer1 ← nth (i + 1) b
      peer2 ← nth block_nb t.ixp_out
      members ← next_block t block_nb
      ok (
          to_customer a transit_as_topo.provider1 customer1 router2
          ∷ to_customer a transit_as_topo.provider2 customer2 router1
          ∷ to_peer a transit_as_topo.peer peer1 transit_as_topo.peer
          ∷ to_ixp a transit_as_topo.ixp peer2 members
          ∷ []))
    else (do
      customer1 ← nth (i + 2) b
      customer2 ← nth (i + 1) b
      peer1 ← nth (i - 1) b
      peer2 ← before block_nb t.ixp_out
      members ← previous_block t block_nb
      ok (
          to_customer a transit_as_topo.provider1 customer1 router2
          ∷ to_customer a transit_as_topo.provider2 customer2 router1
          ∷ to_ixp a transit_as_topo.ixp peer2 members
          ∷ []))

-- `for a in b[...]`, which counts i
transit_loop : Topology → ℕ → List ℕ → String → String → ℕ → List ℕ → Result Error (List Call)
transit_loop t block_nb b router2 router1 i [] = ok []
transit_loop t block_nb b router2 router1 i (a ∷ ases) = do
  calls_of_a ← transit_as t block_nb b router2 router1 i a
  rest ← transit_loop t block_nb b router2 router1 (suc i) ases
  ok (calls_of_a ++ rest)

-- `for b in transit`, for transit ASes
transit_blocks : Topology → ℕ → List (List ℕ) → Result Error (List Call)
unfolding slice
transit_blocks t block_nb [] = ok []
transit_blocks t block_nb (b ∷ blocks) =
    let inner = slice 2 (length b - 4) b in
    let outer = slice (length b - 4) (length b - 2) b in
    (do
      inner_calls ←
          transit_loop t block_nb b transit_as_topo.customer2 transit_as_topo.customer1 2 inner
      outer_calls ←
          transit_loop t block_nb b stub_topo.customer2 stub_topo.customer1 (2 + length inner) outer
      rest ← transit_blocks t (suc block_nb) blocks
      ok (inner_calls ++ outer_calls ++ rest))

stub_block : Topology → ℕ → List ℕ → Result Error (List Call)
stub_block t block_nb b = do
  left ← from_end 2 b
  right ← from_end 1 b
  ixp_left ← nth block_nb t.ixp_out
  members_left ← next_block t block_nb
  ixp_right ← before block_nb t.ixp_out
  members_right ← previous_block t block_nb
  ok (
      to_peer left stub_topo.peer right stub_topo.peer
      ∷ to_ixp left stub_topo.ixp ixp_left members_left
      ∷ to_ixp right stub_topo.ixp ixp_right members_right
      ∷ [])

-- `for b in transit`, for stubs
stub_blocks : Topology → ℕ → List (List ℕ) → Result Error (List Call)
stub_blocks t block_nb [] = ok []
stub_blocks t block_nb (b ∷ blocks) = do
  calls_of_b ← stub_block t block_nb b
  rest ← stub_blocks t (suc block_nb) blocks
  ok (calls_of_b ++ rest)

unfoldable pub calls : Topology → Result Error (List Call)
unfolding tier1_left tier1_right tier1_blocks transit_as transit_loop transit_blocks stub_block
    stub_blocks
calls t = do
  tier1_calls ← tier1_blocks t 0 t.tier1
  transit_calls ← transit_blocks t 0 t.transit
  stub_calls ← stub_blocks t 0 t.transit
  ok (tier1_calls ++ transit_calls ++ stub_calls)
