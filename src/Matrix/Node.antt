-- ===== src/Matrix/Node.antt =====
-- The class `AS`: direct neighbours, and the recursive sets that are computed from them. An object
-- stands in a set by its number, since `dic_as` has one object for each number.
pub mod Queue
pub mod Tests
use mini_internet_extention.Prelude.{
  ℕ, zero, suc, String, Bool, true, false, not, ◌&&◌, Option, none, some, List, [], ◌∷◌, ◌++◌,
  if◌then◌else◌, ◌==◌, Eq_nat, Eq_string, elem, insert, Result, ok, err, ◌>>=◌,
}
use mini_internet_extention.Dict.{Dict, lookup, put}
use mini_internet_extention.Matrix.Connectivity.{Error, key_error, out_of_fuel, AsData}

pub record Node : Type 0 where
  pub asn : ℕ
  pub type : String
  pub customers_direct : List ℕ
  pub peers_direct : List ℕ
  pub providers_direct : List ℕ
  pub customers : List ℕ
  pub peers : List ℕ
  pub providers : List ℕ

abbrev pub new_node : ℕ → String → Node
new_node asn type = record {
  asn = asn;
  type = type;
  customers_direct = [];
  peers_direct = [];
  providers_direct = [];
  customers = [];
  peers = [];
  providers = [];
}

-- `while len(cur_customers) > 0`: a queue, with nothing to say what was seen before. `none` means
-- that the fuel ran out.
unfoldable pub queue_loop : (ℕ → List ℕ) → ℕ → List ℕ → List ℕ → Option (List ℕ)
queue_loop next fuel found [] = some found
queue_loop next zero found (x ∷ queue) = none
queue_loop next (suc fuel) found (x ∷ queue) =
    queue_loop next fuel (insert x found) (queue ++ next x)

abbrev or_out_of_fuel : Option (List ℕ) → Result Error (List ℕ)
or_out_of_fuel none = err out_of_fuel
or_out_of_fuel (some r) = ok r

-- `c.customers_direct` of the object with that number
abbrev pub direct_customers : Dict Node → ℕ → List ℕ
direct_customers dic_as n = elim (lookup n dic_as) [ none ↦ [] | some a ↦ a.customers_direct ]

abbrev pub direct_providers : Dict Node → ℕ → List ℕ
direct_providers dic_as n = elim (lookup n dic_as) [ none ↦ [] | some a ↦ a.providers_direct ]

unfoldable pub compute_customers_rec : ℕ → Dict Node → Node → Result Error Node
compute_customers_rec fuel dic_as a =
    or_out_of_fuel (queue_loop (direct_customers dic_as) fuel a.customers a.customers_direct)
    >>= λ found. ok (record a { customers = found })

unfoldable pub compute_providers_rec : ℕ → Dict Node → Node → Result Error Node
compute_providers_rec fuel dic_as a =
    or_out_of_fuel (queue_loop (direct_providers dic_as) fuel a.providers a.providers_direct)
    >>= λ found. ok (record a { providers = found })

-- `for participant in peer.peers_direct`
pub add_participants : Node → List ℕ → List ℕ → List ℕ
add_participants a [] peers = peers
add_participants a (p ∷ ps) peers = add_participants a ps (
    if not (elem p a.providers) && not (elem p a.customers) && not (p == a.asn)
    then insert p peers
    else peers)

pub add_peer : Node → Node → List ℕ → List ℕ
add_peer a peer peers =
    if peer.type == "IXP"
    then add_participants a peer.peers_direct peers
    else if peer.type == "AS"
    then insert peer.asn peers
    else peers

pub add_peers : Dict Node → Node → List ℕ → List ℕ → List ℕ
add_peers dic_as a [] peers = peers
add_peers dic_as a (p ∷ ps) peers =
    add_peers dic_as a ps (elim (lookup p dic_as) [ none ↦ peers | some b ↦ add_peer a b peers ])

unfoldable pub compute_peers_rec : Dict Node → Node → Node
compute_peers_rec dic_as a = record a { peers = add_peers dic_as a a.peers_direct a.peers }
