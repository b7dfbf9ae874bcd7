-- ===== src/Matrix/Checker/Tests.antt =====
-- 1 is a customer of 2, and 2 a peer of 3.
use mini_internet_extention.Prelude.{
  ℕ, ◌≡◌, refl, ◌↔◌, Bool, false, none, some, List, [], ◌∷◌, ok, err,
}
use mini_internet_extention.Dict.{Dict}
use mini_internet_extention.Matrix.Connectivity.{unbound_local_error}
use mini_internet_extention.Matrix.Node.{Node}
use mini_internet_extention.Matrix.Checker.{up, flat, node_of, kind, path_checker}
use mini_internet_extention.Matrix.Checker.ValleyFree.{kinds, IsValley, path_checker-IsValley, fall}
use mini_internet_extention.Matrix.Checker.Stranger.{ClimbsNext, path_checker_unknown_first}

abbrev node : ℕ → List ℕ → List ℕ → Node
node asn providers peers = record {
  asn = asn;
  type = "AS";
  customers_direct = [];
  peers_direct = peers;
  providers_direct = providers;
  customers = [];
  peers = peers;
  providers = providers;
}

abbrev one : Node
one = node 1 (2 ∷ []) []

abbrev two : Node
two = node 2 [] (3 ∷ [])

abbrev nodes : Dict Node
nodes = (1, one) ∷ (2, two) ∷ (3, node 3 [] (2 ∷ [])) ∷ []

kinds_123 : kinds nodes (1 ∷ 2 ∷ 3 ∷ []) ≡ ok (some up ∷ some flat ∷ [])
unfolding kinds kind node_of
kinds_123 = refl

path_checker-IsValley_example :
    (wrong : Bool) × (path_checker nodes (1 ∷ 2 ∷ 3 ∷ []) ≡ ok wrong)
    × ((wrong ≡ false) ↔ IsValley (some up ∷ some flat ∷ []))
path_checker-IsValley_example =
    path_checker-IsValley nodes (1 ∷ 2 ∷ 3 ∷ []) up (some flat ∷ []) kinds_123

-- From the provider to its customer, which it does not know, and back.
stranger_first : kinds nodes (2 ∷ 1 ∷ 2 ∷ []) ≡ ok (none ∷ some up ∷ [])
unfolding kinds node_of kind
stranger_first = refl

path_checker_unknown_first_example :
    ((path_checker nodes (2 ∷ 1 ∷ 2 ∷ []) ≡ err unbound_local_error) ↔ ClimbsNext (some up ∷ []))
    × ((path_checker nodes (2 ∷ 1 ∷ 2 ∷ []) ≡ ok false) ↔ ((b : ℕ) × (some up ∷ [] ≡ fall b)))
path_checker_unknown_first_example =
    path_checker_unknown_first nodes (2 ∷ 1 ∷ 2 ∷ []) (some up ∷ []) stranger_first
