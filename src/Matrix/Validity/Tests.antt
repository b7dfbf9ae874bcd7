-- ===== src/Matrix/Validity/Tests.antt =====
-- Two paths to one destination, of which the second is wrong.
use mini_internet_extention.Prelude.{
  ℕ, ◌≡◌, refl, ◌↔◌, true, false, List, [], ◌∷◌, Text, codes, ok, split, int,
}
use mini_internet_extention.Dict.{Dict}
use mini_internet_extention.Policy.Collect.{Has}
use mini_internet_extention.Matrix.Node.{Node}
use mini_internet_extention.Matrix.Checker.{node_of, path_checker}
use mini_internet_extention.Matrix.Validity.{path_numbers, ints, check_paths}
use mini_internet_extention.Matrix.Validity.Flags.{IsRight, check_paths_correct}

abbrev node : ℕ → List ℕ → List ℕ → Node
node asn providers peers = record {
  asn = asn;
  type = "AS";
  customers_direct = [];
  peers_direct = peers;
  providers_direct = providers;
  customers = [];
  peers = peers;
  providers = providers;
}

abbrev nodes : Dict Node
nodes = (1, node 1 (2 ∷ []) (2 ∷ [])) ∷ (2, node 2 [] (3 ∷ [])) ∷ (3, node 3 (2 ∷ []) []) ∷ []

abbrev paths : List Text
paths = codes "1 2 3" ∷ codes "2 3 2" ∷ []

one_wrong : check_paths nodes true paths ≡ ok false
unfolding check_paths path_numbers ints path_checker node_of split int
one_wrong = refl

check_paths_correct_example :
    (false ≡ true) ↔ ((true ≡ true) × ((path : Text) → Has path paths → IsRight nodes path))
check_paths_correct_example = check_paths_correct nodes true false paths one_wrong
