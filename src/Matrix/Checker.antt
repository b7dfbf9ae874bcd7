-- ===== src/Matrix/Checker.antt =====
-- `path_checker`: the walk along one path, over the recursive sets.
pub mod ValleyFree
pub mod Stranger
pub mod Tests
use mini_internet_extention.Prelude.{
  ℕ, Bool, true, false, ◌||◌, Option, none, some, List, [], ◌∷◌, if◌then◌else◌, Eq_nat, elem,
  Result, ok, err, ◌>>=◌,
}
use mini_internet_extention.Dict.{Dict, lookup}
use mini_internet_extention.Matrix.Connectivity.{Error, key_error, unbound_local_error}
use mini_internet_extention.Matrix.Node.{Node}

-- `none` stands for the variable before its first assignment; to read it then is an
-- UnboundLocalError.
pub data Status : Type 0 where
  up down flat : Status

-- `dic_as[n]`
unfoldable pub node_of : Dict Node → ℕ → Result Error Node
node_of dic_as n = elim (lookup n dic_as) [ none ↦ err key_error | some a ↦ ok a ]

-- Which of the sets of `a` holds the next hop, in the order of the tests.
pub kind : Node → ℕ → Option Status
kind a n =
    if elem n a.providers
    then some up
    else if elem n a.customers
    then some down
    else if elem n a.peers
    then some flat
    else none

-- The outcome of one hop: the new status, or `none` for `wrong = True; break`.
pub hop : Option Status → Option Status → Result Error (Option Status)
hop status none = ok none
hop status (some down) = ok (some down)
hop none (some k) = err unbound_local_error
hop (some up) (some k) = ok (some k)
hop (some down) (some k) = ok none
hop (some flat) (some k) = ok none

-- `for i in range(1, len(aspath)-1)`, from `aspath[i]` on
pub check_from : Dict Node → Option Status → List ℕ → Result Error Bool
check_from dic_as status [] = ok false
check_from dic_as status (x ∷ []) = ok false
check_from dic_as status (x ∷ y ∷ rest) = node_of dic_as x >>= λ a.
    hop status (kind a y) >>= λ next. elim next [
      | none ↦ ok true
      | some s ↦ check_from dic_as (some s) (y ∷ rest)
    ]

-- True means that the path is wrong.
unfoldable pub path_checker : Dict Node → List ℕ → Result Error Bool
unfolding kind hop check_from
path_checker dic_as [] = ok false
path_checker dic_as (x ∷ []) = ok false
path_checker dic_as (x ∷ y ∷ rest) =
    node_of dic_as x >>= λ a. check_from dic_as (kind a y) (y ∷ rest)
