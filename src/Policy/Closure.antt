-- ===== src/Policy/Closure.antt =====
-- The loop of `recursive_customers` and `recursive_providers`, over any function from an AS to its
-- neighbours, and the worklist of `get_as_group`.
pub mod Correct
use mini_internet_extention.Prelude.{
  ℕ, zero, suc, Option, none, some, List, [], ◌∷◌, ◌++◌, if◌then◌else◌, Eq_nat, elem, insert,
  update, is_empty, Bool, ◌||◌,
}

module _ (next : ℕ → List ℕ) where
  -- `for customer in todo`: the pair is (done, new).
  pub round : List ℕ → List ℕ → List ℕ → List ℕ × List ℕ
  round done new [] = (done, new)
  round done new (x ∷ todo) =
      round (insert x done) (if elem x done then new else update new (next x)) todo

  -- `while True`; `none` means that the fuel ran out.
  pub loop : ℕ → List ℕ → List ℕ → List ℕ → Option (List ℕ)
  loop zero cs done todo = none
  loop (suc fuel) cs done todo =
      let r = round done [] todo in
      let again = loop fuel (update cs r.1) r.0 r.1 in if is_empty r.1 then some cs else again

  unfoldable pub closure : ℕ → ℕ → Option (List ℕ)
  unfolding loop round
  closure fuel nr = if is_empty (next nr) then some [] else loop fuel (next nr) [] (next nr)
