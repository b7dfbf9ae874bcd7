-- ===== src/Files/Json/Safe.antt =====
-- Reading a JSON file ends with the first contents that are JSON.
use mini_internet_extention.Prelude.{
  ℕ, zero, suc, ◌+◌, ◌≡◌, Option, none, some, arith, Text, Eq_nat, ok,
}
use mini_internet_extention.Files.Json.{attempts, read_json_safe}

module _ {J : Type 0} (load : Text → Option J) (no_bgp : J) (file : ℕ → Text) where
  -- The value of the first contents that are JSON, in `left` attempts from `current` on.
  abbrev pub first_json : ℕ → ℕ → J
  first_json current zero = no_bgp
  first_json current (suc left) = elim (load (file current)) [
    | some value ↦ value
    | none ↦ first_json (suc current) left
  ]

  attempts-first_json :
      (max_attempts current left : ℕ)
      → current + left ≡ max_attempts
      → attempts load no_bgp (λ i. some (file i)) max_attempts current (suc left)
        ≡ ok (some (first_json current (suc left)))
  unfolding attempts
  attempts-first_json max_attempts current zero h = ground arith
  attempts-first_json max_attempts current (suc left) h =
      ground (arith, attempts-first_json max_attempts (suc current) left)

  -- A JSON file that exists is read in at most as many attempts as are allowed, if at least one
  -- is: the result is the first contents that are JSON, or those of a router without BGP if there
  -- are none.
  pub read_json_safe-first_json :
      (more : ℕ)
      → read_json_safe load no_bgp (λ i. some (file i)) (suc more)
        ≡ ok (some (first_json 1 (suc more)))
  unfolding read_json_safe
  read_json_safe-first_json more = attempts-first_json (suc more) 1 more (omega arith)
