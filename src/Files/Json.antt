-- ===== src/Files/Json.antt =====
-- `_read_json_safe`, and the directories of the looking glass files. The module json is a
-- parameter: `load` gives the value of a text, or nothing where it raises a JSONDecodeError.
pub mod Safe
pub mod Tests
use mini_internet_extention.Prelude.{
  ℕ, zero, suc, ◌+◌, String, Bool, true, false, not, ◌||◌, Option, none, some, List, [], ◌∷◌,
  filter, if◌then◌else◌, ◌==◌, Eq_nat, Text, starts_with, to_string, is_empty, Result, ok, err,
  ◌>>=◌,
}
use mini_internet_extention.Dict.{Dict, put}
use mini_internet_extention.Files.Clean.{Error, file_not_found, parse_int}

module _ {J : Type 0} (load : Text → Option J) (no_bgp : J) where
  -- The attempts from `current` on; at each the file has other contents, or is missing.
  attempts : (ℕ → Option Text) → ℕ → ℕ → ℕ → Result Error (Option J)
  attempts file max_attempts current zero = ok none
  attempts file max_attempts current (suc left) =
      let again = attempts file max_attempts (suc current) left in
      elim (file current) [
        | none ↦ err file_not_found
        | some text ↦ elim (load text) [
          | some value ↦ ok (some value)
          | none ↦ if current == max_attempts then ok (some no_bgp) else again
        ]
      ]

  -- The last attempt returns the JSON of a router without BGP.
  unfoldable pub read_json_safe : (ℕ → Option Text) → ℕ → Result Error (Option J)
  unfolding attempts
  read_json_safe file max_attempts = attempts file max_attempts 1 max_attempts

-- An entry of a directory, with what it holds if it is a directory itself.
pub record Entry (A : Type 0) : Type 0 where
  pub name : Text
  pub is_dir : Bool
  pub content : A

module _ {A V : Type 0} (value : A → Result Error (Option V)) where
  -- `for routerdir in groupdir.iterdir()`, where `value` tells of the file, if it is there.
  router_loop : List (Entry A) → Result Error (List (String × V))
  router_loop [] = ok []
  router_loop (r ∷ rest) =
      let others = router_loop rest in
      if not r.is_dir
      then others
      else (value r.content >>= λ found. others >>= λ more.
          ok (elim found [ none ↦ more | some v ↦ (to_string r.name, v) ∷ more ]))

  -- `int(groupdir.name.replace('g', ''))`
  abbrev group_number : Text → Result Error ℕ
  group_number name = parse_int (filter (λ c. not (c == b'g')) name)

  group_loop :
      List (Entry (List (Entry A)))
      → Dict (List (String × V))
      → Result Error (Dict (List (String × V)))
  unfolding router_loop put
  group_loop [] results = ok results
  group_loop (g ∷ rest) results =
      if not g.is_dir || not (starts_with g.name (b'g' ∷ [])) then group_loop rest results else (do
        group ← group_number g.name
        groupresults ← router_loop g.content
        group_loop rest (if is_empty groupresults then results else put group groupresults results))

-- The paths of the files that exist; a router's content is its file's path, if there is one.
unfoldable pub find_looking_glass_textfiles :
    List (Entry (List (Entry (Option Text)))) → Result Error (Dict (List (String × Text)))
unfolding group_loop
find_looking_glass_textfiles directory = group_loop (λ path. ok path) directory []

-- A router's content is its JSON file, as its contents at each attempt to read it.
unfoldable pub parse_looking_glass_json :
    {J : Type 0}
    → (Text → Option J)
    → J
    → List (Entry (List (Entry (Option (ℕ → Option Text)))))
    → Result Error (Dict (List (String × Option J)))
unfolding group_loop read_json_safe
parse_looking_glass_json load no_bgp directory =
    group_loop
      (λ file. elim file [
        | none ↦ ok none
        | some contents ↦ read_json_safe load no_bgp contents 200 >>= λ value. ok (some value)
      ])
      directory []
