-- ===== src/Portal/Connections.antt =====
-- `as_connections` of the project server: the public connections of the chosen groups.
pub mod Selected
pub mod Tests
use mini_internet_extention.Prelude.{
  ℕ, Bool, true, false, ◌&&◌, Option, none, some, List, [], ◌∷◌, if◌then◌else◌, ◌==◌, Eq_nat, map,
  distinct, ◌++◌,
}

-- `group is None or data['asn'] == group`
abbrev pub fits : Option ℕ → ℕ → Bool
fits none asn = true
fits (some g) asn = asn == g

-- A connection's two sides: the number of the AS, and what else the page shows of it.
abbrev pub SideOf : Type 0 → Type 0
SideOf A = ℕ × A

module _ {A : Type 0} (group othergroup : Option ℕ) where
  abbrev pub check_as : SideOf A → SideOf A → Bool
  check_as data_a data_b = fits group data_a.0 && fits othergroup data_b.0

  pub selected_connections : List (SideOf A × SideOf A) → List (SideOf A × SideOf A)
  selected_connections [] = []
  selected_connections ((a, b) ∷ rest) =
      if check_as a b
      then (a, b) ∷ selected_connections rest
      else if check_as b a
      then (b, a) ∷ selected_connections rest
      else selected_connections rest

  -- `{c[0]["asn"] for c in connections}.union({c[1]["asn"] for c in connections})`
  pub all_ases : List (SideOf A × SideOf A) → List ℕ
  all_ases connections = distinct (map (λ c. c.0.0) connections ++ map (λ c. c.1.0) connections)

  -- `{conn[1]['asn'] for conn in selected_connections}`
  pub dropdown_others : List (SideOf A × SideOf A) → List ℕ
  dropdown_others connections = distinct (map (λ c. c.1.0) (selected_connections connections))
