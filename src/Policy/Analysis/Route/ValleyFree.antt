-- ===== src/Policy/Analysis/Route/ValleyFree.antt =====
-- The walk along an AS path logs nothing exactly on the valley-free paths.
use mini_internet_extention.Prelude.{
  ℕ, zero, suc, ◌≡◌, refl, ◌↔◌, inl, inr, Bool, true, false, not, ◌&&◌, Option, none, some, List,
  [], ◌∷◌, ◌++◌, if◌then◌else◌, ◌==◌, Eq_nat, Eq_text, text_eq_iff, Text, str, int, split, Result,
  ok, ◌>>=◌, Result-cases, Bool-cases, arith,
}
use mini_internet_extention.Policy.Config.{Error, Config}
use mini_internet_extention.Policy.Config.WellFormed.{IsWellFormed}
use mini_internet_extention.Policy.Relations.{
  Relationship, rel_eq_iff, Eq_rel, customer_provider, provider_customer, peer_peer,
  get_relationship,
}
use mini_internet_extention.Policy.Relations.Known.{is_known, get_relationship-known}
use mini_internet_extention.Policy.AsPath.{space, normalize_as_path}
use mini_internet_extention.Policy.AsPath.Normal.{IsNormal, normalize_as_path-IsNormal}
use mini_internet_extention.Policy.LookingGlass.{Row}
use mini_internet_extention.Policy.Log.{Level, error, Entry}
use mini_internet_extention.Policy.Analysis.Route.{
  Walk, next_state, complains, complaint, level_at, walk, first_label, check_hops, check_row,
}

-- The relationships along the hops.
unfoldable pub path_links : Config → List Text → Result Error (List Relationship)
path_links c [] = ok []
path_links c (f ∷ []) = ok []
path_links c (f ∷ t ∷ rest) = get_relationship c (int f) (int t) >>= λ link.
    path_links c (t ∷ rest) >>= λ more. ok (link ∷ more)

-- `a` links up, then perhaps one link across, then `b` links down.
abbrev pub down : ℕ → List Relationship
down zero = []
down (suc b) = provider_customer ∷ down b

abbrev pub up_across_down : ℕ → Bool → ℕ → List Relationship
up_across_down zero true b = peer_peer ∷ down b
up_across_down zero false b = down b
up_across_down (suc a) peak b = customer_provider ∷ up_across_down a peak b

abbrev pub IsValleyFree : List Relationship → Type 0
IsValleyFree ls = (a : ℕ) × (peak : Bool) × (b : ℕ) × (ls ≡ up_across_down a peak b)

abbrev AllKnown : List Relationship → Type 0
AllKnown [] = Unit
AllKnown (r ∷ rs) = (is_known r ≡ true) × AllKnown rs

abbrev silent : Option Relationship → List Relationship → Bool
silent state [] = true
silent state (l ∷ ls) = not (complains state l) && silent (next_state state l) ls

silent-down :
    (s : Relationship) (b : ℕ) → (s == customer_provider) ≡ false → silent (some s) (down b) ≡ true
unfolding complains next_state
silent-down s zero h = refl
silent-down s (suc b) h = ground (arith, silent-down s b h)

silent-climb :
    (a : ℕ) (peak : Bool) (b : ℕ) → silent (some customer_provider) (up_across_down a peak b) ≡ true
unfolding complains next_state
silent-climb zero true b = silent-down peer_peer b refl
silent-climb zero false zero = refl
silent-climb zero false (suc b) = silent-down provider_customer b refl
silent-climb (suc a) peak b = silent-climb a peak b

down-silent :
    (s : Relationship) (ls : List Relationship)
    → (s == customer_provider) ≡ false
    → is_known s ≡ true
    → silent (some s) ls ≡ true
    → (b : ℕ) × (ls ≡ down b)
unfolding complains next_state
down-silent s [] h k e = (0, refl)
down-silent s (l ∷ ls) h k e =
    let (b, same) = down-silent s ls h k (ground arith) in
    (suc b, ground (arith, same, rel_eq_iff l provider_customer))

climb-silent :
    (ls : List Relationship)
    → AllKnown ls
    → silent (some customer_provider) ls ≡ true
    → IsValleyFree ls
unfolding complains next_state
climb-silent [] k e = (0, false, 0, refl)
climb-silent (l ∷ ls) k e = elim (Bool-cases (l == customer_provider)) [
  | inl up ↦
      let (a, peak, b, same) =
        climb-silent ls k.1 (ground (arith, rel_eq_iff l customer_provider)) in
      (suc a, peak, b, ground (arith, same, rel_eq_iff l customer_provider))
  | inr over ↦
      let (b, same) = down-silent l ls over k.0 (ground arith) in
      elim (Bool-cases (l == peer_peer)) [
        | inl across ↦ (0, true, b, ground (arith, same, rel_eq_iff l peer_peer))
        | inr fall ↦ (0, false, suc b, ground (arith, same))
      ]
]

-- From START the first link is taken as it is, as after a link up.
silent-start : (ls : List Relationship) → silent none ls ≡ silent (some customer_provider) ls
unfolding complains next_state
silent-start [] = refl
silent-start (l ∷ ls) = refl

module _ (c : Config) (w : Walk) where
  walk-silent :
      (state : Option Relationship) (before : Option Text) (nlinks : ℕ) (level : Level)
      (hops : List Text) (ls : List Relationship)
      → IsNormal before hops
      → path_links c hops ≡ ok ls
      → (out : List Entry) × (walk c w state nlinks level hops ≡ ok out)
        × ((out ≡ []) ↔ (silent state ls ≡ true))
  unfolding walk path_links complaint
  walk-silent state before nlinks level [] ls n h = ([], refl, ground arith)
  walk-silent state before nlinks level (f ∷ []) ls n h = ([], refl, ground arith)
  walk-silent state before nlinks level (f ∷ t ∷ rest) ls n h =
      elim (Result-cases (get_relationship c (int f) (int t))) [
        | inr (x, bad) ↦ absurd (ground (arith, bad))
        | inl (link, good) ↦ elim (Result-cases (path_links c (t ∷ rest))) [
          | inr (x, bad) ↦ absurd (ground (arith, good, bad))
          | inl (more, goes) ↦
              let (out, ends, same) =
                walk-silent (next_state state link) (some f) (suc nlinks) (level_at nlinks level)
                  (t ∷ rest) more n.2 goes in
              let apart : (f == t) ≡ false =
                ground (arith, text_eq_iff f t, text_eq_iff t f, n.2.1) in
              let whole : ls ≡ link ∷ more = ground (arith, good, goes) in
              (
                (if complains state link
                      then complaint w nlinks (level_at nlinks level) link f t
                      else [])
                    ++ out,
                rw (apart, good, ends) refl,
                rw whole (ground (arith, same)),
              )
        ]
      ]

-- Along the hops of a path that the configuration knows, all relationships are known ones.
path_links-AllKnown :
    (c : Config) (hops : List Text) (ls : List Relationship)
    → IsWellFormed c
    → path_links c hops ≡ ok ls
    → AllKnown ls
unfolding path_links
path_links-AllKnown c [] ls w h = let e : ls ≡ [] = ground arith in rw e tt
path_links-AllKnown c (f ∷ []) ls w h = let e : ls ≡ [] = ground arith in rw e tt
path_links-AllKnown c (f ∷ t ∷ rest) ls w h =
    elim (Result-cases (get_relationship c (int f) (int t))) [
      | inr (x, bad) ↦ absurd (ground (arith, bad))
      | inl (link, good) ↦ elim (Result-cases (path_links c (t ∷ rest))) [
        | inr (x, bad) ↦ absurd (ground (arith, good, bad))
        | inl (more, goes) ↦
            let whole : ls ≡ link ∷ more = ground (arith, good, goes) in
            rw whole (
              ground (arith, get_relationship-known c (int f) (int t) link w good),
              path_links-AllKnown c (t ∷ rest) more w goes,
            )
      ]
    ]

-- For a route to another AS whose path, with the own number in front, normalizes to two or more
-- hops that are all linked in a well-formed configuration, the check returns, and logs nothing
-- exactly if the relationships along the hops are some links up, at most one across, and some
-- down.
pub check_row-IsValleyFree :
    (c : Config) (number : ℕ) (r : Row) (npath f t : Text) (rest : List Text)
    (ls : List Relationship)
    → IsWellFormed c
    → (str number == first_label b'.' r.prefix) ≡ false
    → normalize_as_path (str number ++ space ∷ r.path) ≡ ok npath
    → split space npath ≡ f ∷ t ∷ rest
    → path_links c (f ∷ t ∷ rest) ≡ ok ls
    → (out : List Entry) × (check_row c number r ≡ ok out) × ((out ≡ []) ↔ IsValleyFree ls)
unfolding check_row check_hops
check_row-IsValleyFree c number r npath f t rest ls w other norm hops links =
    let (out, ends, same) =
      walk-silent c
        (record { number = number; prefix = r.prefix; path = r.path; from_as = f; tested_as = t })
        none none 0 error (f ∷ t ∷ rest) ls (normal hops) links in
    (
      out,
      rw (other, norm, hops) ends,
      (
        λ e.
            climb-silent ls (path_links-AllKnown c (f ∷ t ∷ rest) ls w links)
              (rw (silent-start ls) at (same.0 e)),
        λ (a, peak, b, shape).
            same.1 (rw (shape, silent-start (up_across_down a peak b)) (silent-climb a peak b)),
      ),
    )
  where
    many_hops : (q : Text) → q ≡ [] → split space q ≡ f ∷ t ∷ rest → ⊥
    many_hops q z e = unfold split in ground (arith, z)

    normal : split space npath ≡ f ∷ t ∷ rest → IsNormal none (f ∷ t ∷ rest)
    normal e = rw e at (
        (normalize_as_path-IsNormal (str number ++ space ∷ r.path) npath norm
          (λ none_left. many_hops npath none_left e)).0)
