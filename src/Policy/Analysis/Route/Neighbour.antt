-- ===== src/Policy/Analysis/Route/Neighbour.antt =====
-- What the check of a route logs for a single AS is for the neighbour that announced it.
use mini_internet_extention.Prelude.{
  is_empty, true, ℕ, suc, ◌<◌, ◌≡◌, refl, ◌⊎◌, inl, inr, false, Option, none, List, [], ◌∷◌, ◌++◌,
  if◌then◌else◌, ◌==◌, Eq_nat, Eq_text, Text, str, int, split, ltb, ok, Result-cases, Bool-cases,
  arith,
}
use mini_internet_extention.Policy.Config.{Config}
use mini_internet_extention.Policy.Relations.{Relationship, get_relationship}
use mini_internet_extention.Policy.AsPath.{space, normalize_as_path}
use mini_internet_extention.Policy.LookingGlass.{Row}
use mini_internet_extention.Policy.Collect.{Has, Has-append_cases}
use mini_internet_extention.Policy.Log.{
  internal_route, Level, error, as_path, simple, Entry, log, log_nr, no_known_link,
  should_not_export, bad_route,
}
use mini_internet_extention.Policy.Analysis.Route.{
  Walk, next_state, complains, complaint, level_at, walk, first_label, leaked_prefix, check_hops,
  check_row,
}

-- An entry of the walk is for the log of an AS only if it is the complaint to the second hop.
abbrev pub ToSecondHop : Walk → Entry → Type 0
ToSecondHop w e =
    (link : Relationship) × (e
      ≡ log_nr (simple error) (int w.tested_as) (should_not_export w.prefix w.from_as link))

module _ (c : Config) (w : Walk) where
  complaint-cases :
      (nlinks : ℕ) (level : Level) (link : Relationship) (f t : Text) (e : Entry)
      → (nlinks < 2 → level ≡ error)
      → Has e (complaint w nlinks level link f t)
      → (e.asnr ≡ none) ⊎ ToSecondHop w e
  unfolding complaint
  complaint-cases nlinks level link f t e keep h = elim (Bool-cases (ltb nlinks 2)) [
    | inr late ↦ inl (only (rw late at h))
    | inl early ↦ early_cases (rw early at h) (keep (ground arith))
  ]
    where
      only : Has e (log level (bad_route w.number w.prefix w.path link f t) ∷ []) → e.asnr ≡ none
      only (inl same) = rw same refl
      only (inr no_more) = absurd no_more

      early_cases :
          Has e (
            log_nr (simple level) (int w.tested_as) (should_not_export w.prefix w.from_as link)
            ∷ log level (bad_route w.number w.prefix w.path link f t)
            ∷ [])
          → level ≡ error
          → (e.asnr ≡ none) ⊎ ToSecondHop w e
      early_cases (inl same) lv = inr (link, ground (arith, same, lv))
      early_cases (inr m) lv = inl (only m)

  walk-cases :
      (state : Option Relationship) (nlinks : ℕ) (level : Level) (hops : List Text)
      (out : List Entry) (e : Entry)
      → (nlinks < 2 → level ≡ error)
      → walk c w state nlinks level hops ≡ ok out
      → Has e out
      → (e.asnr ≡ none) ⊎ ToSecondHop w e
  unfolding walk
  walk-cases state nlinks level [] out e keep k h =
      let empty : out ≡ [] = ground arith in absurd (rw empty at h)
  walk-cases state nlinks level (f ∷ []) out e keep k h =
      let empty : out ≡ [] = ground arith in absurd (rw empty at h)
  walk-cases state nlinks level (f ∷ t ∷ rest) out e keep k h = elim (Bool-cases (f == t)) [
    | inl same ↦ absurd (ground (arith, same))
    | inr apart ↦ elim (Result-cases (get_relationship c (int f) (int t))) [
      | inr (x, bad) ↦
          let one : out ≡ log as_path (no_known_link w.prefix w.path f t) ∷ [] =
            ground (arith, bad, apart) in
          inl (only (rw one at h))
      | inl (link, good) ↦
          elim (Result-cases
            (walk c w (next_state state link) (suc nlinks) (level_at nlinks level) (t ∷ rest))) [
              | inr (x, bad) ↦ absurd (ground (arith, good, apart, bad))
              | inl (more, goes) ↦
                  let whole : out
                      ≡ (if complains state link
                          then complaint w nlinks (level_at nlinks level) link f t
                          else [])
                        ++ more =
                    ground (arith, good, apart, goes) in
                  elim (Has-append_cases e _ more (rw whole at h)) [
                    | inl here ↦ now link here
                    | inr later ↦
                        walk-cases (next_state state link) (suc nlinks) (level_at nlinks level)
                          (t ∷ rest) more e (λ lt. ground (arith, keep (omega arith))) goes later
                  ]
            ]
    ]
  ]
    where
      only : Has e (log as_path (no_known_link w.prefix w.path f t) ∷ []) → e.asnr ≡ none
      only (inl same) = rw same refl
      only (inr no_more) = absurd no_more

      now :
          (link : Relationship)
          → Has e (
              if complains state link
              then complaint w nlinks (level_at nlinks level) link f t
              else [])
          → (e.asnr ≡ none) ⊎ ToSecondHop w e
      now link m = elim (Bool-cases (complains state link)) [
        | inl loud ↦
            complaint-cases nlinks (level_at nlinks level) link f t e
              (λ lt. ground (arith, keep lt)) (rw loud at m)
        | inr quiet ↦ absurd (rw quiet at m)
      ]

walk-second_hop :
    (c : Config) (w : Walk) (hops : List Text) (out : List Entry) (e : Entry)
    → walk c w none 0 error hops ≡ ok out
    → Has e out
    → (e.asnr ≡ none) ⊎ ToSecondHop w e
walk-second_hop c w hops out e k h = walk-cases c w none 0 error hops out e (λ lt. refl) k h

-- The complaint to the second of the hops that the first, which is the AS itself, got the route
-- from it.
abbrev pub ToNeighbour : Text → List Text → Entry → Type 0
ToNeighbour prefix (own ∷ neighbour ∷ rest) e =
    (link : Relationship) × (e
      ≡ log_nr (simple error) (int neighbour) (should_not_export prefix own link))
ToNeighbour prefix hops e = ⊥

to_nobody :
    (x e : Entry) (out : List Entry) → x.asnr ≡ none → out ≡ x ∷ [] → Has e out → e.asnr ≡ none
to_nobody x e out none_told one h = elim (rw one at h) [
  | inl same ↦ ground (arith, same, none_told)
  | inr no_more ↦ absurd no_more
]

leaked_prefix-nobody : (number : ℕ) (prefix : Text) → (leaked_prefix number prefix).asnr ≡ none
unfolding leaked_prefix
leaked_prefix-nobody number prefix = ground arith

check_hops-neighbour :
    (c : Config) (number : ℕ) (prefix path : Text) (hops : List Text) (out : List Entry) (e : Entry)
    → check_hops c number prefix path hops ≡ ok out
    → Has e out
    → (e.asnr ≡ none) ⊎ ToNeighbour prefix hops e
unfolding check_hops
check_hops-neighbour c number prefix path [] out e k h = inl (
    to_nobody (leaked_prefix number prefix) e out (leaked_prefix-nobody number prefix)
      (ground arith) h)
check_hops-neighbour c number prefix path (f ∷ []) out e k h = inl (
    to_nobody (leaked_prefix number prefix) e out (leaked_prefix-nobody number prefix)
      (ground arith) h)
check_hops-neighbour c number prefix path (f ∷ t ∷ rest) out e k h =
    walk-second_hop c
      (record { number = number; prefix = prefix; path = path; from_as = f; tested_as = t })
      (f ∷ t ∷ rest) out e k h

-- If the check of a route returns, whatever it logs for a single AS is the complaint of level
-- ERROR-SIMPLE to the second hop of the normalized path, which starts with the AS itself, that it
-- should not export the prefix to the first.
pub check_row-neighbour :
    (c : Config) (number : ℕ) (r : Row) (out : List Entry) (e : Entry)
    → check_row c number r ≡ ok out
    → Has e out
    → (e.asnr ≡ none)
      ⊎ ((npath : Text) × (normalize_as_path (str number ++ space ∷ r.path) ≡ ok npath)
          × ToNeighbour r.prefix (split space npath) e)
unfolding check_row
check_row-neighbour c number r out e k h =
    elim (Bool-cases (str number == first_label b'.' r.prefix)) [
      | inl own ↦ inl (internal (Bool-cases (is_empty r.path)) (ground (arith, own)))
      | inr other ↦ elim (Result-cases (normalize_as_path (str number ++ space ∷ r.path))) [
        | inr (x, bad) ↦ absurd (ground (arith, other, bad))
        | inl (npath, good) ↦
            elim (check_hops-neighbour c number r.prefix r.path (split space npath) out e
              (ground (arith, other, good)) h) [
                | inl nobody ↦ inl nobody
                | inr told ↦ inr (npath, good, told)
              ]
      ]
    ]
  where
    internal :
        ((is_empty r.path ≡ true) ⊎ (is_empty r.path ≡ false))
        → (if is_empty r.path then [] else log error (internal_route number r.prefix r.path) ∷ [])
          ≡ out
        → e.asnr ≡ none
    internal (inl empty) same =
        let nothing : out ≡ [] = ground (arith, empty) in absurd (rw nothing at h)
    internal (inr path) same =
        to_nobody (log error (internal_route number r.prefix r.path)) e out refl
          (ground (arith, path)) h
