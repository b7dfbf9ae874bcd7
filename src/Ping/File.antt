-- ===== src/Ping/File.antt =====
-- The web server reads from connectivity.txt what ping.py wrote, and its page shows it.
use mini_internet_extention.Prelude.{
  ℕ, ◌≤◌, ◌≡◌, refl, sym, ap, ◌∙◌, Bool, true, false, ◌&&◌, some, List, [], ◌∷◌, ◌++◌, map, all,
  all-map, any, any-append, map-append, arith, Bool-cases, inl, inr, Text, elem, In, Eq_nat, ◌==◌,
  nat_eq_iff, if◌then◌else◌, ok,
}
use mini_internet_extention.Dict.{Dict}
use mini_internet_extention.Files.Clean.{is_space, each_row, each_row-map}
use mini_internet_extention.Files.Clean.Written.{is_row, written, rows-written}
use mini_internet_extention.Files.Clean.Numbers.{is_word-str, parse_int-str}
use mini_internet_extention.Files.Sort.{elem-sorted}
use mini_internet_extention.Files.Tables.{parse_measurement, parse_matrix_connectivity}
use mini_internet_extention.Matrix.Connectivity.{AsData, check_connectivity}
use mini_internet_extention.Matrix.Connectivity.Latest.{
  is_as_key, latest, cell, check_connectivity-latest, check_connectivity_returns,
}
use mini_internet_extention.Ping.Rounds.{IsSymmetric, rounds_correct}
use mini_internet_extention.Ping.{
  Matrix, rounds, sorted_keys, is_reached, pairs, connectivity_row, connectivity_rows,
}

elem-sorted_keys : (k : ℕ) (keys : List ℕ) → elem k (sorted_keys keys) ≡ elem k keys
unfolding sorted_keys
elem-sorted_keys k keys = elem-sorted (λ j. (j, 0)) k keys

-- An entry of the matrix, as the parser gives it.
abbrev pub entry : Matrix → ℕ × ℕ → ℕ × ℕ × Bool
entry co (f, t) = (f, t, co f t)

parse_measurement-row :
    (co : Matrix) (p : ℕ × ℕ)
    → parse_measurement (connectivity_row co p ++ [] ∷ []) ≡ ok (entry co p)
unfolding parse_measurement
parse_measurement-row co (f, t) = rw (parse_int-str f) (
    rw (parse_int-str t)
      (elim (Bool-cases (co f t)) [ inl reached ↦ rw reached refl | inr lost ↦ rw lost refl ]))

is_row-connectivity_row : (co : Matrix) (p : ℕ × ℕ) → is_row (connectivity_row co p) ≡ true
unfolding is_space
is_row-connectivity_row co (f, t) = elim (Bool-cases (co f t)) [
  | inl reached ↦ rw reached (ground (arith, is_word-str f, is_word-str t))
  | inr lost ↦ rw lost (ground (arith, is_word-str f, is_word-str t))
]

all_always : {A : Type 0} (p : A → Bool) (xs : List A) → ((a : A) → p a ≡ true) → all p xs ≡ true
all_always p [] h = refl
all_always p (x ∷ xs) h = ground (arith, h x, all_always p xs h)

map_twice :
    {A B C : Type 0} (f : A → B) (g : B → C) (xs : List A)
    → map g (map f xs) ≡ map (λ x. g (f x)) xs
map_twice f g [] = refl
map_twice f g (x ∷ xs) = ap (λ ys. g (f x) ∷ ys) (map_twice f g xs)

-- The parser of the web server reads the file of a matrix as its entries, pair by pair.
pub parse_matrix_connectivity-written :
    (keys : List ℕ) (co : Matrix)
    → parse_matrix_connectivity (written (connectivity_rows keys co))
      ≡ ok (map (entry co) (pairs keys keys))
unfolding parse_matrix_connectivity connectivity_rows
parse_matrix_connectivity-written keys co =
    let ps = pairs keys keys in
    ap (λ x. each_row parse_measurement x)
      (rows-written (map (connectivity_row co) ps) (
          all-map is_row (connectivity_row co) ps
          ∙ all_always (λ p. is_row (connectivity_row co p)) ps (is_row-connectivity_row co))
        ∙ map_twice (connectivity_row co) (λ row. row ++ [] ∷ []) ps)
    ∙ each_row-map parse_measurement (λ p. connectivity_row co p ++ [] ∷ []) (entry co)
        (parse_measurement-row co) ps

latest-row :
    (co : Matrix) (before : Bool) (x y f : ℕ) (ks : List ℕ) (rest : List (ℕ × ℕ))
    → latest before x y (map (entry co) (map (λ t. (f, t)) ks ++ rest))
      ≡ latest (if x == f && elem y ks then co x y else before) x y (map (entry co) rest)
latest-row co before x y f [] rest = ground arith
latest-row co before x y f (k ∷ ks) rest =
    latest-row co (if x == f && y == k then co f k else before) x y f ks rest
    ∙ ap (λ b. latest b x y (map (entry co) rest)) (ground (arith, nat_eq_iff x f, nat_eq_iff y k))

latest-pairs :
    (co : Matrix) (before : Bool) (x y : ℕ) (fs keys : List ℕ)
    → latest before x y (map (entry co) (pairs fs keys))
      ≡ (if elem x fs && elem y keys then co x y else before)
latest-pairs co before x y [] keys = refl
latest-pairs co before x y (f ∷ fs) keys =
    latest-row co before x y f keys (pairs fs keys)
    ∙ latest-pairs co (if x == f && elem y keys then co x y else before) x y fs keys
    ∙ ground arith

-- The entries of a row have its AS as their source.
source-row :
    (co : Matrix) (s f : ℕ) (ks : List ℕ)
    → any (λ r. s == r.0) (map (entry co) (map (λ t. (f, t)) ks)) ≡ true
    → s ≡ f
source-row co s f [] h = absurd (ground arith)
source-row co s f (k ∷ ks) h = ground (arith, source-row co s f ks, nat_eq_iff s f)

source-pairs :
    (co : Matrix) (s : ℕ) (fs keys : List ℕ)
    → any (λ r. s == r.0) (map (entry co) (pairs fs keys)) ≡ true
    → In s fs
source-pairs co s [] keys h = absurd (ground arith)
source-pairs co s (f ∷ fs) keys h =
    let row = map (λ t. (f, t)) keys in
    let parted =
      sym (any-append (λ r. s == r.0) (map (entry co) row) (map (entry co) (pairs fs keys)))
      ∙ ap (λ x. any (λ r. s == r.0) x) (sym (map-append (entry co) row (pairs fs keys)))
      ∙ h in
    ground (arith, parted, source-row co s f keys, source-pairs co s fs keys, nat_eq_iff s f)

cell-entries :
    (as_data : Dict AsData) (keys : List ℕ) (co : Matrix) (page : Dict (Dict Bool)) (x y : ℕ)
    → In x keys
    → In y keys
    → ((s : ℕ) → In s keys → is_as_key as_data s ≡ true)
    → check_connectivity as_data (map (entry co) (pairs keys keys)) ≡ ok page
    → cell x y page ≡ some (co x y)
cell-entries as_data keys co page x y hx hy known h =
    check_connectivity-latest as_data (map (entry co) (pairs keys keys)) page x y (known x hx)
      (known y hy) h
    ∙ ap some (latest-pairs co false x y keys keys ∙ ground (arith, hx, hy))

-- If the matrix of pings was symmetric before, a pass over the ASes comes to its end, and all of
-- them are of type AS, the web server reads back the file that ping.py writes, the page of its
-- matrix is made, and for two of these ASes, of which the first pings the second, it shows in both
-- directions what that ping said.
pub page_shows_pings :
    (output : ℕ → ℕ → Text) (shuffled : ℕ → List ℕ) (keys : List ℕ) (before co : Matrix)
    (as_data : Dict AsData) (x y : ℕ)
    → IsSymmetric before
    → rounds output shuffled (sorted_keys keys) before ≡ ok co
    → ((s : ℕ) → In s keys → is_as_key as_data s ≡ true)
    → In x keys
    → In y keys
    → In y (shuffled x)
    → x ≤ y
    → (measured : List (ℕ × ℕ × Bool)) × (page : Dict (Dict Bool)) × (status : Bool)
      × (parse_matrix_connectivity (written (connectivity_rows keys co)) ≡ ok measured)
      × (check_connectivity as_data measured ≡ ok page)
      × (is_reached (output x y) ≡ ok status)
      × (cell x y page ≡ some status)
      × (cell y x page ≡ some status)
page_shows_pings output shuffled keys before co as_data x y even pings known hx hy hs le =
    let (sym_co, reached) =
      rounds_correct output shuffled (sorted_keys keys) before co even pings in
    let measured = map (entry co) (pairs keys keys) in
    let (page, shown) =
      check_connectivity_returns as_data measured
        (λ s k. known s (source-pairs co s keys keys k)) in
    (
      measured,
      page,
      co x y,
      parse_matrix_connectivity-written keys co,
      shown,
      reached x y (elem-sorted_keys x keys ∙ hx) hs le,
      cell-entries as_data keys co page x y hx hy known shown,
      cell-entries as_data keys co page y x hy hx known shown ∙ ap some (sym_co y x),
    )
