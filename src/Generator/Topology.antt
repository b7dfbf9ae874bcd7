-- ===== src/Generator/Topology.antt =====
-- The topologies of generate_connections.py, its tables of routers, and Python's indices.
use mini_internet_extention.Prelude.{
  ℕ, zero, suc, ◌+◌, ◌-◌, ◌%◌, Option, none, some, List, [], ◌∷◌, map, Text, str, join, length,
  get_elem?, if◌then◌else◌, ◌==◌, Eq_nat, leb, Result, ok, err,
}

pub record Topology : Type 0 where
  pub tier1 : List (List ℕ)
  pub transit : List (List ℕ)
  pub ixp_central : ℕ
  pub ixp_out : List ℕ

-- n consecutive numbers, as a row of a table of the file.
pub range : ℕ → ℕ → List ℕ
range first zero = []
range first (suc n) = first ∷ range (suc first) n

-- k rows that start at `first` and are `step` apart.
pub rows_of : ℕ → ℕ → ℕ → ℕ → List (List ℕ)
rows_of first step zero width = []
rows_of first step (suc k) width = range first width ∷ rows_of (first + step) step k width

-- The branches of NB_ASES; another size leaves the variables undefined.
unfoldable pub topology : ℕ → Option Topology
unfolding range rows_of
topology nb =
    if nb == 12
    then some (regular 10 2 6 80)
    else if nb == 20
    then some (regular 10 2 10 80)
    else if nb == 30
    then some (regular 10 3 10 80)
    else if nb == 40
    then some (regular 10 4 10 80)
    else if nb == 60
    then some (regular 10 6 10 80)
    else if nb == 72
    then some (regular 20 6 12 120)
    else if nb == 76
    then some (uneven (range 1 14 ∷ range 21 12 ∷ range 41 14 ∷ rows_of 61 20 3 12))
    else if nb == 70
    then some (uneven (range 1 14 ∷ range 21 14 ∷ range 41 14 ∷ rows_of 61 20 3 12))
    else none
  where
    regular : ℕ → ℕ → ℕ → ℕ → Topology
    regular step k width central = record {
      tier1 = rows_of 1 step k 2;
      transit = rows_of 1 step k width;
      ixp_central = central;
      ixp_out = range (suc central) k;
    }

    uneven : List (List ℕ) → Topology
    uneven blocks = record {
      tier1 = rows_of 1 20 6 2;
      transit = blocks;
      ixp_central = 120;
      ixp_out = range 121 6;
    }

-- What an index or a remainder can raise.
pub data Error : Type 0 where
  index_error zero_division_error : Error

abbrev pub nth : {A : Type 0} → ℕ → List A → Result Error A
nth i xs = elim (get_elem? xs i) [ none ↦ err index_error | some x ↦ ok x ]

-- `xs[-n]`
abbrev pub from_end : {A : Type 0} → ℕ → List A → Result Error A
from_end n xs = if leb n (length xs) then nth (length xs - n) xs else err index_error

-- `xs[i - 1]`, where -1 is the last index
abbrev pub before : {A : Type 0} → ℕ → List A → Result Error A
before zero xs = from_end 1 xs
before (suc i) xs = nth i xs

abbrev pub modulo : ℕ → ℕ → Result Error ℕ
modulo i n = if n == 0 then err zero_division_error else ok (i % n)

-- `(i - 1) % n`, where -1 % n is n - 1
abbrev pub modulo_before : ℕ → ℕ → Result Error ℕ
modulo_before i n = if n == 0 then err zero_division_error else ok ((i + n - 1) % n)

abbrev drop : {A : Type 0} → ℕ → List A → List A
drop zero xs = xs
drop (suc n) [] = []
drop (suc n) (x ∷ xs) = drop n xs

abbrev take : {A : Type 0} → ℕ → List A → List A
take zero xs = []
take (suc n) [] = []
take (suc n) (x ∷ xs) = x ∷ take n xs

-- `xs[start:stop]`
unfoldable pub slice : {A : Type 0} → ℕ → ℕ → List A → List A
slice start stop xs = take (stop - start) (drop start xs)

-- `','.join(map(lambda x:str(x), ases))`
unfoldable pub comma_list : List ℕ → Text
unfolding str join
comma_list ases = join b',' (map str ases)
