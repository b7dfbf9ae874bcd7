-- ===== src/Files/Clean.antt =====
-- `_read_clean` and the rows that csv makes of its lines, for files without quotation marks.
pub mod Written
pub mod Numbers
use mini_internet_extention.Prelude.{
  ℕ, ◌≡◌, refl, Bool, true, false, not, ◌&&◌, ◌||◌, Option, none, some, List, [], ◌∷◌, map,
  if◌then◌else◌, ◌==◌, Eq_nat, leb, elem, Text, isdigit, int, split, Result, ok, err, ◌>>=◌,
  get_elem?, String, to_string,
}

-- The exceptions of the parsers.
pub data Error : Type 0 where
  value_error type_error index_error file_not_found runtime_error : Error

abbrev pub tab : ℕ
tab = 9

abbrev pub newline : ℕ
newline = 10

-- One more character at the front of the first line.
push : ℕ → List Text → List Text
push c [] = (c ∷ []) ∷ []
push c (l ∷ ls) = (c ∷ l) ∷ ls

-- `for line in file`: each line with its newline, the last one perhaps without.
unfoldable pub lines : Text → List Text
unfolding push
lines [] = []
lines (c ∷ s) = let rest = lines s in if c == newline then (c ∷ []) ∷ rest else push c rest

-- `\s` of the module re, for str patterns.
unfoldable pub is_space : ℕ → Bool
is_space c =
    leb 9 c && leb c 13
    || leb 28 c && leb c 32
    || c == 133
    || c == 160
    || c == 5760
    || leb 8192 c && leb c 8202
    || elem c (8232 ∷ 8233 ∷ 8239 ∷ 8287 ∷ 12288 ∷ [])

-- `re.sub('\s+', '\t', line)`, after a space or not
unfoldable pub sub_from : Bool → Text → Text
unfolding is_space
sub_from after [] = []
sub_from after (c ∷ s) =
    let rest = sub_from (is_space c) s in
    if is_space c then (if after then rest else tab ∷ rest) else c ∷ rest

unfoldable pub read_clean : Text → List Text
unfolding lines sub_from
read_clean file = map (sub_from false) (lines file)

-- `csv.reader(_read_clean(filename), delimiter='\t')`; no line is empty here.
unfoldable pub rows : Text → List (List Text)
unfolding read_clean
rows file = map (split tab) (read_clean file)

-- `int(s)`: the files hold no signs and no underscores between digits.
abbrev pub parse_int : Text → Result Error ℕ
parse_int s = if isdigit s then ok (int s) else err value_error

-- `row[i]` of a list
abbrev pub item : ℕ → List Text → Result Error Text
item i row = elim (get_elem? row i) [ none ↦ err index_error | some s ↦ ok s ]

-- `int(row[key])` of a DictReader's row, which has None for the missing fields.
abbrev pub int_field : ℕ → List Text → Result Error ℕ
int_field i row = elim (get_elem? row i) [ none ↦ err type_error | some s ↦ parse_int s ]

-- `for row in reader`, up to the first exception
unfoldable pub each_row :
    {A : Type 0} → (List Text → Result Error A) → List (List Text) → Result Error (List A)
each_row f [] = ok []
each_row f (row ∷ rest) = do a ← f row; more ← each_row f rest; ok (a ∷ more)

-- A field that is there because a later one is.
unfoldable pub text_at : ℕ → List Text → String
text_at i row = elim (get_elem? row i) [ none ↦ "" | some s ↦ to_string s ]

-- A field of a DictReader's row, which may be missing.
unfoldable pub text_field : ℕ → List Text → Option String
text_field i row = elim (get_elem? row i) [ none ↦ none | some s ↦ some (to_string s) ]

pub each_row-map :
    {A B : Type 0} (f : List Text → Result Error B) (g : A → List Text) (v : A → B)
    → ((a : A) → f (g a) ≡ ok (v a))
    → (xs : List A) → each_row f (map g xs) ≡ ok (map v xs)
unfolding each_row
each_row-map f g v h [] = refl
each_row-map f g v h (x ∷ xs) = rw (h x) (rw (each_row-map f g v h xs) refl)
