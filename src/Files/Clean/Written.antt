-- ===== src/Files/Clean/Written.antt =====
-- A table of words that is written with tabs and newlines comes back from `rows`.
use mini_internet_extention.Prelude.{
  ℕ, ◌≡◌, refl, ap, ◌∙◌, Bool, true, false, not, ◌&&◌, List, [], ◌∷◌, ◌++◌, map, Eq_nat, Text, join,
  split, split-join, HasNo, AllHaveNo, is_empty, all, arith, nat_eq_iff, Bool-cases, inl, inr,
  append_assoc,
}
use mini_internet_extention.Files.Clean.{
  tab, newline, push, lines, is_space, sub_from, read_clean, rows,
}

-- A field that the parsers read back: no space in it, and not empty.
abbrev pub is_word : Text → Bool
is_word w = not (is_empty w) && all (λ c. not (is_space c)) w

abbrev pub is_row : List Text → Bool
is_row row = not (is_empty row) && all is_word row

-- `fd.write('{}\t...\t{}\n'.format(...))` for each row
unfoldable pub written : List (List Text) → Text
unfolding join
written [] = []
written (row ∷ table) = join tab row ++ newline ∷ written table

lines-append :
    (w s : Text) → HasNo newline w → lines (w ++ newline ∷ s) ≡ (w ++ newline ∷ []) ∷ lines s
unfolding lines
lines-append [] s h = refl
lines-append (c ∷ w) s h = rw h.0 (ap (λ x. push c x) (lines-append w s h.1))

abbrev pub solid : Text → Bool
solid w = all (λ c. not (is_space c)) w

sub_from-solid : (w s : Text) → solid w ≡ true → sub_from false (w ++ s) ≡ w ++ sub_from false s
unfolding sub_from
sub_from-solid [] s h = refl
sub_from-solid (c ∷ w) s h = elim (Bool-cases (is_space c)) [
  | inl space ↦ absurd (ground (arith, space))
  | inr ink ↦ rw ink (ap (λ x. c ∷ x) (sub_from-solid w s (ground (arith, ink))))
]

sub_from-word :
    (after : Bool) (w s : Text) → is_word w ≡ true → sub_from after (w ++ s) ≡ w ++ sub_from false s
unfolding sub_from
sub_from-word after [] s h = absurd (ground arith)
sub_from-word after (c ∷ w) s h = elim (Bool-cases (is_space c)) [
  | inl space ↦ absurd (ground (arith, space))
  | inr ink ↦ rw ink (ap (λ x. c ∷ x) (sub_from-solid w s (ground (arith, ink))))
]

HasNo-solid : (sep : ℕ) (w : Text) → is_space sep ≡ true → solid w ≡ true → HasNo sep w
HasNo-solid sep [] p h = tt
HasNo-solid sep (c ∷ w) p h = (ground (arith, nat_eq_iff c sep), HasNo-solid sep w p (ground arith))

AllHaveNo-words :
    (sep : ℕ) (row : List Text) → is_space sep ≡ true → all is_word row ≡ true → AllHaveNo sep row
AllHaveNo-words sep [] p h = tt
AllHaveNo-words sep (w ∷ row) p h =
    (HasNo-solid sep w p (ground arith), AllHaveNo-words sep row p (ground arith))

HasNo-append : (sep : ℕ) (s t : Text) → HasNo sep s → HasNo sep t → HasNo sep (s ++ t)
HasNo-append sep [] t h k = k
HasNo-append sep (c ∷ s) t h k = (h.0, HasNo-append sep s t h.1 k)

HasNo-join : (row : List Text) → all is_word row ≡ true → HasNo newline (join tab row)
unfolding join is_space
HasNo-join [] h = tt
HasNo-join (w ∷ []) h = HasNo-solid newline w refl (ground arith)
HasNo-join (w ∷ v ∷ row) h =
    HasNo-append newline w (tab ∷ join tab (v ∷ row)) (HasNo-solid newline w refl (ground arith))
      (refl, HasNo-join (v ∷ row) (ground arith))

sub_from-join :
    (after : Bool) (w : Text) (row : List Text)
    → all is_word (w ∷ row) ≡ true
    → sub_from after (join tab (w ∷ row) ++ newline ∷ []) ≡ join tab ((w ∷ row) ++ [] ∷ [])
unfolding join sub_from is_space
sub_from-join after w [] h = sub_from-word after w (newline ∷ []) (ground arith)
sub_from-join after w (v ∷ row) h =
    ap (λ x. sub_from after x) (append_assoc w (tab ∷ join tab (v ∷ row)) (newline ∷ []))
    ∙ sub_from-word after w (tab ∷ (join tab (v ∷ row) ++ newline ∷ [])) (ground arith)
    ∙ ap (λ x. w ++ tab ∷ x) (sub_from-join true v row (ground arith))

split-line :
    (row : List Text)
    → is_row row ≡ true
    → split tab (sub_from false (join tab row ++ newline ∷ [])) ≡ row ++ [] ∷ []
unfolding is_space
split-line [] h = absurd (ground arith)
split-line (w ∷ row) h =
    ap (λ x. split tab x) (sub_from-join false w row (ground arith))
    ∙ split-join tab w (row ++ [] ∷ [])
        (ends (w ∷ row) (AllHaveNo-words tab (w ∷ row) refl (ground arith)))
  where
    ends : (ws : List Text) → AllHaveNo tab ws → AllHaveNo tab (ws ++ [] ∷ [])
    ends [] k = (tt, tt)
    ends (v ∷ ws) k = (k.0, ends ws k.1)

-- A table of words comes back, with an empty field at the end of each row.
pub rows-written :
    (table : List (List Text))
    → all is_row table ≡ true
    → rows (written table) ≡ map (λ row. row ++ [] ∷ []) table
unfolding rows read_clean written
rows-written [] h = refl
rows-written (row ∷ table) h =
    ap (λ x. map (split tab) (map (sub_from false) x))
      (lines-append (join tab row) (written table) (HasNo-join row (ground arith)))
    ∙ (λ i. split-line row (ground arith) i ∷ rows-written table (ground arith) i)
