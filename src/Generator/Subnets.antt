-- ===== src/Generator/Subnets.antt =====
-- No two connections between ASes get one subnet.
use mini_internet_extention.Prelude.{
  ℕ, suc, ◌/◌, ◌%◌, ◌≤◌, ◌<◌, ◌≡◌, refl, sym, ap, ◌∙◌, true, false, none, some, List, [], ◌∷◌, ◌++◌,
  all, arith, Bool-cases, inl, inr, Text, codes, str, int, int-str, is_digit, all-str, split,
  split_from-append, HasNo, elem, IsSimple, Eq_text, text_eq, text_eq_iff, Option-cases, length,
  subst,
}
use mini_internet_extention.Generator.{
  Call, get_subnet_ebgp, update_subnet_ebgp, print_all, empty_output,
}
use mini_internet_extention.Generator.Rows.{link_rows, print_all-rows}

HasNo-digits : (w : Text) → all is_digit w ≡ true → HasNo b'.' w
HasNo-digits [] h = tt
HasNo-digits (c ∷ w) h = (ground arith, HasNo-digits w (ground arith))

-- The two numbers of a subnet, which the dots separate.
abbrev first_two : List Text → ℕ × ℕ
first_two (u ∷ v ∷ rest) = (int u, int v)
first_two _ = (0, 0)

abbrev numbers : Text → ℕ × ℕ
numbers s = first_two (split b'.' (drop4 s))
  where
    drop4 : Text → Text
    drop4 (a ∷ b ∷ c ∷ d ∷ rest) = rest
    drop4 _ = []

numbers-get_subnet_ebgp : (k n : ℕ) → numbers (get_subnet_ebgp k n) ≡ (k / 100, k % 100)
unfolding get_subnet_ebgp split
numbers-get_subnet_ebgp k n =
    let rest = str n ++ codes "/24" in
    let low = str (k % 100) ++ b'.' ∷ rest in
    ap first_two (
      split_from-append b'.' [] (str (k / 100)) low
        (HasNo-digits (str (k / 100)) (all-str (k / 100)))
      ∙ ap (λ x. str (k / 100) ∷ x)
          (split_from-append b'.' [] (str (k % 100)) rest
            (HasNo-digits (str (k % 100)) (all-str (k % 100)))))
    ∙ (λ i. (int-str (k / 100) i, int-str (k % 100) i))

get_subnet_ebgp-injective : (j k n : ℕ) → get_subnet_ebgp j n ≡ get_subnet_ebgp k n → j ≡ k
get_subnet_ebgp-injective j k n h =
    let e = sym (numbers-get_subnet_ebgp j n) ∙ ap numbers h ∙ numbers-get_subnet_ebgp k n in
    omega (arith, ap (λ p. p.0) e, ap (λ p. p.1) e)

-- The subnets that the connections which are not over an IXP should get.
abbrev subnets : ℕ → List Call → List Text
subnets n [] = []
subnets n (c ∷ cs) = elim c.ixp [
  | none ↦ get_subnet_ebgp (suc n) 0 ∷ subnets (suc n) cs
  | some _ ↦ subnets n cs
]

-- A subnet that was given before is not given again.
other_subnet : (j k : ℕ) → j < k → text_eq (get_subnet_ebgp j 0) (get_subnet_ebgp k 0) ≡ false
other_subnet j k h = elim (Bool-cases (text_eq (get_subnet_ebgp j 0) (get_subnet_ebgp k 0))) [
  | inl same ↦ absurd (
      omega (
        arith,
        h,
        get_subnet_ebgp-injective j k 0
            ((text_eq_iff (get_subnet_ebgp j 0) (get_subnet_ebgp k 0)).0 same),
      ))
  | inr other ↦ other
]

elem-subnets :
    (k n : ℕ) (cs : List Call) → k ≤ n → elem (get_subnet_ebgp k 0) (subnets n cs) ≡ false
elem-subnets k n [] h = refl
elem-subnets k n (c ∷ cs) h = elim (Option-cases c.ixp) [
  | inl own ↦
      rw own (rw (other_subnet k (suc n) (omega arith)) (elem-subnets k (suc n) cs (omega arith)))
  | inr (ixp, shared) ↦ rw shared (elem-subnets k n cs h)
]

IsSimple-subnets : (n : ℕ) (cs : List Call) → IsSimple (subnets n cs)
IsSimple-subnets n [] = tt
IsSimple-subnets n (c ∷ cs) = elim (Option-cases c.ixp) [
  | inl own ↦ rw own (elem-subnets (suc n) (suc n) cs (omega arith), IsSimple-subnets (suc n) cs)
  | inr (ixp, shared) ↦ rw shared (IsSimple-subnets n cs)
]

-- The last field of a line.
abbrev pub subnet_of : List Text → Text
subnet_of (grp1 ∷ r1 ∷ type1 ∷ grp2 ∷ r2 ∷ type2 ∷ throughput ∷ delay ∷ subnet ∷ rest) = subnet
subnet_of _ = []

-- The subnets in the lines of the calls that are not over an IXP.
abbrev pub printed_subnets : List Call → List (List Text) → List Text
printed_subnets (c ∷ cs) (line ∷ lines) = elim c.ixp [
  | none ↦ subnet_of line ∷ printed_subnets cs lines
  | some _ ↦ printed_subnets cs lines
]
printed_subnets _ _ = []

printed_subnets-link_rows :
    (n : ℕ) (cs : List Call) → printed_subnets cs (link_rows n cs) ≡ subnets n cs
printed_subnets-link_rows n [] = refl
printed_subnets-link_rows n (c ∷ cs) = elim (Option-cases c.ixp) [
  | inl own ↦ ground (arith, own, printed_subnets-link_rows (suc n) cs)
  | inr (ixp, shared) ↦ ground (arith, shared, printed_subnets-link_rows n cs)
]

length-link_rows : (n : ℕ) (cs : List Call) → length (link_rows n cs) ≡ length cs
length-link_rows n [] = refl
length-link_rows n (c ∷ cs) = ap suc (length-link_rows (update_subnet_ebgp c.ixp n) cs)

-- The generator prints one line for each call, and in the lines of the calls that are not over an
-- IXP no subnet stands twice.
pub subnets-IsSimple :
    (cs : List Call)
    → (length (print_all cs empty_output).fd ≡ length cs)
      × IsSimple (printed_subnets cs (print_all cs empty_output).fd)
subnets-IsSimple cs =
    let lines = (print_all-rows cs empty_output).0 in
    (
      ap length lines ∙ length-link_rows 0 cs,
      subst IsSimple (sym (ap (λ l. printed_subnets cs l) lines ∙ printed_subnets-link_rows 0 cs))
          (IsSimple-subnets 0 cs),
    )
