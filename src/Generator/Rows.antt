-- ===== src/Generator/Rows.antt =====
-- The lines of the two files as functions of the calls, and that they consist of words.
use mini_internet_extention.Prelude.{
  ℕ, ◌/◌, ◌%◌, ◌≡◌, refl, sym, ap, ◌∙◌, Bool, true, ◌&&◌, Option, none, some, List, [], ◌∷◌, ◌++◌,
  append_assoc, all, arith, Text, codes, str,
}
use mathlib.Core.List.{append-nil}
use mini_internet_extention.Files.Clean.{is_space}
use mini_internet_extention.Files.Clean.Written.{is_word, is_row, solid}
use mini_internet_extention.Files.Clean.Numbers.{is_word-str}
use mini_internet_extention.Generator.{
  Call, Output, throughput, delay, get_subnet_ebgp, ixp_addr, router_text, update_subnet_ebgp,
  link_text, address_text, print_connection, print_all,
}

abbrev pub link_row : ℕ → Call → List Text
link_row n c =
    str c.grp1
    ∷ router_text c.r1
    ∷ codes c.type1
    ∷ str c.grp2
    ∷ router_text c.r2
    ∷ codes c.type2
    ∷ str throughput
    ∷ str delay
    ∷ link_text n c.ixp
    ∷ []

-- The lines of the connections, after `n` of them got a subnet.
abbrev pub link_rows : ℕ → List Call → List (List Text)
link_rows n [] = []
link_rows n (c ∷ cs) = let m = update_subnet_ebgp c.ixp n in link_row m c ∷ link_rows m cs

abbrev pub first_row : ℕ → Call → List Text
first_row n c =
    str c.grp1
    ∷ router_text c.r1
    ∷ codes c.type1
    ∷ str c.grp2
    ∷ router_text c.r2
    ∷ codes c.type2
    ∷ address_text n 1 c.grp2 c.grp1 c.ixp
    ∷ []

abbrev pub second_row : ℕ → Call → List Text
second_row n c =
    str c.grp2
    ∷ router_text c.r2
    ∷ codes c.type2
    ∷ str c.grp1
    ∷ router_text c.r1
    ∷ codes c.type1
    ∷ address_text n 2 c.grp2 c.grp2 c.ixp
    ∷ []

abbrev pub student_rows : ℕ → List Call → List (List Text)
student_rows n [] = []
student_rows n (c ∷ cs) =
    let m = update_subnet_ebgp c.ixp n in first_row m c ∷ second_row m c ∷ student_rows m cs

pub print_all-rows :
    (cs : List Call) (o : Output)
    → ((print_all cs o).fd ≡ o.fd ++ link_rows o.line_nb cs)
      × ((print_all cs o).fd_students ≡ o.fd_students ++ student_rows o.line_nb cs)
unfolding print_all print_connection
print_all-rows [] o = (ap (λ x. x) (sym (append-nil o.fd)), sym (append-nil o.fd_students))
print_all-rows (c ∷ cs) o =
    let m = update_subnet_ebgp c.ixp o.line_nb in
    let (l, s) = print_all-rows cs (print_connection c o) in
    (
      l ∙ append_assoc o.fd (link_row m c ∷ []) (link_rows m cs),
      s ∙ append_assoc o.fd_students (first_row m c ∷ second_row m c ∷ []) (student_rows m cs),
    )

-- Routers, roles and addresses of a call that can be read back.
abbrev pub is_printable : Call → Bool
is_printable c =
    is_word (router_text c.r1)
    && is_word (codes c.type1)
    && is_word (router_text c.r2)
    && is_word (codes c.type2)
    && elim c.ixp [ none ↦ true | some ixp ↦ is_word ixp ]

solid-append : (u v : Text) → solid u ≡ true → solid v ≡ true → solid (u ++ v) ≡ true
solid-append [] v h k = k
solid-append (c ∷ u) v h k = ground (arith, solid-append u v)

solid-str : (n : ℕ) → solid (str n) ≡ true
solid-str n = ground (arith, is_word-str n)

solid-mask : (n : ℕ) → solid (str n ++ codes "/24") ≡ true
unfolding is_space
solid-mask n = solid-append (str n) (codes "/24") (solid-str n) refl

is_word-get_subnet_ebgp : (line_nb n : ℕ) → is_word (get_subnet_ebgp line_nb n) ≡ true
unfolding get_subnet_ebgp is_space
is_word-get_subnet_ebgp line_nb n =
    solid-append (str (line_nb / 100))
      (b'.' ∷ (str (line_nb % 100) ++ b'.' ∷ (str n ++ codes "/24"))) (solid-str (line_nb / 100))
      (solid-append (str (line_nb % 100)) (b'.' ∷ (str n ++ codes "/24"))
        (solid-str (line_nb % 100)) (solid-mask n))

is_word-ixp_addr : (grp2 n : ℕ) → is_word (ixp_addr grp2 n) ≡ true
unfolding ixp_addr is_space
is_word-ixp_addr grp2 n =
    solid-append (str grp2) (b'.' ∷ b'0' ∷ b'.' ∷ (str n ++ codes "/24")) (solid-str grp2)
      (solid-mask n)

abbrev is_word? : Option Text → Bool
is_word? none = true
is_word? (some s) = is_word s

is_word-link_text :
    (n : ℕ) (ixp : Option Text) → is_word? ixp ≡ true → is_word (link_text n ixp) ≡ true
is_word-link_text n none h = is_word-get_subnet_ebgp n 0
is_word-link_text n (some s) h = h

is_word-address_text :
    (n i grp2 grp : ℕ) (ixp : Option Text) → is_word (address_text n i grp2 grp ixp) ≡ true
is_word-address_text n i grp2 grp none = is_word-get_subnet_ebgp n i
is_word-address_text n i grp2 grp (some s) = is_word-ixp_addr grp2 grp

pub is_row-link_rows :
    (n : ℕ) (cs : List Call) → all is_printable cs ≡ true → all is_row (link_rows n cs) ≡ true
is_row-link_rows n [] h = refl
is_row-link_rows n (c ∷ cs) h =
    let m = update_subnet_ebgp c.ixp n in
    ground (
      arith,
      is_word-str c.grp1,
      is_word-str c.grp2,
      is_word-str throughput,
      is_word-str delay,
      is_word-link_text m c.ixp,
      is_row-link_rows m cs,
    )

pub is_row-student_rows :
    (n : ℕ) (cs : List Call) → all is_printable cs ≡ true → all is_row (student_rows n cs) ≡ true
is_row-student_rows n [] h = refl
is_row-student_rows n (c ∷ cs) h =
    let m = update_subnet_ebgp c.ixp n in
    ground (
      arith,
      is_word-str c.grp1,
      is_word-str c.grp2,
      is_word-address_text m 1 c.grp2 c.grp1 c.ixp,
      is_word-address_text m 2 c.grp2 c.grp2 c.ixp,
      is_row-student_rows m cs,
    )
