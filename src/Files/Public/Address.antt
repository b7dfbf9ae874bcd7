-- ===== src/Files/Public/Address.antt =====
-- Each end of a public connection has the address that the file last gives it.
use mini_internet_extention.Prelude.{
  String, ◌≡◌, refl, sym, subst, nat_eq_iff, ap, ◌∙◌, true, false, Option, none, some, List, [],
  ◌∷◌, ◌++◌, ◌⊎◌, any, if◌then◌else◌, Text, ok, arith, Bool-cases, Option-cases, Result-cases, inl,
  inr,
}
use mini_internet_extention.Files.Clean.{rows, each_row}
use mini_internet_extention.Files.Sort.{
  sorted, IsSorted, sorted-IsSorted, with_key, with_key-sorted, pair_eq,
}
use mini_internet_extention.Files.Public.{
  End, same_key, same_key_iff, Eq_end, PublicRow, Connection, has_key, set_other, add_row,
  public_loop, parse_public_row, ends_numbers, parse_public_as_connections,
}

-- The first entry with the ends (a, b), in this order.
abbrev entry : End → End → List Connection → Option Connection
entry a b [] = none
entry a b (c ∷ cs) = if has_key a b c then some c else entry a b cs

-- The address of a's interface to b, which is `some none` if the connection is known without it.
abbrev pub address : End → End → List Connection → Option (Option String)
address a b cs = elim (entry a b cs) [
  | some c ↦ some c.a_ip
  | none ↦ elim (entry b a cs) [ some c ↦ some c.b_ip | none ↦ none ]
]

abbrev known : Option (Option String) → Option (Option String)
known none = some none
known (some x) = some x

-- The address after one more line.
abbrev pub updated : Option (Option String) → End → End → PublicRow → Option (Option String)
updated before a b row =
    if same_key row.a row.b a b
    then some row.a_ip
    else if same_key row.a row.b b a
    then known before
    else before

-- The last address that the lines give to a's interface to b.
abbrev pub last_given : Option (Option String) → End → End → List PublicRow → Option (Option String)
last_given before a b [] = before
last_given before a b (row ∷ rest) = last_given (updated before a b row) a b rest

any-has_key :
    (a b : End) (cs : List Connection) → (any (has_key a b) cs ≡ true) ⊎ (entry a b cs ≡ none)
any-has_key a b [] = inr refl
any-has_key a b (c ∷ cs) = ground (arith, any-has_key a b cs)

entry-concat :
    (a b : End) (cs : List Connection) (d : Connection)
    → entry a b (cs ++ d ∷ [])
      ≡ elim (entry a b cs) [ none ↦ if has_key a b d then some d else none | some c ↦ some c ]
entry-concat a b [] d = refl
entry-concat a b (c ∷ cs) d = ground (arith, entry-concat a b cs d)

-- The address of the entry (b, a) is changed, and that of no other.
entry-set_other :
    (x y a b : End) (ip : Option String) (cs : List Connection)
    → entry a b (set_other x y ip cs) ≡ elim (entry a b cs) [
      | none ↦ none
      | some c ↦ some (if has_key x y c then record c { b_ip = ip } else c)
    ]
unfolding set_other
entry-set_other x y a b ip [] = refl
entry-set_other x y a b ip (c ∷ cs) = elim (Bool-cases (has_key x y c)) [
  | inl found ↦ rw found (ground (arith, found, entry-set_other x y a b ip cs))
  | inr other ↦ rw other (ground (arith, other, entry-set_other x y a b ip cs))
]

entry-has_key :
    (a b : End) (cs : List Connection) (c : Connection)
    → entry a b cs ≡ some c
    → (c.a ≡ a) × (c.b ≡ b)
entry-has_key a b [] c h = absurd (ground (arith, h))
entry-has_key a b (d ∷ cs) c h = ground (arith, h, entry-has_key a b cs c, same_key_iff d.a d.b a b)

any-entry :
    (a b : End) (cs : List Connection)
    → any (has_key a b) cs ≡ true
    → (c : Connection) × (entry a b cs ≡ some c)
any-entry a b [] h = absurd (ground arith)
any-entry a b (c ∷ cs) h = elim (Bool-cases (has_key a b c)) [
  | inl found ↦ (c, rw found refl)
  | inr other ↦ let (d, e) = any-entry a b cs (ground (arith, other)) in (d, rw other e)
]

add_row-cases :
    (row : PublicRow) (cs out : List Connection)
    → add_row row cs ≡ ok out
    → (entry row.a row.b cs ≡ none)
      × (((c : Connection) × (entry row.b row.a cs ≡ some c)
            × (out ≡ set_other row.b row.a row.a_ip cs))
          ⊎ ((entry row.b row.a cs ≡ none)
              × (out ≡ cs ++ record { a = row.a; b = row.b; a_ip = row.a_ip; b_ip = none } ∷ [])))
unfolding add_row
add_row-cases row cs out h = elim (any-has_key row.a row.b cs) [
  | inl old ↦ absurd (ground (arith, old))
  | inr new ↦ elim (Bool-cases (any (has_key row.a row.b) cs)) [
    | inl old ↦ absurd (ground (arith, old))
    | inr not_ab ↦ elim (Bool-cases (any (has_key row.b row.a) cs)) [
      | inl other ↦
          let (c, e) = any-entry row.b row.a cs other in
          (new, inl (c, e, ground (arith, not_ab, other)))
      | inr not_ba ↦ elim (any-has_key row.b row.a cs) [
        | inl other ↦ absurd (ground (arith, not_ba, other))
        | inr none_ba ↦ (new, inr (none_ba, ground (arith, not_ab, not_ba)))
      ]
    ]
  ]
]

-- Where the address is changed, and where not.
address-first :
    (a b : End) (ip : Option String) (c : Connection) (cs : List Connection)
    → entry a b cs ≡ none
    → entry b a cs ≡ some c
    → address a b (set_other b a ip cs) ≡ some ip
address-first a b ip c cs new e = ground (
  arith,
  new,
  e,
  entry-set_other b a a b ip cs,
  entry-set_other b a b a ip cs,
  entry-has_key b a cs c e,
  same_key_iff c.a c.b b a,
)

address-second :
    (a b : End) (ip : Option String) (c : Connection) (cs : List Connection)
    → entry b a cs ≡ some c
    → address b a (set_other b a ip cs) ≡ address b a cs
address-second a b ip c cs e = ground (arith, e, entry-set_other b a b a ip cs)

address-others :
    (x y a b : End) (ip : Option String) (cs : List Connection)
    → same_key x y a b ≡ false
    → address a b (set_other y x ip cs) ≡ address a b cs
address-others x y a b ip cs ab = elim (Option-cases (entry b a cs)) [
  | inl missing ↦
      ground (arith, missing, entry-set_other y x a b ip cs, entry-set_other y x b a ip cs)
  | inr (c, e) ↦ ground (
    arith,
    e,
    entry-set_other y x a b ip cs,
    entry-set_other y x b a ip cs,
    entry-has_key b a cs c e,
    same_key_iff c.a c.b y x,
    same_key_iff x y a b,
  )
]

address-set_other :
    (row : PublicRow) (c : Connection) (cs : List Connection) (a b : End)
    → entry row.a row.b cs ≡ none
    → entry row.b row.a cs ≡ some c
    → address a b (set_other row.b row.a row.a_ip cs) ≡ updated (address a b cs) a b row
address-set_other row c cs a b new e = elim (Bool-cases (same_key row.a row.b a b)) [
  | inl ab ↦ ground (
    arith,
    ab,
    (same_key_iff row.a row.b a b).0 ab,
    address-first row.a row.b row.a_ip c cs new e,
  )
  | inr not_ab ↦ elim (Bool-cases (same_key row.a row.b b a)) [
    | inl ba ↦ ground (
      arith,
      not_ab,
      ba,
      e,
      (same_key_iff row.a row.b b a).0 ba,
      address-second row.a row.b row.a_ip c cs e,
    )
    | inr not_ba ↦ ground (arith, not_ab, not_ba, address-others row.a row.b a b row.a_ip cs not_ab)
  ]
]

address-concat :
    (row : PublicRow) (cs : List Connection) (a b : End)
    → entry row.a row.b cs ≡ none
    → entry row.b row.a cs ≡ none
    → address a b (cs ++ record { a = row.a; b = row.b; a_ip = row.a_ip; b_ip = none } ∷ [])
      ≡ updated (address a b cs) a b row
address-concat row cs a b new none_ba =
    let d : Connection = record { a = row.a; b = row.b; a_ip = row.a_ip; b_ip = none } in
    ground (
      arith,
      new,
      none_ba,
      entry-concat a b cs d,
      entry-concat b a cs d,
      same_key_iff row.a row.b a b,
      same_key_iff row.a row.b b a,
    )

address-add_row :
    (row : PublicRow) (cs out : List Connection) (a b : End)
    → add_row row cs ≡ ok out
    → address a b out ≡ updated (address a b cs) a b row
address-add_row row cs out a b h =
    let (new, other) = add_row-cases row cs out h in
    elim other [
      | inl known_ba ↦
          let (c, e, is_out) = known_ba in
          ap (λ x. address a b x) is_out ∙ address-set_other row c cs a b new e
      | inr unknown_ba ↦
          let (e, is_out) = unknown_ba in
          ap (λ x. address a b x) is_out ∙ address-concat row cs a b new e
    ]

address-public_loop :
    (rs : List (List Text)) (cs out : List Connection)
    → public_loop rs cs ≡ ok out
    → (parsed : List PublicRow) × (each_row parse_public_row rs ≡ ok parsed)
      × ((a b : End) → address a b out ≡ last_given (address a b cs) a b parsed)
unfolding public_loop each_row
address-public_loop [] cs out h = ([], refl, λ a b. ground (arith, h))
address-public_loop (row ∷ rest) cs out h = elim (Result-cases (parse_public_row row)) [
  | inr (x, e) ↦ absurd (ground (arith, e, h))
  | inl (r, e) ↦ elim (Result-cases (add_row r cs)) [
    | inr (x, k) ↦ absurd (ground (arith, e, k, h))
    | inl (more, k) ↦
        let (parsed, p, q) = address-public_loop rest more out (ground (arith, e, k, h)) in
        (
          r ∷ parsed,
          ground (arith, e, p),
          λ a b. q a b ∙ ap (λ x. last_given x a b parsed) (address-add_row r cs more a b k),
        )
  ]
]

entry-with_key :
    (a b : End) (cs : List Connection)
    → entry a b (with_key ends_numbers (a.asn, b.asn) cs) ≡ entry a b cs
entry-with_key a b [] = refl
entry-with_key a b (c ∷ cs) = elim (Bool-cases (has_key a b c)) [
  | inl found ↦
      let (ea, eb) = (same_key_iff c.a c.b a b).0 found in
      let same : pair_eq (c.a.asn, c.b.asn) (a.asn, b.asn) ≡ true = ground (
        arith,
        nat_eq_iff c.a.asn a.asn,
        nat_eq_iff c.b.asn b.asn,
        ap (λ (x : End). x.asn) ea,
        ap (λ (x : End). x.asn) eb,
      ) in
      rw same (rw found refl)
  | inr other ↦ elim (Bool-cases (pair_eq (c.a.asn, c.b.asn) (a.asn, b.asn))) [
    | inl same ↦ rw same (rw other (entry-with_key a b cs))
    | inr differs ↦ rw differs (rw other (entry-with_key a b cs))
  ]
]

-- The order of the sort does not move an entry before another of the same ends.
entry-sorted :
    (a b : End) (cs : List Connection) → entry a b (sorted ends_numbers cs) ≡ entry a b cs
entry-sorted a b cs =
    sym (entry-with_key a b (sorted ends_numbers cs))
    ∙ ap (λ x. entry a b x) (with_key-sorted ends_numbers (a.asn, b.asn) cs)
    ∙ entry-with_key a b cs

address-sorted :
    (a b : End) (cs : List Connection) → address a b (sorted ends_numbers cs) ≡ address a b cs
address-sorted a b cs = ground (arith, entry-sorted a b cs, entry-sorted b a cs)

-- If the file for students is parsed, all its lines are, each end of a connection has the address
-- that the last line for it gives, or none if only the other end has a line, and the connections
-- are sorted by the numbers of their ASes.
pub parse_public_as_connections-address :
    (file : Text) (out : List Connection)
    → parse_public_as_connections file ≡ ok out
    → (parsed : List PublicRow) × (each_row parse_public_row (rows file) ≡ ok parsed)
      × ((a b : End) → address a b out ≡ last_given none a b parsed)
      × IsSorted ends_numbers out
unfolding parse_public_as_connections
parse_public_as_connections-address file out h = elim (Result-cases (public_loop (rows file) [])) [
  | inr (x, e) ↦ absurd (ground (arith, e, h))
  | inl (cs, e) ↦
      let (parsed, p, q) = address-public_loop (rows file) [] cs e in
      let is_out : sorted ends_numbers cs ≡ out = ground (arith, e, h) in
      (
        parsed,
        p,
        λ a b. sym (ap (λ x. address a b x) is_out) ∙ address-sorted a b cs ∙ q a b,
        subst (λ x. IsSorted ends_numbers x) is_out (sorted-IsSorted ends_numbers cs),
      )
]
