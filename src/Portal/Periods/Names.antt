-- ===== src/Portal/Periods/Names.antt =====
-- The names and the keys of the periods stay distinct.
use mini_internet_extention.Prelude.{
  ℕ, ◌≡◌, refl, sym, ap, subst, ◌⊎◌, inl, inr, Bool, true, false, not, Option, none, some, List, [],
  ◌∷◌, ◌++◌, map, ◌==◌, Eq, Eq_nat, Eq_text, nat_eq_iff, text_eq_iff, Text, elem, is_empty,
  elem-append, IsSimple, filter, Bool-cases, Option-cases, arith,
}
use mini_internet_extention.Portal.Periods.{
  Period, Tables, added, taken, period_with, period_named, save_period, new_period, delete_period,
  update_period,
}

abbrev pub names : List Period → List Text
names ps = map (λ p. p.name) ps

abbrev pub ids : List Period → List ℕ
ids ps = map (λ p. p.id) ps

-- No two periods have one name or one key.
abbrev pub IsDistinct : List Period → Type 0
IsDistinct ps = IsSimple (names ps) × IsSimple (ids ps)

module _ {A : Type 0} ⦃e : Eq A⦄ (f : Period → A) (keep : Period → Bool) where
  elem-filter :
      (a : A) (ps : List Period)
      → elem a (map f ps) ≡ false
      → elem a (map f (filter keep ps)) ≡ false
  elem-filter a [] h = refl
  elem-filter a (p ∷ ps) h = elim (Bool-cases (keep p)) [
    | inl k ↦ ground (arith, k, elem-filter a ps (ground arith))
    | inr k ↦ ground (arith, k, elem-filter a ps (ground arith))
  ]

  IsSimple-filter : (ps : List Period) → IsSimple (map f ps) → IsSimple (map f (filter keep ps))
  IsSimple-filter [] u = tt
  IsSimple-filter (p ∷ ps) u = elim (Bool-cases (keep p)) [
    | inl k ↦ rw k (elem-filter (f p) ps u.0, IsSimple-filter ps u.1)
    | inr k ↦ rw k (IsSimple-filter ps u.1)
  ]

module _ {A : Type 0} ⦃e : Eq A⦄ where
  IsSimple-concat :
      (xs : List A) (a : A) → elem a xs ≡ false → IsSimple xs → IsSimple (xs ++ a ∷ [])
  IsSimple-concat [] a h u = (refl, tt)
  IsSimple-concat (x ∷ xs) a h u = (
    ground (arith, elem-append x xs (a ∷ []), e.beq_iff a x, e.beq_iff x a),
    IsSimple-concat xs a (ground arith) u.1,
  )

map-concat :
    {A : Type 0} (f : Period → A) (ps : List Period) (p : Period)
    → map f (ps ++ p ∷ []) ≡ map f ps ++ f p ∷ []
map-concat f [] p = refl
map-concat f (q ∷ ps) p = ap (λ xs. f q ∷ xs) (map-concat f ps p)

unnamed :
    (name : Text) (ps : List Period) → period_named name ps ≡ none → elem name (names ps) ≡ false
unnamed name [] h = refl
unnamed name (p ∷ ps) h = elim (Bool-cases (name == p.name)) [
  | inl here ↦ absurd (ground (arith, here))
  | inr other ↦ ground (arith, other, unnamed name ps (ground (arith, other)))
]

module _ (i : ℕ) (name : Text) (live : Bool) where
  ids-save : (ps : List Period) → ids (save_period i name live ps) ≡ ids ps
  unfolding save_period
  ids-save [] = refl
  ids-save (p ∷ ps) = ground (arith, ids-save ps)

  -- Only a period with the key gets the name.
  names-save :
      (x : Text) (ps : List Period)
      → elem x (names ps) ≡ false
      → ((x == name) ≡ false) ⊎ (elem i (ids ps) ≡ false)
      → elem x (names (save_period i name live ps)) ≡ false
  unfolding save_period
  names-save x [] h k = refl
  names-save x (p ∷ ps) h (inl k) = ground (arith, names-save x ps (ground arith) (inl k), k)
  names-save x (p ∷ ps) h (inr k) =
      ground (arith, names-save x ps (ground arith) (inr (ground arith)))

  -- The new name is nobody else's.
  abbrev Free : List Period → Type 0
  Free [] = Unit
  Free (p ∷ ps) = (((i == p.id) ≡ true) ⊎ ((name == p.name) ≡ false)) × Free ps

  Free-elem : (ps : List Period) → elem i (ids ps) ≡ false → Free ps → elem name (names ps) ≡ false
  Free-elem [] h f = refl
  Free-elem (p ∷ ps) h (inl here, f) = absurd (ground (arith, here))
  Free-elem (p ∷ ps) h (inr other, f) = ground (arith, other, Free-elem ps (ground arith) f)

  elem-Free : (ps : List Period) → elem name (names ps) ≡ false → Free ps
  elem-Free [] h = tt
  elem-Free (p ∷ ps) h = (inr (ground arith), elem-Free ps (ground arith))

  named-Free :
      (ps : List Period)
      → IsSimple (names ps)
      → ((q : Period) → period_named name ps ≡ some q → (q.id == i) ≡ true)
      → Free ps
  named-Free [] v h = tt
  named-Free (p ∷ ps) v h = elim (Bool-cases (name == p.name)) [
    | inl here ↦
        let mine : (p.id == i) ≡ true = h p (ground (arith, here)) in
        let same : name ≡ p.name = (text_eq_iff name p.name).0 here in
        (
          inl (ground (arith, mine, nat_eq_iff p.id i)),
          elem-Free ps (subst (λ x. elem x (names ps) ≡ false) (sym same) v.0),
        )
    | inr other ↦ (inr other, named-Free ps v.1 (λ q e. h q (ground (arith, other, e))))
  ]

  save-names :
      (ps : List Period)
      → IsSimple (ids ps)
      → IsSimple (names ps)
      → Free ps
      → IsSimple (names (save_period i name live ps))
  unfolding save_period
  save-names [] u v h = tt
  save-names (p ∷ ps) u v (k, h) = elim (Bool-cases (i == p.id)) [
    | inl here ↦
        let gone : elem i (ids ps) ≡ false = ground (arith, u.0, (nat_eq_iff i p.id).0 here) in
        rw here (names-save name ps (Free-elem ps gone h) (inr gone), save-names ps u.1 v.1 h)
    | inr other ↦ elim k [
      | inl here ↦ absurd (ground (arith, here, other))
      | inr new ↦
          let differs : (p.name == name) ≡ false =
            ground (arith, text_eq_iff name p.name, text_eq_iff p.name name, new) in
          rw other (names-save p.name ps v.0 (inl differs), save-names ps u.1 v.1 h)
    ]
  ]

new_period-IsDistinct :
    (new_id : List Period → ℕ) (name : Text) (t : Tables)
    → elem (new_id t.periods) (ids t.periods) ≡ false
    → IsDistinct t.periods
    → IsDistinct (new_period new_id name t).0.periods
unfolding new_period
new_period-IsDistinct new_id name t fresh (v, u) =
    let ps = t.periods in
    let p : Period = record { id = new_id ps; name = name; live = false } in
    elim (Option-cases (period_named name ps)) [
      | inr (q, old) ↦
          let same : t ≡ (new_period new_id name t).0 = ground (arith, old) in
          subst (λ s. IsDistinct s.periods) same (v, u)
      | inl new ↦
          let shape : new_period new_id name t ≡ (record t { periods = ps ++ p ∷ [] }, added) =
            ground (arith, new) in
          subst (λ s. IsDistinct s.0.periods) (sym shape)
            (
              subst IsSimple (sym (map-concat (λ q. q.name) ps p))
                  (IsSimple-concat (names ps) name (unnamed name ps new) v),
              subst IsSimple (sym (map-concat (λ q. q.id) ps p))
                  (IsSimple-concat (ids ps) (new_id ps) fresh u),
            )
    ]

delete_period-IsDistinct :
    (i : ℕ) (name : Option Text) (t : Tables)
    → IsDistinct t.periods
    → IsDistinct (delete_period i name t).0.periods
unfolding delete_period
delete_period-IsDistinct i name t (v, u) =
    let ps = t.periods in
    elim (Option-cases (period_with i ps)) [
      | inl missing ↦
          let same : t ≡ (delete_period i name t).0 = ground (arith, missing) in
          subst (λ s. IsDistinct s.periods) same (v, u)
      | inr (p, found) ↦ elim (Option-cases name) [
        | inl missing ↦
            let same : t ≡ (delete_period i name t).0 = ground (arith, found, missing) in
            subst (λ s. IsDistinct s.periods) same (v, u)
        | inr (n, given) ↦
            let left = filter (λ q. not (q.id == i)) ps in
            let shape : (delete_period i name t).0.periods ≡ left = ground (arith, found, given) in
            subst IsDistinct (sym shape) (
              IsSimple-filter (λ q. q.name) (λ q. not (q.id == i)) ps v,
              IsSimple-filter (λ q. q.id) (λ q. not (q.id == i)) ps u,
            )
      ]
    ]

update_period-IsDistinct :
    (i : ℕ) (name : Option Text) (live : Option Bool) (t : Tables)
    → IsDistinct t.periods
    → IsDistinct (update_period i name live t).0.periods
unfolding update_period
update_period-IsDistinct i none live t d = d
update_period-IsDistinct i (some name) none t d = d
update_period-IsDistinct i (some name) (some live) t (v, u) =
    let ps = t.periods in
    elim (Bool-cases (is_empty name)) [
      | inl empty ↦ rw empty (v, u)
      | inr named ↦ elim (Option-cases (period_with i ps)) [
        | inl missing ↦ rw (named, missing) (v, u)
        | inr (p, found) ↦ elim (Bool-cases (taken (period_named name ps) i)) [
          | inl other ↦ rw (named, found) (rw other (v, u))
          | inr mine ↦
              let free = named-Free i name live ps v (λ q e. own q e mine) in
              rw (named, found)
                (rw mine (
                  save-names i name live ps u v free,
                  subst IsSimple (sym (ids-save i name live ps)) u,
                ))
        ]
      ]
    ]
  where
    own :
        (q : Period)
        → period_named name t.periods ≡ some q
        → taken (period_named name t.periods) i ≡ false
        → (q.id == i) ≡ true
    own q e h = ground (arith, e, h)

-- If no two periods have one name or one key, and the database gives a new row a key that is not
-- in use, this stays so when a period is added, deleted or updated, whatever the form holds.
pub periods-IsDistinct :
    (new_id : List Period → ℕ) (i : ℕ) (new_name : Text) (name : Option Text) (live : Option Bool)
    (t : Tables)
    → elem (new_id t.periods) (ids t.periods) ≡ false
    → IsDistinct t.periods
    → IsDistinct (new_period new_id new_name t).0.periods
      × IsDistinct (delete_period i name t).0.periods
      × IsDistinct (update_period i name live t).0.periods
periods-IsDistinct new_id i new_name name live t fresh d = (
  new_period-IsDistinct new_id new_name t fresh d,
  delete_period-IsDistinct i name t d,
  update_period-IsDistinct i name live t d,
)
