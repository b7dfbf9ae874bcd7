-- ===== src/Portal/Booking/Guards.antt =====
-- What a team's request can change.
use mini_internet_extention.Prelude.{
  ℕ, ◌+◌, ◌≤◌, ◌≡◌, refl, sym, ap, subst, ◌∙◌, ◌⊎◌, inl, inr, true, false, Option, none, some, List,
  [], ◌∷◌, ◌==◌, Eq_nat, nat_eq_iff, ok, if◌then◌else◌, Bool-cases, Option-cases, ltb, arith,
}
use mini_internet_extention.Portal.Db.{Rendezvous, rendezvous_with, assign_team}
use mini_internet_extention.Portal.Booking.{
  Form, Flash, team_is, truthy, cancel_rendezvous, book_rendezvous, post_rendezvous,
}

rendezvous_with-assign :
    (i j : ℕ) (team : Option ℕ) (r : Rendezvous) (rends : List Rendezvous)
    → rendezvous_with i rends ≡ some r
    → rendezvous_with j (assign_team i team rends)
      ≡ (if j == i then some (record r { team = team }) else rendezvous_with j rends)
unfolding assign_team
rendezvous_with-assign i j team r [] h = absurd (ground arith)
rendezvous_with-assign i j team r (s ∷ rs) h = elim (Bool-cases (i == s.id)) [
  | inl here ↦ ground (arith, here)
  | inr below ↦ ground (arith, below, rendezvous_with-assign i j team r rs (ground (arith, below)))
]

rendezvous_with-id :
    (i : ℕ) (r : Rendezvous) (rends : List Rendezvous) → rendezvous_with i rends ≡ some r → r.id ≡ i
rendezvous_with-id i r [] h = absurd (ground arith)
rendezvous_with-id i r (s ∷ rs) h = elim (Bool-cases (i == s.id)) [
  | inl here ↦ let same : s ≡ r = ground (arith, here) in ground (arith, same, here)
  | inr below ↦ rendezvous_with-id i r rs (ground (arith, below))
]

-- The team may free this rendezvous.
abbrev pub MayCancel : ℕ → ℕ → ℕ → Rendezvous → Type 0
MayCancel block now asn r = (now + block ≤ r.datetime) × (r.team ≡ some asn)

-- The rendezvous may be taken.
abbrev pub MayBook : ℕ → Rendezvous → Type 0
MayBook now r = (now ≤ r.datetime) × (truthy r.team ≡ false)

-- What becomes of the rendezvous `r` with the key `j`: nothing, or its team changes as the request
-- says, within these limits.
abbrev pub Guarded : ℕ → ℕ → ℕ → Form → ℕ → Rendezvous → List Rendezvous → Type 0
Guarded block now asn form j r after =
    (rendezvous_with j after ≡ some r)
    ⊎ ((team : Option ℕ) × (rendezvous_with j after ≡ some (record r { team = team }))
        × (form.rend_id ≡ some j)
        × (((form.cancel ≡ true) × (team ≡ none) × MayCancel block now asn r)
            ⊎ ((form.cancel ≡ false) × (team ≡ form.team_asn) × MayBook now r)))

team_is_iff : (team : Option ℕ) (asn : ℕ) → team_is team asn ≡ true → team ≡ some asn
team_is_iff none asn h = absurd (ground arith)
team_is_iff (some t) asn h = ground (arith, nat_eq_iff t asn)

-- Assigning a team to the first row with the key `i` changes the row that a query for `j` finds
-- only if the keys are equal.
assign_cases :
    (i j : ℕ) (team : Option ℕ) (q r : Rendezvous) (rends : List Rendezvous)
    → rendezvous_with i rends ≡ some q
    → rendezvous_with j rends ≡ some r
    → (rendezvous_with j (assign_team q.id team rends) ≡ some r)
      ⊎ ((j ≡ i)
          × (q ≡ r)
          × (rendezvous_with j (assign_team q.id team rends) ≡ some (record r { team = team })))
assign_cases i j team q r rends hi hj =
    let key = rendezvous_with-id i q rends hi in
    let after =
      subst
        (λ k.
          rendezvous_with j (assign_team k team rends)
          ≡ (if j == i then some (record q { team = team }) else rendezvous_with j rends))
        (sym key) (rendezvous_with-assign i j team q rends hi) in
    elim (Bool-cases (j == i)) [
      | inl same ↦
          let e : j ≡ i = (nat_eq_iff j i).0 same in
          let f : q ≡ r = ground (arith, hi, rw e at hj) in
          inr (e, f, after ∙ rw same (ap {A = Rendezvous} (λ x. some (record x { team = team })) f))
      | inr other ↦ inl (after ∙ rw other hj)
    ]

module _ (block now asn : ℕ) (form : Form) where
  cancel-Guarded :
      (i j : ℕ) (q r : Rendezvous) (rends : List Rendezvous)
      → form.rend_id ≡ some i
      → form.cancel ≡ true
      → rendezvous_with i rends ≡ some q
      → rendezvous_with j rends ≡ some r
      → Guarded block now asn form j r (cancel_rendezvous block now asn q rends).0
  unfolding cancel_rendezvous
  cancel-Guarded i j q r rends fi fc hi hj = elim (Bool-cases (ltb q.datetime (now + block))) [
    | inl late ↦ inl (rw late hj)
    | inr early ↦ elim (Bool-cases (ltb q.datetime now)) [
      | inl past ↦ inl (rw (early, past) hj)
      | inr coming ↦ elim (Bool-cases (team_is q.team asn)) [
        | inr other ↦ inl (rw (early, coming) (rw other hj))
        | inl mine ↦
            let own = team_is_iff q.team asn mine in
            rw (early, coming)
              (rw mine (
                rw own (elim (assign_cases i j none q r rends hi hj) [
                  | inl same ↦ inl same
                  | inr (e, f, g) ↦ inr (
                    none,
                    g,
                    fi ∙ ap some (sym e),
                    inl (
                      fc,
                      refl,
                      (
                        subst (λ x. now + block ≤ x.datetime) f (ground (arith, early)),
                        ap (λ x. x.team) (sym f) ∙ own,
                      ),
                    ),
                  )
                ])))
      ]
    ]
  ]

  book-Guarded :
      (i j t : ℕ) (q r : Rendezvous) (rends : List Rendezvous)
      → form.rend_id ≡ some i
      → form.cancel ≡ false
      → form.team_asn ≡ some t
      → rendezvous_with i rends ≡ some q
      → rendezvous_with j rends ≡ some r
      → Guarded block now asn form j r (book_rendezvous block now asn q t rends).0
  unfolding book_rendezvous
  book-Guarded i j t q r rends fi fc ft hi hj = elim (Bool-cases (ltb q.datetime now)) [
    | inl past ↦ inl (rw past hj)
    | inr coming ↦ elim (Bool-cases (team_is q.team asn)) [
      | inl mine ↦ inl (rw (coming, mine) hj)
      | inr other ↦ elim (Bool-cases (truthy q.team)) [
        | inl taken ↦ inl (rw (coming, other) (rw taken hj))
        | inr free ↦
            rw (coming, other)
              (rw free (elim (assign_cases i j (some t) q r rends hi hj) [
                | inl same ↦ inl same
                | inr (e, f, g) ↦ inr (
                  some t,
                  g,
                  fi ∙ ap some (sym e),
                  inr (
                    fc,
                    sym ft,
                    (
                      subst (λ x. now ≤ x.datetime) f (ground (arith, coming)),
                      subst (λ x. truthy x.team ≡ false) f free,
                    ),
                  ),
                )
              ]))
      ]
    ]
  ]

-- If a team's request is answered, each rendezvous stays as it was, but for the team of the one
-- that the request names; a request to cancel frees it only if it is the team's own and starts no
-- sooner than the blocking time from now; a request to book gives it to the team of the form only
-- if it is free and has not begun.
pub post_rendezvous-Guarded :
    (block now asn : ℕ) (form : Form) (rends after : List Rendezvous) (flash : Option Flash) (j : ℕ)
    (r : Rendezvous)
    → post_rendezvous block now asn form rends ≡ ok (after, flash)
    → rendezvous_with j rends ≡ some r
    → Guarded block now asn form j r after
unfolding post_rendezvous
post_rendezvous-Guarded block now asn form rends after flash j r e hj =
    elim (Option-cases form.rend_id) [
      | inl nothing ↦ let same : rends ≡ after = ground (arith, nothing) in inl (rw (← same) hj)
      | inr (i, fi) ↦ elim (Bool-cases form.cancel) [
        | inl fc ↦ elim (Option-cases (rendezvous_with i rends)) [
          | inl missing ↦ absurd (ground (arith, fi, fc, missing))
          | inr (q, hi) ↦
              let same : (cancel_rendezvous block now asn q rends).0 ≡ after =
                ground (arith, fi, fc, hi) in
              subst (Guarded block now asn form j r) same
                (cancel-Guarded block now asn form i j q r rends fi fc hi hj)
        ]
        | inr fc ↦ elim (Option-cases form.team_asn) [
          | inl nobody ↦
              let same : rends ≡ after = ground (arith, fi, fc, nobody) in inl (rw (← same) hj)
          | inr (t, ft) ↦ elim (Option-cases (rendezvous_with i rends)) [
            | inl missing ↦ absurd (ground (arith, fi, fc, ft, missing))
            | inr (q, hi) ↦
                let same : (book_rendezvous block now asn q t rends).0 ≡ after =
                  ground (arith, fi, fc, ft, hi) in
                subst (Guarded block now asn form j r) same
                  (book-Guarded block now asn form i j t q r rends fi fc ft hi hj)
          ]
        ]
      ]
    ]
