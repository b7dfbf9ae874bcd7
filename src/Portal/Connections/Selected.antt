-- ===== src/Portal/Connections/Selected.antt =====
-- Which connections are shown.
use mini_internet_extention.Prelude.{
  ℕ, ◌≡◌, refl, ap, subst, sym, ◌∙◌, ◌↔◌, ◌⊎◌, inl, inr, Bool, true, false, Option, List, [], ◌∷◌,
  Bool-cases, arith,
}
use mini_internet_extention.Policy.Collect.{Has}
use mini_internet_extention.Portal.Connections.{SideOf, check_as, selected_connections}

-- A connection is shown as (a, b) exactly if the groups fit it so, and it is in the file either
-- so, or the other way round where the groups do not fit that way round.
pub selected_connections_correct :
    {A : Type 0} (group othergroup : Option ℕ) (connections : List (SideOf A × SideOf A))
    (a b : SideOf A)
    → Has (a, b) (selected_connections group othergroup connections) ↔ (
        (check_as group othergroup a b ≡ true)
        × (Has (a, b) connections
            ⊎ (Has (b, a) connections × (check_as group othergroup b a ≡ false))))
unfolding selected_connections
selected_connections_correct group othergroup [] a b =
    (λ h. absurd h, λ (e, h). elim h [ inl w ↦ absurd w | inr (w, _) ↦ absurd w ])
selected_connections_correct {A} group othergroup ((x, y) ∷ rest) a b =
    let (to, from) = selected_connections_correct group othergroup rest a b in
    elim (Bool-cases (check_as group othergroup x y)) [
      | inl straight ↦
          let shape : selected_connections group othergroup ((x, y) ∷ rest)
              ≡ (x, y) ∷ selected_connections group othergroup rest =
            rw straight refl in
          (
            λ h. elim (subst (Has (a, b)) shape h) [
              | inl e ↦ (ap here e ∙ straight, inl (inl e))
              | inr k ↦ later (to k)
            ],
            λ (e, h). rw straight (elim h [
              | inl k ↦ elim k [ inl same ↦ inl same | inr below ↦ inr (from (e, inl below)) ]
              | inr (k, n) ↦ elim k [
                | inl turned ↦
                    absurd
                      (opposite (check_as group othergroup x y) straight (sym (ap here turned) ∙ n))
                | inr below ↦ inr (from (e, inr (below, n)))
              ]
            ]),
          )
      | inr crooked ↦ elim (Bool-cases (check_as group othergroup y x)) [
        | inl turn ↦
            let shape : selected_connections group othergroup ((x, y) ∷ rest)
                ≡ (y, x) ∷ selected_connections group othergroup rest =
              rw (crooked, turn) refl in
            (
              λ h. elim (subst (Has (a, b)) shape h) [
                | inl e ↦
                    let back : (b, a) ≡ (x, y) = ap flip e in
                    (ap here e ∙ turn, inr (inl back, ap here back ∙ crooked))
                | inr k ↦ later (to k)
              ],
              λ (e, h).
                  rw (crooked, turn)
                    (elim h [
                      | inl k ↦ elim k [
                        | inl same ↦ absurd (
                            opposite (check_as group othergroup x y) (sym (ap here same) ∙ e)
                              crooked)
                        | inr below ↦ inr (from (e, inl below))
                      ]
                      | inr (k, n) ↦ elim k [
                        | inl turned ↦ inl (ap flip turned)
                        | inr below ↦ inr (from (e, inr (below, n)))
                      ]
                    ]),
            )
        | inr other ↦
            let shape : selected_connections group othergroup ((x, y) ∷ rest)
                ≡ selected_connections group othergroup rest =
              rw (crooked, other) refl in
            (
              λ h. later (to (subst (Has (a, b)) shape h)),
              λ (e, h).
                  rw (crooked, other)
                    (from (
                      e,
                      elim h [
                        | inl k ↦ elim k [
                          | inl same ↦ absurd (
                              opposite (check_as group othergroup x y) (sym (ap here same) ∙ e)
                                crooked)
                          | inr below ↦ inl below
                        ]
                        | inr (k, n) ↦ elim k [
                          | inl turned ↦ absurd (
                              opposite (check_as group othergroup y x)
                                (sym (ap here (ap flip turned)) ∙ e) other)
                          | inr below ↦ inr (below, n)
                        ]
                      ],
                    )),
            )
      ]
    ]
  where
    here : SideOf A × SideOf A → Bool
    here (p, q) = check_as group othergroup p q

    flip : SideOf A × SideOf A → SideOf A × SideOf A
    flip (p, q) = (q, p)

    opposite : (c : Bool) → c ≡ true → c ≡ false → ⊥
    opposite c u v = ground arith

    Shown : List (SideOf A × SideOf A) → Type 0
    Shown cs =
        (check_as group othergroup a b ≡ true)
        × (Has (a, b) cs ⊎ (Has (b, a) cs × (check_as group othergroup b a ≡ false)))

    later : Shown rest → Shown ((x, y) ∷ rest)
    later (e, h) = (e, elim h [ inl k ↦ inl (inr k) | inr (k, n) ↦ inr (inr k, n) ])
