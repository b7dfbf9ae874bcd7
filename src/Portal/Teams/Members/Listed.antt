-- ===== src/Portal/Teams/Members/Listed.antt =====
-- Members as a test, and what saving a team leaves in the table.
use mini_internet_extention.Prelude.{
  ℕ, ◌≡◌, refl, sym, ap, subst, ◌∙◌, ◌⊎◌, inl, inr, ◌↔◌, Bool, true, false, ◌||◌, Option, none,
  some, List, [], ◌∷◌, ◌==◌, Eq_nat, nat_eq_iff, Bool-cases, arith,
}
use mini_internet_extention.Policy.Collect.{Has}
use mini_internet_extention.Portal.Db.{Team, team_with, save_team}
use mini_internet_extention.Portal.Teams.{Member, same, members, rearrange}

-- Membership as a test.
abbrev pub listed : ℕ → List Member → Bool
listed i [] = false
listed i (m ∷ ms) = same (some i) m || listed i ms

pub listed-Has : (i : ℕ) (ms : List Member) → Has (some i) ms ↔ (listed i ms ≡ true)
listed-Has i [] = (λ h. absurd h, λ e. absurd (ground arith))
listed-Has i (none ∷ ms) =
    let (to, from) = listed-Has i ms in
    (λ h. elim h [ inl e ↦ absurd (ground arith) | inr k ↦ to k ], λ e. inr (from e))
listed-Has i (some a ∷ ms) =
    let (to, from) = listed-Has i ms in
    (
      λ h. elim h [
        | inl e ↦ let f : i ≡ a = ground arith in ground (arith, f)
        | inr k ↦ let l = to k in ground (arith, l)
      ],
      λ e. elim (Bool-cases (i == a)) [
        | inl here ↦ inl (ap some ((nat_eq_iff i a).0 here))
        | inr other ↦ inr (from (ground (arith, other)))
      ],
    )

-- Moving the members up loses none of them.
pub rearrange-listed :
    (i : ℕ) (t : Team) → listed i (members t) ≡ true → listed i (members (rearrange t)) ≡ true
unfolding rearrange
rearrange-listed i t h = go t.member1 t.member2 t.member3 t.member4 refl refl refl refl
  where
    go :
        (a b c d : Member)
        → t.member1 ≡ a
        → t.member2 ≡ b
        → t.member3 ≡ c
        → t.member4 ≡ d
        → listed i (members (rearrange t)) ≡ true
    go none none none d p q r s = ground (arith, h, p, q, r, s)
    go none none (some c) d p q r s = ground (arith, h, p, q, r, s)
    go none (some b) none d p q r s = ground (arith, h, p, q, r, s)
    go none (some b) (some c) d p q r s = ground (arith, h, p, q, r, s)
    go (some a) none none d p q r s = ground (arith, h, p, q, r, s)
    go (some a) none (some c) d p q r s = ground (arith, h, p, q, r, s)
    go (some a) (some b) none d p q r s = ground (arith, h, p, q, r, s)
    go (some a) (some b) (some c) d p q r s = ground (arith, h, p, q, r, s)

pub save_team-Has :
    (t u : Team) (teams : List Team)
    → Has t (save_team u teams)
    → (t ≡ u) ⊎ (Has t teams × ((t.asn == u.asn) ≡ false))
unfolding save_team
save_team-Has t u [] h = absurd h
save_team-Has t u (x ∷ xs) (inl e) = elim (Bool-cases (x.asn == u.asn)) [
  | inl here ↦ inl (e ∙ rw here refl)
  | inr other ↦
      let f : t ≡ x = e ∙ rw other refl in
      inr (inl f, subst (λ z. (z.asn == u.asn) ≡ false) (sym f) other)
]
save_team-Has t u (x ∷ xs) (inr h) = elim (save_team-Has t u xs h) [
  | inl e ↦ inl e
  | inr (k, n) ↦ inr (inr k, n)
]

pub team_with-Has :
    (asn : ℕ) (team : Team) (teams : List Team)
    → team_with asn teams ≡ some team
    → (team.asn ≡ asn) × Has team teams
team_with-Has asn team [] e = absurd (ground arith)
team_with-Has asn team (x ∷ xs) e = elim (Bool-cases (asn == x.asn)) [
  | inl here ↦
      let f : team ≡ x = ground (arith, here) in
      (ap (λ z. z.asn) f ∙ sym ((nat_eq_iff asn x.asn).0 here), inl f)
  | inr other ↦ let (a, h) = team_with-Has asn team xs (ground (arith, other)) in (a, inr h)
]

pub no_team : (o : Option ℕ) (n : ℕ) → o ≡ none → o ≡ some n → ⊥
no_team o n a b = ground arith

pub clash : (o : Option ℕ) (a b : ℕ) → o ≡ some a → o ≡ some b → (b == a) ≡ false → ⊥
clash o a b p q n = ground (arith, nat_eq_iff b a)

pub unlisted : (o : Option ℕ) (a : ℕ) → o ≡ some a → same o (some a) ≡ false → ⊥
unlisted o a p q = ground (arith, p, nat_eq_iff a a)
