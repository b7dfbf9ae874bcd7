-- ===== src/Prelude/Words.antt =====
-- `split` and `join` of texts, and the words that come back.
use Prim.Native.Nat.{ℕ}
use mathlib.Core.Path.{◌≡◌, refl, sym, ap, ◌∙◌}
use mathlib.Core.Bool.{false}
use mathlib.Core.List.{List, [], ◌∷◌, ◌++◌, append-nil, append_assoc}
use mini_internet_extention.Prelude.Tests.{if◌then◌else◌, nat_eq, nat_eq_iff}
use mini_internet_extention.Prelude.Texts.{Text}

-- s.split(sep) with a separator of one character
unfoldable pub split_from : ℕ → Text → Text → List Text
split_from sep word [] = word ∷ []
split_from sep word (c ∷ s) =
    let next = split_from sep [] s in
    let more = split_from sep (word ++ c ∷ []) s in if nat_eq c sep then word ∷ next else more

unfoldable pub split : ℕ → Text → List Text
unfolding split_from
split sep s = split_from sep [] s

-- sep.join(words)
unfoldable pub join : ℕ → List Text → Text
join sep [] = []
join sep (w ∷ []) = w
join sep (w ∷ v ∷ ws) = w ++ sep ∷ join sep (v ∷ ws)

-- No separator within a word.
abbrev pub HasNo : ℕ → Text → Type 0
HasNo sep [] = Unit
HasNo sep (c ∷ s) = (nat_eq c sep ≡ false) × HasNo sep s

split_from-word : (sep : ℕ) (word w : Text) → HasNo sep w → split_from sep word w ≡ (word ++ w) ∷ []
unfolding split_from
split_from-word sep word [] h = ap (λ (x : Text). x ∷ []) (sym (append-nil word))
split_from-word sep word (c ∷ w) h = rw h.0 (
    split_from-word sep (word ++ c ∷ []) w h.1
    ∙ ap (λ (x : Text). x ∷ []) (append_assoc word (c ∷ []) w))

pub split_from-append :
    (sep : ℕ) (word w s : Text)
    → HasNo sep w
    → split_from sep word (w ++ sep ∷ s) ≡ (word ++ w) ∷ split_from sep [] s
unfolding split_from
split_from-append sep word [] s h =
    rw ((nat_eq_iff sep sep).1 refl)
      (ap (λ (x : Text). x ∷ split_from sep [] s) (sym (append-nil word)))
split_from-append sep word (c ∷ w) s h = rw h.0 (
    split_from-append sep (word ++ c ∷ []) w s h.1
    ∙ ap (λ (x : Text). x ∷ split_from sep [] s) (append_assoc word (c ∷ []) w))

abbrev pub AllHaveNo : ℕ → List Text → Type 0
AllHaveNo sep [] = Unit
AllHaveNo sep (w ∷ ws) = HasNo sep w × AllHaveNo sep ws

-- Words without the separator come back from their join.
pub split-join :
    (sep : ℕ) (w : Text) (ws : List Text)
    → AllHaveNo sep (w ∷ ws)
    → split sep (join sep (w ∷ ws)) ≡ w ∷ ws
unfolding split join
split-join sep w [] h = split_from-word sep [] w h.0
split-join sep w (v ∷ ws) h =
    split_from-append sep [] w (join sep (v ∷ ws)) h.0
    ∙ ap (λ (x : List Text). w ∷ x) (split-join sep v ws h.1)
