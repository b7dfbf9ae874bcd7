-- ===== src/Matrix/Node/Tests.antt =====
-- A provider with one customer, and two ASes that are each other's customers.
use mini_internet_extention.Prelude.{
  ℕ, ◌≡◌, refl, ◌↔◌, ◌<◌, ◌≤◌, List, [], ◌∷◌, none, some, if◌then◌else◌, ◌==◌, Eq_nat, In, arith,
}
use mini_internet_extention.Policy.Closure.Correct.{Reach, one, more}
use mini_internet_extention.Matrix.Node.{queue_loop}
use mini_internet_extention.Matrix.Node.Queue.{sum, walks, queue_correct, queue_cycle_diverges}

abbrev below : ℕ → List ℕ
below n = if n == 1 then 2 ∷ [] else []

abbrev rank : ℕ → ℕ
rank n = if n == 1 then 1 else 0

falls : (x y : ℕ) → In y (below x) → rank y < rank x
falls x y h = ground arith

low : (x : ℕ) → rank x ≤ 1
low x = ground arith

enough : sum (walks below 1) (below 1) ≤ 1
unfolding walks
enough = ground arith

queue_correct_example :
    (r : List ℕ) × (queue_loop below 1 [] (below 1) ≡ some r) × ((x : ℕ) → In x r ↔ Reach below 1 x)
queue_correct_example = queue_correct below rank 1 1 1 falls low enough

abbrev cycle : ℕ → List ℕ
cycle n = if n == 1 then 2 ∷ [] else 1 ∷ []

around : Reach cycle 1 1
around = more (one {b = 2} refl) refl

queue_cycle_diverges_example : queue_loop cycle 100 [] (2 ∷ []) ≡ none
queue_cycle_diverges_example = queue_cycle_diverges cycle 1 100 around
