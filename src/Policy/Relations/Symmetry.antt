-- ===== src/Policy/Relations/Symmetry.antt =====
-- Both ends of a link see one relationship, from the two sides.
use mini_internet_extention.Prelude.{
  ℕ, ◌≡◌, refl, sym, ◌∙◌, Bool, ◌&&◌, ◌||◌, List, [], ◌∷◌, map, arith, ◌==◌, Eq_nat, nat_eq_iff,
  Result, ok, err, any, elem, IsSimple, IsSimple-distinct, elem-distinct, elem-select, any-append,
  any-map, any_congr,
}
use mini_internet_extention.Policy.Config.{Error, Link, Config, flip, all_links, ixps}
use mini_internet_extention.Policy.Relations.{
  Relationship, rel_eq_iff, Eq_rel, relationship_of, between, has_path_via_ixp, relationship_rows,
  only_relationship, get_relationship,
}

-- The relationship as the other side sees it.
abbrev pub swap : Relationship → Relationship
swap r = record { from = r.to; to = r.from }

abbrev pub map_result : Result Error Relationship → Result Error Relationship
map_result (ok r) = ok (swap r)
map_result (err e) = err e

module _ (c : Config) where
  -- A test of the rows of `all_links` may as well be made on the other ends.
  pub any-all_links : (p : Link → Bool) → any p (all_links c) ≡ any (λ l. p (flip l)) (all_links c)
  unfolding all_links
  any-all_links p = ground (
    arith,
    any-append p c.links (map flip c.links),
    any-append (λ l. p (flip l)) c.links (map flip c.links),
    any-map p flip c.links,
    any-map (λ l. p (flip l)) flip c.links,
  )

  pub elem-rows :
      (f t : ℕ) (r : Relationship)
      → elem r (relationship_rows c f t)
        ≡ any (λ l. between f t l && r == relationship_of l) (all_links c)
  unfolding relationship_rows
  elem-rows f t r = elem-distinct r _ ∙ elem-select r relationship_of (between f t) (all_links c)

  elem-rows_swap :
      (f t : ℕ) (r : Relationship)
      → elem r (relationship_rows c f t) ≡ elem (swap r) (relationship_rows c t f)
  elem-rows_swap f t r =
      elem-rows f t r
      ∙ any-all_links (λ l. between f t l && r == relationship_of l)
      ∙ any_congr (λ l. between f t (flip l) && r == relationship_of (flip l))
          (λ l. between t f l && swap r == relationship_of l) (all_links c) (λ l. ground arith)
      ∙ sym (elem-rows t f (swap r))

  IsSimple-rows : (f t : ℕ) → IsSimple (relationship_rows c f t)
  unfolding relationship_rows
  IsSimple-rows f t = IsSimple-distinct _

  abbrev meets : ℕ → ℕ → Link → Link → Bool
  meets f t a b = a.t_as == b.f_as && elem a.t_as (ixps c) && a.f_as == f && b.t_as == t

  any_swap :
      (p : Link → Link → Bool) (xs ys : List Link)
      → any (λ a. any (λ b. p a b) ys) xs ≡ any (λ b. any (λ a. p a b) xs) ys
  any_swap p [] [] = refl
  any_swap p [] (y ∷ ys) = any_swap p [] ys
  any_swap p (x ∷ xs) ys =
      sym (or_any (λ b. p x b) (λ b. any (λ a. p a b) xs) ys ∙ (rw (any_swap p xs ys)))
    where
      or_any :
          (q r : Link → Bool) (zs : List Link) → any (λ b. q b || r b) zs ≡ (any q zs || any r zs)
      or_any q r [] = refl
      or_any q r (z ∷ zs) = ground (arith, or_any q r zs)

  via_swap : (f t : ℕ) → has_path_via_ixp c f t ≡ has_path_via_ixp c t f
  unfolding has_path_via_ixp
  via_swap f t =
      any-all_links (λ a. any (meets f t a) (all_links c))
      ∙ any_congr (λ a. any (meets f t (flip a)) (all_links c))
          (λ a. any (λ b. meets f t (flip a) (flip b)) (all_links c)) (all_links c)
          (λ a. any-all_links (meets f t (flip a)))
      ∙ any_swap (λ a b. meets f t (flip a) (flip b)) (all_links c) (all_links c)
      ∙ any_congr (λ b. any (λ a. meets f t (flip a) (flip b)) (all_links c))
          (λ b. any (meets t f b) (all_links c)) (all_links c)
          (λ b.
            any_congr (λ a. meets f t (flip a) (flip b)) (meets t f b) (all_links c)
              (λ a. turned a b))
    where
      turned : (a b : Link) → meets f t (flip a) (flip b) ≡ meets t f b a
      turned a b = ground (arith, nat_eq_iff a.f_as b.t_as, nat_eq_iff b.t_as a.f_as)

  classify :
      (via : Bool) (xs ys : List Relationship)
      → IsSimple xs
      → IsSimple ys
      → ((r : Relationship) → elem r xs ≡ elem (swap r) ys)
      → only_relationship c via ys ≡ map_result (only_relationship c via xs)
  unfolding only_relationship
  classify via [] [] u v h = ground arith
  classify via [] (y ∷ ys) u v h = ground (arith, h (swap y), rel_eq_iff y y)
  classify via (x ∷ xs) [] u v h = ground (arith, h x, rel_eq_iff x x)
  classify via (x ∷ []) (y ∷ []) u v h = ground (arith, h x, rel_eq_iff x x, rel_eq_iff (swap x) y)
  classify via (x ∷ []) (y ∷ y' ∷ ys) u v h = ground (
    arith,
    h (swap y),
    h (swap y'),
    rel_eq_iff y y,
    rel_eq_iff y' y',
    rel_eq_iff (swap y) x,
    rel_eq_iff (swap y') x,
    rel_eq_iff y y',
  )
  classify via (x ∷ x' ∷ xs) (y ∷ []) u v h = ground (
    arith,
    h x,
    h x',
    rel_eq_iff x x,
    rel_eq_iff x' x',
    rel_eq_iff (swap x) y,
    rel_eq_iff (swap x') y,
    rel_eq_iff x x',
  )
  classify via (x ∷ x' ∷ xs) (y ∷ y' ∷ ys) u v h = refl

-- The relationship from t to f is the one from f to t with its roles exchanged; an error, and the
-- peering that a common IXP gives, are the same both ways.
pub get_relationship_symmetric :
    (c : Config) (f t : ℕ) → get_relationship c t f ≡ map_result (get_relationship c f t)
unfolding get_relationship
get_relationship_symmetric c f t = rw (via_swap c t f) (
    classify c (has_path_via_ixp c f t) (relationship_rows c f t) (relationship_rows c t f)
      (IsSimple-rows c f t) (IsSimple-rows c t f) (elem-rows_swap c f t))
