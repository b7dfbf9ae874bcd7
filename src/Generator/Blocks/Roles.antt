-- ===== src/Generator/Blocks/Roles.antt =====
-- Whatever the topology, the roles of each printed connection match.
use mini_internet_extention.Prelude.{
  ℕ, suc, ◌≡◌, refl, Bool, true, ◌&&◌, ◌||◌, String, List, [], ◌∷◌, ◌++◌, all, all-append, arith,
  ◌==◌, Eq_nat, Eq_string, Result, ok, err, ◌>>=◌,
}
use mini_internet_extention.Generator.{Call}
use mini_internet_extention.Generator.Topology.{Topology, Error}
use mini_internet_extention.Generator.Blocks.{
  tier1_left, tier1_right, tier1_blocks, transit_as, transit_loop, transit_blocks, stub_block,
  stub_blocks, calls,
}

-- The pairs of roles that print_connection is given.
abbrev pub roles_match : Call → Bool
roles_match c =
    c.type1 == "Provider" && c.type2 == "Customer" || c.type1 == "Peer" && c.type2 == "Peer"

abbrev Match : List Call → Type 0
Match cs = all roles_match cs ≡ true

tier1_left-Match :
    (t : Topology) (n : ℕ) (b : List ℕ) (cs : List Call) → tier1_left t n b ≡ ok cs → Match cs
unfolding tier1_left
tier1_left-Match t n b cs h = ground arith

tier1_right-Match :
    (t : Topology) (n : ℕ) (b : List ℕ) (cs : List Call) → tier1_right t n b ≡ ok cs → Match cs
unfolding tier1_right
tier1_right-Match t n b cs h = ground arith

transit_as-Match :
    (t : Topology) (n i a : ℕ) (b : List ℕ) (s r : String) (cs : List Call)
    → transit_as t n b s r i a ≡ ok cs
    → Match cs
unfolding transit_as
transit_as-Match t n i a b s r cs h = ground arith

stub_block-Match :
    (t : Topology) (n : ℕ) (b : List ℕ) (cs : List Call) → stub_block t n b ≡ ok cs → Match cs
unfolding stub_block
stub_block-Match t n b cs h = ground arith

Match-append : (cs ds : List Call) → Match cs → Match ds → Match (cs ++ ds)
Match-append cs ds h k = ground (arith, all-append roles_match cs ds)

-- What a computation with a result has computed first.
bind_ok :
    {A B : Type 0} (m : Result Error A) (f : A → Result Error B) (b : B)
    → (m >>= f) ≡ ok b
    → (a : A) × (m ≡ ok a) × (f a ≡ ok b)
bind_ok (ok a) f b h = (a, refl, h)
bind_ok (err e) f b h = absurd (ground arith)

abbrev MatchIfOk : Result Error (List Call) → Type 0
MatchIfOk m = (ds : List Call) → m ≡ ok ds → Match ds

-- Two computations whose calls are put together, and three.
both_match :
    (m n : Result Error (List Call))
    → MatchIfOk m
    → MatchIfOk n
    → MatchIfOk (m >>= λ xs. n >>= λ ys. ok (xs ++ ys))
both_match m n hm hn cs h =
    let (xs, e, k) = bind_ok m (λ xs. n >>= λ ys. ok (xs ++ ys)) cs h in
    let (ys, e', k') = bind_ok n (λ ys. ok (xs ++ ys)) cs k in
    ground (arith, Match-append xs ys (hm xs e) (hn ys e'))

three_match :
    (l m n : Result Error (List Call))
    → MatchIfOk l
    → MatchIfOk m
    → MatchIfOk n
    → MatchIfOk (l >>= λ xs. m >>= λ ys. n >>= λ zs. ok (xs ++ ys ++ zs))
three_match l m n hl hm hn cs h =
    let (xs, e, k) = bind_ok l (λ xs. m >>= λ ys. n >>= λ zs. ok (xs ++ ys ++ zs)) cs h in
    let (ys, e', k') = bind_ok m (λ ys. n >>= λ zs. ok (xs ++ ys ++ zs)) cs k in
    let (zs, e1, k1) = bind_ok n (λ zs. ok (xs ++ ys ++ zs)) cs k' in
    ground
      (arith, k1, Match-append (xs ++ ys) zs (Match-append xs ys (hl xs e) (hm ys e')) (hn zs e1))

tier1_blocks-Match : (t : Topology) (n : ℕ) (bs : List (List ℕ)) → MatchIfOk (tier1_blocks t n bs)
unfolding tier1_blocks
tier1_blocks-Match t n [] = λ cs h. ground arith
tier1_blocks-Match t n (b ∷ bs) =
    three_match (tier1_left t n b) (tier1_right t n b) (tier1_blocks t (suc n) bs)
      (tier1_left-Match t n b) (tier1_right-Match t n b) (tier1_blocks-Match t (suc n) bs)

transit_loop-Match :
    (t : Topology) (n : ℕ) (b : List ℕ) (s r : String) (i : ℕ) (ases : List ℕ)
    → MatchIfOk (transit_loop t n b s r i ases)
unfolding transit_loop
transit_loop-Match t n b s r i [] = λ cs h. ground arith
transit_loop-Match t n b s r i (a ∷ ases) =
    both_match (transit_as t n b s r i a) (transit_loop t n b s r (suc i) ases)
      (transit_as-Match t n i a b s r) (transit_loop-Match t n b s r (suc i) ases)

transit_blocks-Match :
    (t : Topology) (n : ℕ) (bs : List (List ℕ)) → MatchIfOk (transit_blocks t n bs)
unfolding transit_blocks
transit_blocks-Match t n [] = λ cs h. ground arith
transit_blocks-Match t n (b ∷ bs) =
    three_match _ _ (transit_blocks t (suc n) bs) (transit_loop-Match t n b _ _ _ _)
      (transit_loop-Match t n b _ _ _ _) (transit_blocks-Match t (suc n) bs)

stub_blocks-Match : (t : Topology) (n : ℕ) (bs : List (List ℕ)) → MatchIfOk (stub_blocks t n bs)
unfolding stub_blocks
stub_blocks-Match t n [] = λ cs h. ground arith
stub_blocks-Match t n (b ∷ bs) =
    both_match (stub_block t n b) (stub_blocks t (suc n) bs) (stub_block-Match t n b)
      (stub_blocks-Match t (suc n) bs)

-- The roles of the two ends of each call match.
pub calls_match : (t : Topology) (cs : List Call) → calls t ≡ ok cs → all roles_match cs ≡ true
unfolding calls
calls_match t =
    three_match (tier1_blocks t 0 t.tier1) (transit_blocks t 0 t.transit)
      (stub_blocks t 0 t.transit) (tier1_blocks-Match t 0 t.tier1)
      (transit_blocks-Match t 0 t.transit) (stub_blocks-Match t 0 t.transit)
