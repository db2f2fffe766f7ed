-- ===== src/Vmm/Tree/Search/Under.antt =====
-- avl_below of avl_tree.c finds the range that ends at an address, as far as an int can tell.
use gapxos.Base.{
  ℕ, ◌+◌, ◌*◌, ◌^◌, ◌≤◌, ◌<◌, ◌≡◌, ◌≢◌, refl, Option, none, some, List, [], ◌∷◌, ◌++◌, arith, ◌==◌,
  if◌then◌else◌, inl, inr, compare-cases,
}
use gapxos.Vmm.Tree.{AvlNode, Tree, null, node}
use gapxos.Vmm.Tree.Order.{entries}
use gapxos.Vmm.Tree.Search.{if_there, diff, avl_below}
use gapxos.Vmm.Tree.Search.Tiling.{end_of, IsTiling, Tiling-le, Tiling-split}

-- The range of the list that ends at a.
unfoldable pub find_end : ℕ → List AvlNode → Option AvlNode
find_end a [] = none
find_end a (n ∷ ns) = if end_of n == a then some n else find_end a ns

find_end-after :
    (a b : ℕ) (ns : List AvlNode) (e : ℕ) → IsTiling b ns e → a ≤ b → find_end a ns ≡ none
unfolding find_end
find_end-after a b [] e t h = refl
find_end-after a b (n ∷ ns) e t h = ground (arith, find_end-after a (end_of n) ns e t.2)

find_end-left :
    (a : ℕ) (xs ys : List AvlNode) → find_end a ys ≡ none → find_end a (xs ++ ys) ≡ find_end a xs
unfolding find_end
find_end-left a [] ys h = h
find_end-left a (x ∷ xs) ys h = ground (arith, find_end-left a xs ys h)

find_end-right :
    (a b : ℕ) (xs : List AvlNode) (m : ℕ) (ys : List AvlNode)
    → IsTiling b xs m
    → m < a
    → find_end a (xs ++ ys) ≡ find_end a ys
unfolding find_end
find_end-right a b [] m ys t h = refl
find_end-right a b (x ∷ xs) m ys t h =
    ground (arith, find_end-right a (end_of x) xs m ys t.2, Tiling-le (end_of x) xs m t.2)

below-there :
    (t : Tree) (a : ℕ)
    → (t ≢ null → avl_below t a ≡ some (find_end a (entries t)))
    → if_there t (avl_below t a) ≡ some (find_end a (entries t))
unfolding find_end
below-there null a h = refl
below-there (node n h l r) a found = found (λ e. ground arith)

diff_behind :
    (a : ℕ) (n : AvlNode)
    → end_of n < 2 ^ 64
    → a < end_of n
    → end_of n < a + 2 ^ 31
    → 2 ^ 31 ≤ diff a n
unfolding diff
diff_behind a n top less near = omega arith

diff_at : (a : ℕ) (n : AvlNode) → end_of n < 2 ^ 64 → a ≡ end_of n → diff a n ≡ 0
unfolding diff
diff_at a n top same = omega arith

diff_ahead :
    (a : ℕ) (n : AvlNode)
    → end_of n < 2 ^ 64
    → end_of n < a
    → a < end_of n + 2 ^ 31
    → (0 < diff a n) × (diff a n < 2 ^ 31)
unfolding diff
diff_ahead a n top more near = omega arith

-- Where the ranges fill [b, e) below 2^64 and everything is less than 2 GiB from the address,
-- avl_below returns the range that ends at the address, and NULL if there is none.
pub avl_below_lem :
    (t : Tree) (a b e : ℕ)
    → IsTiling b (entries t) e
    → e < 2 ^ 64
    → a < b + 2 ^ 31
    → e < a + 2 ^ 31
    → t ≢ null
    → avl_below t a ≡ some (find_end a (entries t))
unfolding avl_below find_end
avl_below_lem null a b e tiling top low high some_node = absurd (some_node refl)
avl_below_lem (node n h l r) a b e tiling top low high some_node =
    let t = Tiling-split b (entries l) n (entries r) e tiling in
    let left_le = Tiling-le b (entries l) n.addr t.front in
    let right_le = Tiling-le (end_of n) (entries r) e t.back in
    elim (compare-cases a (end_of n)) [
      | inl (_, less) ↦
          let none_right : find_end a (n ∷ entries r) ≡ none =
            ground (arith, find_end-after a (end_of n) (entries r) e t.back) in
          rw (find_end-left a (entries l) (n ∷ entries r) none_right) (
            ground (
              arith,
              diff_behind a n,
              below-there l a (avl_below_lem l a b n.addr t.front (omega arith) low (omega arith)),
            ))
      | inr (inl (_, same)) ↦
          rw
            (find_end-right a b (entries l) n.addr (n ∷ entries r) t.front
              (omega (arith, t.some_pages)))
            (ground (arith, diff_at a n))
      | inr (inr (_, more)) ↦
          rw
            (find_end-right a b (entries l) n.addr (n ∷ entries r) t.front
              (omega (arith, t.some_pages)))
            (ground (
              arith,
              diff_ahead a n,
              below-there r a (avl_below_lem r a (end_of n) e t.back top (omega arith) high),
            ))
    ]

-- The truncation to int: a range is taken for the one below any address that lies a multiple of
-- 4 GiB behind its end.
pub avl_below_wraps :
    (n : AvlNode) (h : ℕ) (l r : Tree) (k : ℕ)
    → end_of n + k * 2 ^ 32 < 2 ^ 64
    → avl_below (node n h l r) (end_of n + k * 2 ^ 32) ≡ some (some n)
unfolding avl_below diff
avl_below_wraps n h l r k top = ground arith
