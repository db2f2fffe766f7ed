-- ===== src/Vmm/Tree/Search/Find.antt =====
-- avl_find of avl_tree.c finds the range that begins at an address.
use gapxos.Base.{
  ℕ, ◌<◌, ◌≡◌, ◌≢◌, refl, Option, none, some, List, [], ◌∷◌, ◌++◌, arith, ◌==◌, if◌then◌else◌, inl,
  inr, compare-cases,
}
use gapxos.Vmm.Tree.{AvlNode, Tree, null, node}
use gapxos.Vmm.Tree.Order.{entries}
use gapxos.Vmm.Tree.Ranges.{Above, Below, Below-before, IsSorted, IsSorted-IsSplit}
use gapxos.Vmm.Tree.Search.{if_there, avl_find}

-- The range of the list that begins at a.
unfoldable pub find_addr : ℕ → List AvlNode → Option AvlNode
find_addr a [] = none
find_addr a (n ∷ ns) = if n.addr == a then some n else find_addr a ns

find_addr-Above : (a : ℕ) (ns : List AvlNode) → Above a ns → find_addr a ns ≡ none
unfolding find_addr
find_addr-Above a [] h = refl
find_addr-Above a (n ∷ ns) h = ground (arith, find_addr-Above a ns h.1)

pub find_addr-right :
    (a : ℕ) (xs ys : List AvlNode) → Below a xs → find_addr a (xs ++ ys) ≡ find_addr a ys
unfolding find_addr
find_addr-right a [] ys h = refl
find_addr-right a (x ∷ xs) ys h = ground (arith, find_addr-right a xs ys h.1)

find_addr-left :
    (a : ℕ) (xs : List AvlNode) (n : AvlNode) (ys : List AvlNode)
    → a < n.addr
    → Above n.addr ys
    → find_addr a (xs ++ n ∷ ys) ≡ find_addr a xs
unfolding find_addr
find_addr-left a [] n [] h b = ground arith
find_addr-left a [] n (y ∷ ys) h b = ground (arith, find_addr-left a [] n ys h b.1)
find_addr-left a (x ∷ xs) n ys h b = ground (arith, find_addr-left a xs n ys h b)

-- The search of a child that may be missing.
find-there :
    (t : Tree) (a : ℕ)
    → (t ≢ null → avl_find t a ≡ some (find_addr a (entries t)))
    → if_there t (avl_find t a) ≡ some (find_addr a (entries t))
unfolding find_addr
find-there null a h = refl
find-there (node n h l r) a found = found (λ e. ground arith)

-- On a sorted tree that is not empty, avl_find returns the range that begins at the address, and
-- NULL if there is none.
pub avl_find_lem :
    (t : Tree) (a : ℕ)
    → IsSorted (entries t)
    → t ≢ null
    → avl_find t a ≡ some (find_addr a (entries t))
unfolding avl_find find_addr
avl_find_lem null a sorted some_node = absurd (some_node refl)
avl_find_lem (node n h l r) a sorted some_node =
    let sp = IsSorted-IsSplit (entries l) n (entries r) sorted in
    elim (compare-cases a n.addr) [
      | inl (o, less) ↦
          rw (find_addr-left a (entries l) n (entries r) less sp.above)
            (ground (arith, find-there l a (avl_find_lem l a sp.left)))
      | inr (inl (o, same)) ↦
          rw (find_addr-right a (entries l) (n ∷ entries r) (rw same sp.below)) (ground arith)
      | inr (inr (o, more)) ↦
          rw
            (find_addr-right a (entries l) (n ∷ entries r)
              (Below-before n a (entries l) sp.below more))
            (ground (arith, find-there r a (avl_find_lem r a sp.right)))
    ]
