-- ===== src/Vmm/Tree/Search/Fit.antt =====
-- avl_min_size of avl_tree.c finds the last free range that is long enough.
use gapxos.Base.{ℕ, ◌≡◌, ◌≢◌, refl, Option, none, some, List, [], ◌∷◌, ◌++◌, arith, if◌then◌else◌}
use gapxos.Vmm.Tree.{AvlNode, Tree, null, node}
use gapxos.Vmm.Tree.Order.{entries}
use gapxos.Vmm.Tree.Search.{if_there, fits, avl_min_size}

-- The last range of the list that is free and has page_count pages or more.
unfoldable pub last_fit : ℕ → List AvlNode → Option AvlNode
last_fit k [] = none
last_fit k (n ∷ ns) = elim (last_fit k ns) [
  | some m ↦ some m
  | none ↦ if fits k n then some n else none
]

abbrev either {ℓ} : {A : Type ℓ} → Option A → Option A → Option A
either none o = o
either (some a) o = some a

last_fit-append :
    (k : ℕ) (xs ys : List AvlNode) → last_fit k (xs ++ ys) ≡ either (last_fit k ys) (last_fit k xs)
unfolding last_fit
last_fit-append k [] ys = ground arith
last_fit-append k (x ∷ xs) ys = ground (arith, last_fit-append k xs ys)

fit-there :
    (t : Tree) (k : ℕ)
    → (t ≢ null → avl_min_size t k ≡ some (last_fit k (entries t)))
    → if_there t (avl_min_size t k) ≡ some (last_fit k (entries t))
unfolding last_fit
fit-there null k h = refl
fit-there (node n h l r) k found = found (λ e. ground arith)

-- On a tree that is not empty, avl_min_size returns the last range that is free and has at least
-- page_count pages, and NULL if there is none.
pub avl_min_size_lem :
    (t : Tree) (k : ℕ) → t ≢ null → avl_min_size t k ≡ some (last_fit k (entries t))
unfolding avl_min_size last_fit
avl_min_size_lem null k some_node = absurd (some_node refl)
avl_min_size_lem (node n h l r) k some_node =
    rw (last_fit-append k (entries l) (n ∷ entries r))
      (ground (arith, fit-there l k (avl_min_size_lem l k), fit-there r k (avl_min_size_lem r k)))
