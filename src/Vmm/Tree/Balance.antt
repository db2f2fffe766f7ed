-- ===== src/Vmm/Tree/Balance.antt =====
-- The heights that avl_tree.c stores, and the rotations that keep the tree balanced.
use gapxos.Base.{ℕ, suc, ◌+◌, ◌-◌, ◌%◌, ◌^◌, ◌≤◌, ◌<◌, max, ◌≡◌, refl, arith}
use gapxos.Vmm.Tree.{AvlNode, Tree, null, node, child_height, height, balance, update_height}

-- The number of nodes on the longest way down.
abbrev pub levels : Tree → ℕ
levels null = 0
levels (node n h l r) = suc (max (levels l) (levels r))

-- Every stored height is that of the subtree, and no two siblings differ by more than one level.
abbrev pub IsAvl : Tree → Type 0
IsAvl null = Unit
IsAvl (node n h l r) =
    (h ≡ max (levels l) (levels r))
    × (levels l ≤ levels r + 1)
    × (levels r ≤ levels l + 1)
    × IsAvl l
    × IsAvl r

pub child_height-levels : (t : Tree) → IsAvl t → child_height t ≡ levels t
child_height-levels null a = refl
child_height-levels (node n h l r) a = omega arith

pub balance-levels :
    (n : AvlNode) (h : ℕ) (l r : Tree)
    → IsAvl l
    → IsAvl r
    → levels l + levels r < 2 ^ 15
    → balance (node n h l r) ≡ (levels r + 2 ^ 32 - levels l) % 2 ^ 8
unfolding balance
balance-levels n h l r al ar small = rw (child_height-levels l al, child_height-levels r ar)

-- The tree with the heights of its root set right.
abbrev pub settled : AvlNode → Tree → Tree → Tree
settled n l r = node n (max (levels l) (levels r)) l r

pub update_height-settled :
    (n : AvlNode) (h : ℕ) (l r : Tree)
    → IsAvl l
    → IsAvl r
    → levels l + levels r < 2 ^ 15
    → update_height (node n h l r) ≡ settled n l r
unfolding update_height height
update_height-settled n h l r al ar small =
    rw (child_height-levels l al, child_height-levels r ar) (ground arith)

pub settled-IsAvl :
    (n : AvlNode) (l r : Tree)
    → IsAvl l
    → IsAvl r
    → levels l ≤ levels r + 1
    → levels r ≤ levels l + 1
    → IsAvl (settled n l r)
settled-IsAvl n l r al ar p q = (refl, p, q, al, ar)

-- A tree that is balanced, and has as many levels as its parts allow.
pub record IsRotated (deeper : ℕ) (t : Tree) : Type 0 where
  pub avl : IsAvl t
  pub lower : deeper ≤ levels t
  pub upper : levels t ≤ deeper + 1
