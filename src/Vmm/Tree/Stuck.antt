-- ===== src/Vmm/Tree/Stuck.antt =====
-- Where _delete_node of avl_tree.c reads its variable `parent` before it is set.
use gapxos.Base.{compare, lt, eq, gt, ℕ, ◌≡◌}
use gapxos.Vmm.Tree.{Tree, null, node, Stale, stale_null}

-- The right child of a node with two children has none.
abbrev pub IsLeafBeside : Tree → Tree → Type 0
IsLeafBeside null r = ⊥
IsLeafBeside (node n h ll lr) null = ⊥
IsLeafBeside (node n h ll lr) (node m k null null) = Unit
IsLeafBeside (node n h ll lr) (node m k null (node _ _ _ _)) = ⊥
IsLeafBeside (node n h ll lr) (node m k (node _ _ _ _) rr) = ⊥

-- The node of the address has two children, and the right one has none.
abbrev pub IsStuck : ℕ → Tree → Type 0
IsStuck a null = ⊥
IsStuck a (node n h l r) = elim (compare a n.addr) [
  | lt ↦ IsStuck a l
  | eq ↦ IsLeafBeside l r
  | gt ↦ IsStuck a r
]

-- There, and `parent` happens to hold NULL.
abbrev pub IsDangling : Stale → ℕ → Tree → Type 0
IsDangling parent a t = (parent ≡ stale_null) × IsStuck a t
