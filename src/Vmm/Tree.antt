-- ===== src/Vmm/Tree.antt =====
-- The self-balancing tree of address ranges: kernel/system/mem_mgmt/vmm/avl_tree.c and the struct
-- avl_node of mem_mgmt.h. A node keeps the pointer of its struct, so that what the code shares
-- through pointers stays visible. `none` is a fault.
pub mod Ranges
pub mod Steps
pub mod Order
pub mod Insert
pub mod Delete
pub mod Balance
pub mod Rotations
pub mod Rebalance
pub mod Growth
pub mod Search
pub mod Stuck
pub mod Shrink
pub mod Dangling
use gapxos.Base.{
  ℕ, ◌+◌, ◌-◌, ◌*◌, ◌%◌, ◌^◌, compare, lt, eq, gt, Bool, true, false, not, ◌&&◌, Option, none, some,
  List, [], ◌∷◌, ◌++◌, ltb, leb, ◌==◌, if◌then◌else◌, ◌>>=◌,
}

-- The fields of a struct avl_node, but for the height and the two children; `ptr` is its address.
pub record AvlNode : Type 0 where
  pub ptr : ℕ
  pub addr : ℕ
  pub page_count : ℕ
  pub allocated : Bool

-- A struct avl_node *, with the height and the children of what it points to.
pub data Tree : Type 0 where
  null : Tree
  node : AvlNode → ℕ → Tree → Tree → Tree

-- The node allocator, which creates and frees the structs.
pub record NodeAlloc (S : Type 0) : Type 0 where
  pub create_node : S → Option (ℕ × S)
  pub free_node : ℕ → S → Option S

-- What a local variable that was never set happens to hold.
pub data Stale : Type 0 where
  stale_null stale_wild : Stale

abbrev pub u16 : ℕ → ℕ
u16 x = x % 2 ^ 16

-- `c ? c->height + 1 : 0`, which the code writes for each child.
abbrev pub child_height : Tree → ℕ
child_height null = 0
child_height (node n h l r) = h + 1

unfoldable pub height : Tree → ℕ
height null = 0
height (node n h l r) =
    let lh = u16 (child_height l) in let rh = u16 (child_height r) in if ltb rh lh then lh else rh

-- The int8_t result is its bit pattern: -2 is 254 and -1 is 255.
unfoldable pub balance : Tree → ℕ
balance null = 0
balance (node n h l r) = (child_height r + 2 ^ 32 - child_height l) % 2 ^ 8

-- `node->height = height(node)`
unfoldable pub update_height : Tree → Tree
update_height null = null
update_height (node n h l r) = node n (height (node n h l r)) l r

unfoldable pub rotate_left : Tree → Option Tree
rotate_left null = none
rotate_left (node x h l null) = none
rotate_left (node x h l (node z zh zl zr)) =
    some (update_height (node z zh (update_height (node x h l zl)) zr))

unfoldable pub rotate_right : Tree → Option Tree
rotate_right null = none
rotate_right (node x h null r) = none
rotate_right (node x h (node z zh zl zr) r) =
    some (update_height (node z zh zl (update_height (node x h zr r))))

-- The inner rotation of a double one.
unfoldable pub straighten_left : Tree → Option Tree
straighten_left l = if balance l == 1 then rotate_left l else some l

unfoldable pub straighten_right : Tree → Option Tree
straighten_right r = if balance r == 255 then rotate_right r else some r

unfoldable pub rotate : Tree → Option Tree
rotate null = some null
rotate (node n h l r) =
    let b = balance (node n h l r) in
    if b == 254
    then (do l' ← straighten_left l; rotate_right (node n h l' r))
    else if b == 2
    then (do r' ← straighten_right r; rotate_left (node n h l r'))
    else some (node n h l r)

-- The end of _insert_node and _delete_node. A null node is used in `node->height`.
unfoldable pub rebalance : Tree → Option Tree
rebalance null = none
rebalance (node n h l r) = do t ← rotate (node n h l r); some (update_height t)

-- The end of a call, with the state of the allocator.
abbrev pub finish {ℓ} : {S : Type ℓ} → Tree → S → Option (Tree × S)
finish t s = do t' ← rebalance t; some (t', s)

-- The rest of a call that has a new left, or right, child.
abbrev pub with_left {ℓ} : {S : Type ℓ} → AvlNode → ℕ → Tree → Tree × S → Option (Tree × S)
with_left n h r (l', s) = finish (node n h l' r) s

abbrev pub with_right {ℓ} : {S : Type ℓ} → AvlNode → ℕ → Tree → Tree × S → Option (Tree × S)
with_right n h l (r', s) = finish (node n h l r') s

-- The new node of an insertion.
abbrev pub range : ℕ → ℕ → ℕ → AvlNode
range p a c = record { ptr = p; addr = a; page_count = c; allocated = false }

abbrev pub with_struct {ℓ} : {S : Type ℓ} → ℕ → ℕ → ℕ × S → Option (Tree × S)
with_struct addr page_count (p, s) = finish (node (range p addr page_count) 0 null null) s

-- `ptr` walks down the left children of a node; the node it stops at leaves the tree, and its
-- right child takes its place. No height is written.
unfoldable pub detach_min : AvlNode → ℕ → Tree → Tree → AvlNode × Tree
detach_min n h null r = (n, r)
detach_min n h (node ln lh ll lr) r = let (m, l') = detach_min ln lh ll lr in (m, node n h l' r)

-- `node->addr = ptr->addr; node->page_count = …; node->allocated = …`
abbrev pub move_into : AvlNode → AvlNode → AvlNode
move_into n m = record m { ptr = n.ptr }

module _ {S : Type 0} (alloc : NodeAlloc S) where
  -- The height of a new struct is not set before the first `node->height = height(node)`, and
  -- nothing reads it until then.
  unfoldable pub insert_node : Tree → ℕ → ℕ → S → Option (Tree × S)
  insert_node null addr page_count s = alloc.create_node s >>= with_struct addr page_count
  insert_node (node n h l r) addr page_count s = elim (compare addr n.addr) [
    | lt ↦ insert_node l addr page_count s >>= with_left n h r
    | gt ↦ insert_node r addr page_count s >>= with_right n h l
    | eq ↦ some (node (range n.ptr addr page_count) h l r, s)
  ]

  -- The branch of _delete_node that has found its node.
  unfoldable pub delete_here : Stale → AvlNode → ℕ → Tree → Tree → S → Option (Tree × S)
  delete_here parent n h null null s = do s' ← alloc.free_node n.ptr s; some (null, s')
  delete_here parent n h (node ln lh ll lr) null s =
      alloc.free_node n.ptr s >>= finish (node ln lh ll lr)
  delete_here parent n h null (node rn rh rl rr) s =
      alloc.free_node n.ptr s >>= finish (node rn rh rl rr)
  -- The loop makes no round, and `parent` is read though it was never set. A wild one is written
  -- through; with a null one `node->right` is written, if `ptr->right` is there to take its place,
  -- and otherwise goes on pointing to the struct that is freed, with what stands there: free_node
  -- writes to the header of the struct's page only, and the page can still be read.
  delete_here stale_wild n h (node ln lh ll lr) (node rn rh null rr) s = none
  delete_here stale_null n h (node ln lh ll lr) (node rn rh null null) s =
      alloc.free_node rn.ptr s
      >>= finish (node (move_into n rn) h (node ln lh ll lr) (node rn rh null null))
  delete_here stale_null n h (node ln lh ll lr) (node rn rh null (node m mh ml mr)) s =
      alloc.free_node rn.ptr s
      >>= finish (node (move_into n rn) h (node ln lh ll lr) (node m mh ml mr))
  delete_here parent n h (node ln lh ll lr) (node rn rh (node m mh ml mr) rr) s =
      let (least, r') = detach_min rn rh (node m mh ml mr) rr in
      alloc.free_node least.ptr s >>= finish (node (move_into n least) h (node ln lh ll lr) r')

  unfoldable pub delete_node : Stale → Tree → ℕ → S → Option (Tree × S)
  delete_node parent null addr s = some (null, s)
  delete_node parent (node n h l r) addr s = elim (compare addr n.addr) [
    | lt ↦ delete_node parent l addr s >>= with_left n h r
    | gt ↦ delete_node parent r addr s >>= with_right n h l
    | eq ↦ delete_here parent n h l r s
  ]
