-- ===== src/Vmm/Tree/Search.antt =====
-- avl_find, avl_min_size and avl_below of avl_tree.c. The outer `none` is the use of a null root,
-- the inner one the result NULL.
pub mod Tiling
pub mod Find
pub mod Fit
pub mod Under
use gapxos.Base.{
  ℕ, ◌+◌, ◌-◌, ◌*◌, ◌%◌, ◌^◌, Option, none, some, ltb, leb, ◌==◌, if◌then◌else◌, Bool, not, ◌&&◌,
  ◌>>=◌,
}
use gapxos.Vmm.Tree.{AvlNode, Tree, null, node}

-- `if (child) … ; return NULL`
abbrev pub if_there {ℓ} : {A : Type ℓ} → Tree → Option (Option A) → Option (Option A)
if_there null rest = some none
if_there (node n h l r) rest = rest

abbrev pub or_else {ℓ} : {A : Type ℓ} → Option A → Option (Option A) → Option (Option A)
or_else none rest = rest
or_else (some a) rest = some (some a)

unfoldable pub avl_find : Tree → ℕ → Option (Option AvlNode)
avl_find null addr = none
avl_find (node n h l r) addr =
    if n.addr == addr
    then some (some n)
    else if ltb addr n.addr
    then if_there l (avl_find l addr)
    else if_there r (avl_find r addr)

abbrev pub fits : ℕ → AvlNode → Bool
fits page_count n = leb page_count n.page_count && not n.allocated

unfoldable pub avl_min_size : Tree → ℕ → Option (Option AvlNode)
avl_min_size null page_count = none
avl_min_size (node n h l r) page_count = do
  found ← if_there r (avl_min_size r page_count)
  or_else found
      (if fits page_count n then some (some n) else if_there l (avl_min_size l page_count))

-- `addr - (node->addr + node->page_count * 0x1000)` as the bits of an int.
unfoldable pub diff : ℕ → AvlNode → ℕ
diff addr n = (addr + 2 ^ 64 - (n.addr + n.page_count * 4096) % 2 ^ 64) % 2 ^ 32

unfoldable pub avl_below : Tree → ℕ → Option (Option AvlNode)
avl_below null addr = none
avl_below (node n h l r) addr =
    if diff addr n == 0
    then some (some n)
    else if leb (2 ^ 31) (diff addr n)
    then if_there l (avl_below l addr)
    else if_there r (avl_below r addr)
