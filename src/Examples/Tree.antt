-- ===== src/Examples/Tree.antt =====
-- avl_tree.c on trees of three and four ranges.
use gapxos.Base.{ℕ, ◌+◌, ◌≡◌, refl, true, none, some, arith}
use gapxos.Vmm.Tree.{
  AvlNode, Tree, null, node, NodeAlloc, stale_null, stale_wild, range, insert_node, delete_node,
  delete_here, rebalance, rotate, balance, straighten_right, rotate_left, update_height, height,
}
use gapxos.Vmm.Tree.Order.{entries}
use gapxos.Vmm.Tree.Insert.{Inserted, insert_node_lem}
use gapxos.Vmm.Tree.Growth.{IsGrown, insert_node-IsGrown}
use gapxos.Vmm.Tree.Delete.{Deleted, delete_node-Deleted}
use gapxos.Vmm.Tree.Shrink.{IsShrunk, delete_node-IsShrunk}
use gapxos.Vmm.Tree.Dangling.{IsLeft, delete_node-IsLeft}
use gapxos.Vmm.Tree.Stuck.{IsDangling}
use gapxos.Vmm.Tree.Search.{avl_find, avl_min_size, avl_below, diff}
use gapxos.Vmm.Tree.Search.Find.{find_addr, avl_find_lem}
use gapxos.Vmm.Tree.Search.Under.{find_end, avl_below_lem}

-- An allocator that counts its structs up and accepts every struct back.
abbrev counter : NodeAlloc ℕ
counter = record { create_node = λ s. some (s, s + 1); free_node = λ p s. some s }

abbrev taken : ℕ → ℕ → ℕ → AvlNode
taken p a c = record { ptr = p; addr = a; page_count = c; allocated = true }

abbrev leaf : AvlNode → Tree
leaf n = node n 0 null null

abbrev sample : Tree
sample = node (range 2 0x3000 4) 1 (leaf (taken 1 0x1000 2)) (leaf (taken 3 0x7000 1))

-- Two ranges, in a chain to the right.
abbrev chain : Tree
chain = node (range 1 0x1000 1) 1 null (leaf (range 2 0x2000 1))

abbrev chain_grown : Tree
chain_grown = node (range 2 0x2000 1) 1 (leaf (range 1 0x1000 1)) (leaf (range 3 0x3000 1))

-- A third range at the end turns the chain over.
insert_turns : insert_node counter chain 0x3000 1 3 ≡ some (chain_grown, 4)
unfolding insert_node rebalance rotate balance straighten_right rotate_left update_height height
insert_turns = refl

insert_node_lem_example : Inserted counter 0x3000 1 (entries chain) 3 chain_grown 4
insert_node_lem_example =
    insert_node_lem counter chain 0x3000 1 3 chain_grown 4 (omega arith) insert_turns

insert_node-IsGrown_example :
    (t' : Tree) × (s' : ℕ) × (insert_node counter chain 0x3000 1 3 ≡ some (t', s'))
    × IsGrown chain t'
insert_node-IsGrown_example =
    insert_node-IsGrown counter chain 0x3000 1 3 3 4 (omega arith) (omega arith) refl

abbrev sample_cut : Tree
sample_cut = node (range 2 0x3000 4) 1 null (leaf (taken 3 0x7000 1))

delete_leaf : delete_node counter stale_wild sample 0x1000 9 ≡ some (sample_cut, 9)
unfolding delete_node delete_here rebalance rotate balance update_height height
delete_leaf = refl

delete_node-Deleted_example :
    Deleted counter (IsDangling stale_wild 0x1000 sample) 0x1000 (entries sample) 9 sample_cut 9
delete_node-Deleted_example =
    delete_node-Deleted counter stale_wild sample 0x1000 9 sample_cut 9 (omega arith) delete_leaf

delete_node-IsShrunk_example :
    (t' : Tree) × (s' : ℕ) × (delete_node counter stale_wild sample 0x1000 9 ≡ some (t', s'))
    × IsShrunk sample t'
delete_node-IsShrunk_example =
    delete_node-IsShrunk counter stale_wild sample 0x1000 9 (omega arith) (omega arith) tt
      (λ p. (9, refl))

delete_node-IsLeft_example :
    (t' : Tree) × (s' : ℕ) × (delete_node counter stale_null sample 0x3000 9 ≡ some (t', s'))
    × IsLeft counter sample 9 t' s'
delete_node-IsLeft_example =
    delete_node-IsLeft counter sample 0x3000 9 (omega arith) (omega arith) tt (λ p. (9, refl))

-- The struct 3 is freed, and stands twice in the memory that the tree covers.
delete_dangling :
    delete_node counter stale_null sample 0x3000 9
    ≡ some (node (taken 2 0x7000 1) 1 (leaf (taken 1 0x1000 2)) (leaf (taken 3 0x7000 1)), 9)
unfolding delete_node delete_here rebalance rotate balance update_height height
delete_dangling = refl

avl_find_lem_example : avl_find sample 0x7000 ≡ some (find_addr 0x7000 (entries sample))
avl_find_lem_example = avl_find_lem sample 0x7000 (omega arith) (ground arith)

avl_below_lem_example : avl_below sample 0x3000 ≡ some (find_end 0x3000 (entries sample))
avl_below_lem_example =
    avl_below_lem sample 0x3000 0x1000 0x8000 (omega arith) (omega arith) (omega arith)
      (omega arith) (ground arith)

searches :
    (avl_find sample 0x7000 ≡ some (some (taken 3 0x7000 1)))
    × (avl_find sample 0x2000 ≡ some none)
    × (avl_min_size sample 3 ≡ some (some (range 2 0x3000 4)))
    × (avl_below sample 0x3000 ≡ some (some (taken 1 0x1000 2)))
unfolding avl_find avl_min_size avl_below diff
searches = (refl, refl, refl, refl)
