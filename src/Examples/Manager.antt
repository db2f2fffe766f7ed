-- ===== src/Examples/Manager.antt =====
-- mem_mgmt.c on a manager of three ranges.
use gapxos.Base.{ℕ, ◌+◌, ◌*◌, ◌≡◌, refl, true, false, some, arith}
use gapxos.Vmm.Tree.{
  AvlNode, Tree, null, node, stale_null, range, insert_node, rebalance, rotate, balance,
  update_height, height,
}
use gapxos.Vmm.Tree.Search.{avl_min_size}
use gapxos.Vmm.Manager.{
  Machine, Manager, update_struct, avl_insert, split_range, alloc_virt, malloc_pages, map_memory,
  map_new, lock_mgr, unlock_mgr,
}
use gapxos.Vmm.Manager.Valid.{IsValid}
use gapxos.Vmm.Manager.Alloc.{GivesFresh, Allocated, alloc_virt-Allocated}
use gapxos.Vmm.Manager.Malloc.{
  SetsPages, NewPages, GivenPages, Served, malloc_flags, map_flags, malloc_pages-Served,
  map_memory-Served,
}

-- The state is the next struct to be created; pages are counted with it.
abbrev pub machine : Machine ℕ
machine = record {
  nodes = record { create_node = λ s. some (s, s + 1); free_node = λ p s. some s };
  set_page = λ pml4t vaddr paddr flags s. some s;
  free_page = λ pml4t vaddr s. some s;
  pmm_alloc_page = λ s. (s * 4096, s + 1);
  parent = stale_null;
}

abbrev pub taken : ℕ → ℕ → ℕ → AvlNode
taken p a c = record { ptr = p; addr = a; page_count = c; allocated = true }

abbrev pub leaf : AvlNode → Tree
leaf n = node n 0 null null

abbrev pub idle : Manager
idle = record {
  tree = node (range 2 0x3000 4) 1 (leaf (taken 1 0x1000 2)) (leaf (taken 3 0x7000 1));
  pml4t = 0x100000;
  lock = false;
}

idle-IsValid : IsValid 0x1000 0x8000 idle
idle-IsValid = record {
  tiling = omega arith;
  top = omega arith;
  distinct = omega arith;
  avl = omega arith;
}

fresh : GivesFresh machine idle 4
fresh = record { ptr = 4; rest = 5; gives = refl; fresh = omega arith }

sets : SetsPages machine
sets pml4t vaddr paddr flags s = (s, refl)

alloc_virt-Allocated_example :
    (addr : ℕ) × (m' : Manager) × (s' : ℕ) × (alloc_virt machine idle 3 4 ≡ some (addr, m', s'))
    × Allocated machine 0x1000 0x8000 3 idle 4 addr m' s'
alloc_virt-Allocated_example =
    alloc_virt-Allocated machine 0x1000 0x8000 3 idle 4 idle-IsValid (omega arith) (ground arith)
      (omega arith) fresh

malloc_pages-Served_example :
    Served machine 0x1000 0x8000 3 idle 4
      (λ addr. NewPages machine 0x100000 addr (malloc_flags 1 0 1) 3)
      (malloc_pages machine (some idle) 3 1 0 1 4)
malloc_pages-Served_example =
    malloc_pages-Served machine 0x1000 0x8000 3 1 0 1 idle 4 idle-IsValid (omega arith)
      (ground arith) (omega arith) refl fresh sets

map_memory-Served_example :
    Served machine 0x1000 0x8000 4 idle 4
      (λ addr. GivenPages machine 0x100000 0xfee00000 addr (map_flags 1) 4)
      (map_memory machine (some idle) 0xfee00000 4 1 4)
map_memory-Served_example =
    map_memory-Served machine 0x1000 0x8000 4 0xfee00000 1 idle 4 idle-IsValid (omega arith)
      (ground arith) (omega arith) refl refl fresh sets

-- Three of the four free pages are given out; the last one stays free in the struct 4.
malloc_three :
    malloc_pages machine (some idle) 3 1 0 1 4
    ≡ some (
      0x3000,
      some (record {
        tree =
            node
              (taken 2 0x3000 3)
              2
              (leaf (taken 1 0x1000 2))
              (node (taken 3 0x7000 1) 1 (leaf (range 4 0x6000 1)) null);
        pml4t = 0x100000;
        lock = false;
      }),
      8,
    )
unfolding malloc_pages lock_mgr alloc_virt avl_min_size split_range avl_insert insert_node rebalance
    rotate balance update_height height update_struct map_new unlock_mgr
malloc_three = refl
