-- ===== src/Vmm/Manager.antt =====
-- kernel/system/mem_mgmt/vmm/mem_mgmt.c: ranges of virtual pages, given out and taken back. A
-- struct memory_manager is a record; `none` is a fault, or a lock that is never released.
pub mod Structs
pub mod Valid
pub mod Alloc
pub mod Malloc
use gapxos.Base.{
  ℕ, zero, suc, ◌+◌, ◌-◌, ◌*◌, ◌%◌, ◌^◌, Bool, true, false, not, ◌||◌, Option, none, some, ◌==◌,
  if◌then◌else◌, ◌>>=◌,
}
use gapxos.Vmm.Tree.{AvlNode, Tree, null, node, NodeAlloc, Stale, insert_node, delete_node}
use gapxos.Vmm.Tree.Search.{avl_find, avl_below, avl_min_size}

-- struct page_flags of paging.h
pub record PageFlags : Type 0 where
  pub write : Bool
  pub exec : Bool
  pub kernel : Bool
  pub usable : Bool
  pub present : Bool

-- What the manager calls: the node allocator, the page tables and the stack of free pages, over
-- the state of all three. `parent` is what an unset variable of _delete_node holds.
pub record Machine (S : Type 0) : Type 0 where
  pub nodes : NodeAlloc S
  pub set_page : ℕ → ℕ → ℕ → PageFlags → S → Option S
  pub free_page : ℕ → ℕ → S → Option S
  pub pmm_alloc_page : S → ℕ × S
  pub parent : Stale

pub record Manager : Type 0 where
  pub tree : Tree
  pub pml4t : ℕ
  pub lock : Bool

-- A write through a pointer to a struct avl_node.
unfoldable pub update_struct : ℕ → (AvlNode → AvlNode) → Tree → Tree
update_struct p f null = null
update_struct p f (node n h l r) =
    node (if n.ptr == p then f n else n) h (update_struct p f l) (update_struct p f r)

abbrev pub u64 : ℕ → ℕ
u64 x = x % 2 ^ 64

-- The exchange gets 0 and the loop ends, or it gets 1 for ever: nothing else runs on this state.
unfoldable pub lock_mgr : Manager → Option Manager
lock_mgr m = if m.lock then none else some (record m { lock = true })

unfoldable pub unlock_mgr : Manager → Manager
unlock_mgr m = record m { lock = false }

-- `n->page_count = page_count; n->allocated = 1`
abbrev pub take_pages : ℕ → AvlNode → AvlNode
take_pages page_count n = record n { page_count = page_count; allocated = true }

module _ {S : Type 0} (machine : Machine S) where
  unfoldable pub avl_insert : Manager → ℕ → ℕ → S → Option (Manager × S)
  avl_insert m addr page_count s = do
    (t, s') ← insert_node machine.nodes m.tree addr page_count s
    some (record m { tree = t }, s')

  unfoldable pub avl_remove : Manager → ℕ → S → Option (Manager × S)
  avl_remove m addr s = do
    (t, s') ← delete_node machine.nodes machine.parent m.tree addr s
    some (record m { tree = t }, s')

  unfoldable pub create_mgr : ℕ → ℕ → S → Option (Manager × S)
  create_mgr addr_start page_count s =
      avl_insert (record { tree = null; pml4t = 0; lock = false }) addr_start page_count s

  -- The part of alloc_virt behind `if (!n)`.
  unfoldable pub split_range : Manager → AvlNode → ℕ → S → Option (ℕ × Manager × S)
  split_range m n page_count s =
      let pages_diff = u64 (n.page_count + 2 ^ 64 - page_count) in
      let post_addr = u64 (n.addr + page_count * 4096) in
      do
        (m', s') ← if pages_diff == 0 then some (m, s) else avl_insert m post_addr pages_diff s
        some (n.addr, record m' { tree = update_struct n.ptr (take_pages page_count) m'.tree }, s')

  unfoldable pub alloc_virt : Manager → ℕ → S → Option (ℕ × Manager × S)
  alloc_virt m page_count s = do
    found ← avl_min_size m.tree page_count
    elim found [ none ↦ some (0, m, s) | some n ↦ split_range m n page_count s ]

  -- The loop of malloc_pages, with the rounds left and `i`.
  unfoldable pub map_new : ℕ → ℕ → ℕ → ℕ → PageFlags → S → Option S
  map_new zero i pml4t addr flags s = some s
  map_new (suc rounds) i pml4t addr flags s =
      let (page, s1) = machine.pmm_alloc_page s in
      do
        s2 ← machine.set_page pml4t (u64 (addr + i * 4096)) page flags s1
        map_new rounds (i + 1) pml4t addr flags s2

  -- The loop of map_memory.
  unfoldable pub map_at : ℕ → ℕ → ℕ → ℕ → ℕ → PageFlags → S → Option S
  map_at zero i pml4t addr map_addr flags s = some s
  map_at (suc rounds) i pml4t addr map_addr flags s = do
    s1 ← machine.set_page pml4t (u64 (addr + i * 4096)) (u64 (map_addr + i * 4096)) flags s
    map_at rounds (i + 1) pml4t addr map_addr flags s1

  -- The loop of free_pages.
  unfoldable pub unmap : ℕ → ℕ → ℕ → ℕ → S → Option S
  unmap zero i pml4t addr s = some s
  unmap (suc rounds) i pml4t addr s = do
    s1 ← machine.free_page pml4t (u64 (addr + i * 4096)) s
    unmap rounds (i + 1) pml4t addr s1

  -- A call returns the pointer, the manager and the rest of the state.
  unfoldable pub malloc_pages : Option Manager → ℕ → ℕ → ℕ → ℕ → S → Option (ℕ × Option Manager × S)
  malloc_pages none page_count write exec kernel s = some (0, none, s)
  malloc_pages (some m) page_count write exec kernel s =
      let flags : PageFlags = record {
        write = not (write == 0);
        exec = not (exec == 0);
        kernel = not (kernel == 0);
        usable = true;
        present = true;
      } in
      if page_count == 0 then some (0, some m, s) else (do
        locked ← lock_mgr m
        (addr, m', s') ← alloc_virt locked page_count s
        s2 ← map_new page_count 0 m'.pml4t addr flags s'
        some (addr, some (unlock_mgr m'), s2))

  unfoldable pub map_memory : Option Manager → ℕ → ℕ → ℕ → S → Option (ℕ × Option Manager × S)
  map_memory none map_addr page_count kernel s = some (0, none, s)
  map_memory (some m) map_addr page_count kernel s =
      let flags : PageFlags = record {
        write = false;
        exec = false;
        kernel = not (kernel == 0);
        usable = false;
        present = true;
      } in
      if page_count == 0 || not (map_addr % 4096 == 0) then some (0, some m, s) else (do
        locked ← lock_mgr m
        (addr, m', s') ← alloc_virt locked page_count s
        s2 ← map_at page_count 0 m'.pml4t addr map_addr flags s'
        some (addr, some (unlock_mgr m'), s2))

  -- `if (prev && !prev->allocated) …`: the struct that n points to afterwards, with its fields.
  -- Nothing else writes to it while free_pages runs, so the copy holds what the code reads.
  unfoldable pub merge_before : Manager → AvlNode → ℕ → S → Option (AvlNode × Manager × S)
  merge_before m n addr s = do
    found ← avl_below m.tree addr
    elim found [
      | none ↦ some (n, m, s)
      | some prev ↦ if prev.allocated then some (n, m, s) else (do
        (m', s') ← avl_remove m addr s
        let pages = u64 (prev.page_count + n.page_count)
        let widen = λ (k : AvlNode). record k { page_count = pages }
        some (widen prev, record m' { tree = update_struct prev.ptr widen m'.tree }, s'))
    ]

  -- `if (after && !after->allocated) …`
  unfoldable pub merge_after : Manager → AvlNode → S → Option (Manager × S)
  merge_after m n s = do
    found ← avl_find m.tree (u64 (n.addr + n.page_count * 4096))
    elim found [
      | none ↦ some (m, s)
      | some after ↦
          if after.allocated
          then some (m, s)
          else (let pages = u64 (n.page_count + after.page_count) in
              let widen = λ (k : AvlNode). record k { page_count = pages } in
              avl_remove (record m { tree = update_struct n.ptr widen m.tree }) after.addr s)
    ]

  -- free_pages behind `lock_mgr`, with what avl_find has found.
  unfoldable pub free_found : Manager → Option AvlNode → ℕ → S → Option (Manager × S)
  free_found m none addr s = some (m, s)
  free_found m (some n) addr s =
      let freed = record n { allocated = false } in
      let clear = λ (k : AvlNode). record k { allocated = false } in
      if not n.allocated then some (m, s) else (do
        s1 ← unmap n.page_count 0 m.pml4t addr s
        (n', m', s2) ←
            merge_before (record m { tree = update_struct n.ptr clear m.tree }) freed addr s1
        merge_after m' n' s2)

  unfoldable pub free_pages : Option Manager → ℕ → S → Option (Option Manager × S)
  free_pages none addr s = some (none, s)
  free_pages (some m) addr s = do
    locked ← lock_mgr m
    found ← avl_find locked.tree addr
    (m', s') ← free_found locked found addr s
    some (some (unlock_mgr m'), s')
