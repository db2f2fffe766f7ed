-- ===== src/Heap.antt =====
-- The heap of the kernel: kernel/system/mem_mgmt/heap.c. The two kinds of headers are in memory at
-- their addresses; a pointer to a pointer is the place that it stands in. Pages come from
-- mem_mgmt.c.
pub mod Chain
pub mod Apart
pub mod Link
pub mod Pages
pub mod Search
pub mod Cut
pub mod Move
pub mod Take
pub mod Grow
pub mod Malloc
pub mod Unlink
pub mod Merge
pub mod Widen
pub mod Free
pub mod Again
pub mod Append
pub mod Return
pub mod Keep
use gapxos.Base.{
  ℕ, zero, suc, ◌+◌, ◌-◌, ◌*◌, ◌/◌, ◌%◌, ◌^◌, Bool, true, false, Option, none, some, ltb, ◌==◌,
  if◌then◌else◌, ◌>>=◌,
}
use gapxos.Pmm.{u64}
use gapxos.Vmm.Manager.{Machine, Manager, malloc_pages, free_pages}

-- struct heap_blkhdr
pub record Block : Type 0 where
  pub next : ℕ
  pub pghdr : ℕ
  pub length : ℕ

-- struct heap_pghdr
pub record Page : Type 0 where
  pub next : ℕ
  pub free : ℕ
  pub allocated : ℕ

-- heap_root, the headers by their addresses, and what the memory manager works on.
pub record Heap (S : Type 0) : Type 0 where
  pub heap_root : ℕ
  pub pages : ℕ → Option Page
  pub blocks : ℕ → Option Block
  pub kern_vmm : Option Manager
  pub memory : S

-- What a pointer to a pointer points to.
pub data Slot : Type 0 where
  root : Slot
  page_next : ℕ → Slot
  page_free : ℕ → Slot
  page_allocated : ℕ → Slot
  block_next : ℕ → Slot

-- The size of either header.
abbrev pub header : ℕ
header = 24

module _ {A : Type 0} where
  abbrev pub update : (ℕ → Option A) → ℕ → A → ℕ → Option A
  update f p v i = if i == p then some v else f i

  -- A use of a pointer: a fault at NULL, and where there is no such header.
  unfoldable pub at : (ℕ → Option A) → ℕ → Option A
  at f p = if p == 0 then none else f p

module _ {S : Type 0} where
  abbrev pub store_block : ℕ → Block → Heap S → Heap S
  store_block b x h = record h { blocks = update h.blocks b x }

  abbrev pub store_page : ℕ → Page → Heap S → Heap S
  store_page p x h = record h { pages = update h.pages p x }

  unfoldable pub read : Slot → Heap S → Option ℕ
  read root h = some h.heap_root
  read (page_next p) h = do x ← at h.pages p; some x.next
  read (page_free p) h = do x ← at h.pages p; some x.free
  read (page_allocated p) h = do x ← at h.pages p; some x.allocated
  read (block_next b) h = do x ← at h.blocks b; some x.next

  unfoldable pub write : Slot → ℕ → Heap S → Option (Heap S)
  write root v h = some (record h { heap_root = v })
  write (page_next p) v h = do x ← at h.pages p; some (store_page p (record x { next = v }) h)
  write (page_free p) v h = do x ← at h.pages p; some (store_page p (record x { free = v }) h)
  write (page_allocated p) v h = do
    x ← at h.pages p
    some (store_page p (record x { allocated = v }) h)
  write (block_next b) v h = do x ← at h.blocks b; some (store_block b (record x { next = v }) h)

  -- The loops over blocks, on fuel. The block of a list that is long enough, or NULL:
  unfoldable pub find_block : ℕ → ℕ → ℕ → Heap S → Option ℕ
  find_block zero size b h = none
  find_block (suc fuel) size b h = elim (b == 0) [
    | true ↦ some 0
    | false ↦ elim (at h.blocks b) [
      | none ↦ none
      | some x ↦ elim (ltb size x.length) [ true ↦ some b | false ↦ find_block fuel size x.next h ]
    ]
  ]

  -- the place in a list that holds a given pointer, where NULL ends it:
  unfoldable pub find_slot : ℕ → ℕ → Slot → Heap S → Option Slot
  find_slot zero target s h = none
  find_slot (suc fuel) target s h = elim (read s h) [
    | none ↦ none
    | some v ↦ elim (v == target) [
      | true ↦ some s
      | false ↦ elim (v == 0) [ true ↦ none | false ↦ find_slot fuel target (block_next v) h ]
    ]
  ]

  -- The loop over the pages: the block found, or NULL and the place that ends the list.
  unfoldable pub find_page : ℕ → ℕ → Slot → Heap S → Option (ℕ × Slot)
  find_page zero size s h = none
  find_page (suc fuel) size s h = elim (read s h) [
    | none ↦ none
    | some p ↦ elim (p == 0) [
      | true ↦ some (0, s)
      | false ↦ elim (at h.pages p) [
        | none ↦ none
        | some x ↦ elim (find_block fuel size x.free h) [
          | none ↦ none
          | some b ↦ elim (b == 0) [
            | true ↦ find_page fuel size (page_next p) h
            | false ↦ some (b, s)
          ]
        ]
      ]
    ]
  ]

  -- malloc behind its call of find_free, for the free block that this has found.
  unfoldable pub cut_block : ℕ → ℕ → ℕ → Block → Heap S → Option (ℕ × Heap S)
  cut_block fuel size b x h =
      let rest = x.length - u64 (size + header) in
      let new = b + header + rest in
      let h1 = store_block b (record x { length = rest }) h in
      let h2 = store_block new (record { next = 0; pghdr = x.pghdr; length = size }) h1 in
      do
        tail ← find_slot fuel 0 (page_allocated x.pghdr) h2
        h3 ← write tail new h2
        some (new + header, h3)

  unfoldable pub move_block : ℕ → ℕ → Block → Heap S → Option (ℕ × Heap S)
  move_block fuel b x h = do
    parent ← find_slot fuel b (page_free x.pghdr) h
    h1 ← write parent x.next h
    h2 ← write (block_next b) 0 h1
    tail ← find_slot fuel 0 (page_allocated x.pghdr) h2
    h3 ← write tail b h2
    some (b + header, h3)

  unfoldable pub take_block : ℕ → ℕ → ℕ → Heap S → Option (ℕ × Heap S)
  take_block fuel size b h = do
    x ← at h.blocks b
    (if ltb (u64 (size + header)) x.length
        then cut_block fuel size b x h
        else move_block fuel b x h)

  -- The loop of free over the free list: `val` with the place `parent` that the loop before left.
  unfoldable pub merge_block : ℕ → ℕ → Slot → Slot → Heap S → Option (Heap S)
  merge_block zero blk parent val h = none
  merge_block (suc fuel) blk parent val h = elim (read val h) [
    | none ↦ none
    | some v ↦ elim (v == 0) [
      | true ↦ write val blk h
      | false ↦ elim (at h.blocks v) [
        | none ↦ none
        | some y ↦ elim (at h.blocks blk) [
          | none ↦ none
          | some x ↦ elim (u64 (v + header + y.length) == blk) [
            | true ↦
                some
                  (store_block v (record y { length = u64 (y.length + u64 (x.length + header)) }) h)
            | false ↦ elim (u64 (blk + header + x.length) == v) [
              | true ↦ do
                h1 ← write parent blk h
                x1 ← at h1.blocks blk
                some (
                    store_block blk
                      (record x1 { length = u64 (x1.length + u64 (y.length + header)) }) h1)
              | false ↦ merge_block fuel blk val (block_next v) h
            ]
          ]
        ]
      ]
    ]
  ]

-- The variable pages of find_free, for its call of malloc_pages.
abbrev pub page_count : ℕ → ℕ
page_count size =
    let pages = if size % 4096 == 0 then size / 4096 else size / 4096 + 1 in
    if ltb pages 2 then 2 else pages

module _ {S : Type 0} (machine : Machine S) where
  -- find_free behind its loop: a new page, at the place that ends the list.
  unfoldable pub new_page : ℕ → Slot → Heap S → Option (ℕ × Heap S)
  new_page size s h = do
    (p, vmm, memory') ← malloc_pages machine h.kern_vmm (page_count size) 1 0 1 h.memory
    h1 ← write s p (record h { kern_vmm = vmm; memory = memory' })
    let block = p + header
    (if p == 0
        then none
        else some (
          block,
          store_page p (record { next = 0; free = block; allocated = 0 })
              (store_block block (record { next = 0; pghdr = p; length = 4096 - header - header })
                h1),
        ))

  unfoldable pub find_free : ℕ → ℕ → Heap S → Option (ℕ × Heap S)
  find_free fuel size h = do
    (b, s) ← find_page fuel size root h
    (if b == 0 then new_page size s h else some (b, h))

  unfoldable pub malloc : ℕ → ℕ → Heap S → Option (ℕ × Heap S)
  malloc fuel size h = do (b, h') ← find_free fuel size h; take_block fuel size b h'

  unfoldable pub free : ℕ → ℕ → Heap S → Option (Heap S)
  free fuel addr h =
      let blk = addr - header in
      do
        x ← at h.blocks blk
        parent ← find_slot fuel blk (page_allocated x.pghdr) h
        h1 ← write parent x.next h
        h2 ← merge_block fuel blk parent (page_free x.pghdr) h1
        left ← read (page_allocated x.pghdr) h2
        (if left == 0
            then (do
              (vmm, memory') ← free_pages machine h2.kern_vmm x.pghdr h2.memory
              some (record h2 { kern_vmm = vmm; memory = memory' }))
            else some h2)
