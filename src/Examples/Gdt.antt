-- ===== src/Examples/Gdt.antt =====
-- gdt.c on the heap of heap.c, which has no pages at first.
use gapxos.Base.{ℕ, ◌≡◌, refl, true, false, some, none, [], ◌∷◌, arith, inl, inr}
use gapxos.Vmm.Tree.{insert_node, rebalance, rotate, balance, update_height, height}
use gapxos.Vmm.Tree.Search.{avl_min_size}
use gapxos.Vmm.Manager.{
  update_struct, avl_insert, split_range, alloc_virt, malloc_pages, map_new, lock_mgr, unlock_mgr,
}
use gapxos.Heap
use gapxos.Heap.{Heap}
use gapxos.Gdt.{
  GdtEntry, Gdt, Host, World, is_refused, stored_limit, flags_byte, descriptor, gdt_init, add_entry,
  gdt_add_tss,
}
use gapxos.Gdt.Kernel.{kernel_heap}
use gapxos.Gdt.Descriptor.{base_of, limit_of, type_of, is_long, descriptor-reads}
use gapxos.Gdt.Init.{IsInitial, gdt_init-IsInitial}
use gapxos.Gdt.Tss.{HasTask, gdt_add_tss-HasTask}
use gapxos.Gdt.Table.{IsTable, Renews, IsAdded, add_entry-IsAdded}
use gapxos.Examples.Manager.{machine, idle}

abbrev host : Host (Heap ℕ)
host = kernel_heap machine 9

abbrev blank : Heap ℕ
blank = record {
  heap_root = 0;
  pages = λ p. none;
  blocks = λ p. none;
  kern_vmm = some idle;
  memory = 4;
}

-- The heap after malloc of 32 bytes, and after malloc of 64 bytes more.
first_block : (h : Heap ℕ) × (host.malloc 32 blank ≡ some (0x3fe0, h))
unfolding Heap.malloc Heap.find_free Heap.find_page Heap.find_block Heap.new_page Heap.take_block
    Heap.cut_block Heap.move_block Heap.find_slot Heap.read Heap.write Heap.at Heap.free
    Heap.merge_block malloc_pages lock_mgr alloc_virt avl_min_size split_range avl_insert
    insert_node rebalance rotate balance update_height height update_struct map_new unlock_mgr
first_block = (_, refl)

abbrev small : Heap ℕ
small = first_block.0

small_renews : Renews host 0x3fe0 32 small
unfolding first_block Heap.malloc Heap.find_free Heap.find_page Heap.find_block Heap.new_page
    Heap.take_block Heap.cut_block Heap.move_block Heap.find_slot Heap.read Heap.write Heap.at
    Heap.free Heap.merge_block malloc_pages lock_mgr alloc_virt avl_min_size split_range avl_insert
    insert_node rebalance rotate balance update_height height update_struct map_new unlock_mgr
small_renews = record {
  new = 0x3f88;
  given = _;
  last = _;
  gives = refl;
  apart = inl (omega arith);
  takes = refl;
}

-- The segment of a task state of 104 bytes.
abbrev tss : GdtEntry
tss = record { base = 0x12345678; limit = 103; type = 0x89 }

abbrev flat : GdtEntry
flat = record { base = 0; limit = 0xFFFFFFFF; type = 0x9a }

encoded :
    (descriptor tss false ≡ 0x67 ∷ 0 ∷ 0x78 ∷ 0x56 ∷ 0x34 ∷ 0x89 ∷ 0 ∷ 0x12 ∷ [])
    × (descriptor flat true ≡ 0xFF ∷ 0xFF ∷ 0 ∷ 0 ∷ 0 ∷ 0x9a ∷ 0xAF ∷ 0 ∷ [])
unfolding descriptor flags_byte stored_limit
encoded = (refl, refl)

descriptor-reads_example :
    (base_of (descriptor flat true) ≡ 0)
    × (limit_of (descriptor flat true) ≡ 0xFFFFFFFF)
    × (type_of (descriptor flat true) ≡ 0x9a)
    × (is_long (descriptor flat true) ≡ true)
unfolding is_refused
descriptor-reads_example = descriptor-reads flat true refl (omega arith) (omega arith)

-- The table of gdt_init when its first block is full.
abbrev full : Gdt
full = record {
  base = 0x3fe0;
  entries = 4;
  allocated_size = 32;
  kern_code_seg = 0x10;
  user_code_seg = 0;
}

abbrev unloaded : Heap ℕ → World (Heap ℕ)
unloaded h = record { heap = h; bytes = λ x. 0; loaded = record { base = 0; limit = 0; code = 0 } }

full-IsTable : IsTable full
full-IsTable = record { room = omega arith; whole = refl; some_room = omega arith }

add_entry-IsAdded_example :
    IsAdded host full
      (unloaded small)
      (descriptor tss false)
      (add_entry host tss false full (unloaded small))
unfolding is_refused
add_entry-IsAdded_example =
    add_entry-IsAdded host tss false full (unloaded small) full-IsTable (omega arith) refl
      (λ _. small_renews)

abbrev unset : Gdt
unset = record { base = 0; entries = 0; allocated_size = 32; kern_code_seg = 0; user_code_seg = 0 }

gdt_init-IsInitial_example : IsInitial host (gdt_init host unset (unloaded blank))
gdt_init-IsInitial_example =
    gdt_init-IsInitial host unset (unloaded blank) 0x3fe0 small refl refl first_block.1 small_renews

-- The table that gdt_init leaves, and the heap with it.
abbrev five : Gdt
five = record {
  base = 0x3f88;
  entries = 5;
  allocated_size = 64;
  kern_code_seg = 16;
  user_code_seg = 32;
}

five-IsTable : IsTable five
five-IsTable = record { room = omega arith; whole = refl; some_room = omega arith }

task_block : (h : Heap ℕ) × (host.malloc 104 small_renews.last ≡ some (0x3f08, h))
unfolding small_renews first_block Heap.malloc Heap.find_free Heap.find_page Heap.find_block
    Heap.new_page Heap.take_block Heap.cut_block Heap.move_block Heap.find_slot Heap.read Heap.write
    Heap.at Heap.free Heap.merge_block malloc_pages lock_mgr alloc_virt avl_min_size split_range
    avl_insert insert_node rebalance rotate balance update_height height update_struct map_new
    unlock_mgr
task_block = (_, refl)

gdt_add_tss-HasTask_example :
    HasTask host 0x3f08 0xffff800000005000 five
      (unloaded small_renews.last)
      (gdt_add_tss host 0xffff800000005000 five (unloaded small_renews.last))
gdt_add_tss-HasTask_example =
    gdt_add_tss-HasTask host 0x3f08 0xffff800000005000 five (unloaded small_renews.last)
      task_block.0 five-IsTable (omega arith) task_block.1 (inr (omega arith))
      (λ full. absurd (omega arith))
