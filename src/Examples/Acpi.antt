-- ===== src/Examples/Acpi.antt =====
-- acpi.c on a root table with one pointer, over the memory manager of mem_mgmt.c.
use gapxos.Base.{
  ℕ, ◌+◌, ◌-◌, ◌<◌, ◌≡◌, refl, arith, true, false, ◌&&◌, Option, none, some, List, [], ◌∷◌, ltb,
  leb, ◌==◌, if◌then◌else◌, Bool-cases, inl, inr,
}
use gapxos.Vmm.Tree.{stale_null, insert_node, rebalance, rotate, balance, update_height, height}
use gapxos.Vmm.Tree.Search.{avl_min_size}
use gapxos.Vmm.Manager.{
  Machine, Manager, update_struct, avl_insert, split_range, alloc_virt, map_memory, map_at,
  lock_mgr, unlock_mgr,
}
use gapxos.Acpi.{Mapper, mmap_table}
use gapxos.Acpi.Kernel.{kernel_mapper}
use gapxos.Acpi.Read.{Visible}
use gapxos.Acpi.Map.{Mapped, mmap_table-Mapped}
use gapxos.Examples.Manager.{idle}

-- The physical memory, with a given checksum of the table.
abbrev image : ℕ → ℕ → ℕ
image checksum a =
    if a == 0x1004
    then 44
    else (if a == 0x1009
        then 180
        else (if a == 0x1025
            then 0x20
            else (if a == 0x2000
                then 65
                else (if a == 0x2001
                    then 80
                    else (if a == 0x2002
                        then 73
                        else (if a == 0x2003
                            then 67
                            else (if a == 0x2004
                                then 36
                                else (if a == 0x2009 then checksum else 0))))))))

-- The next struct to be created, and the pages that are mapped, with their places in memory.
record Space : Type 0 where
  next : ℕ
  pages : List (ℕ × ℕ)

abbrev look : (ℕ → ℕ) → List (ℕ × ℕ) → ℕ → Option ℕ
look phys [] a = none
look phys ((v, p) ∷ pages) a =
    if leb v a && ltb a (v + 4096) then some (phys (p + (a - v))) else look phys pages a

abbrev machine : Machine Space
machine = record {
  nodes = record {
    create_node = λ s. some (s.next, record s { next = s.next + 1 });
    free_node = λ p s. some s;
  };
  set_page = λ pml4t v p flags s. some (record s { pages = (v, p) ∷ s.pages });
  free_page = λ pml4t v s. some s;
  pmm_alloc_page = λ s. (0, s);
  parent = stale_null;
}

abbrev mapper : Mapper (Option Manager × Space)
mapper = kernel_mapper machine (λ a s. look (image 191) s.pages a)

abbrev start : Option Manager × Space
start = (some idle, record { next = 4; pages = [] })

-- map_memory gives the last two pages but for two of the free ones.
mapped_two : (s : Option Manager × Space) × (mapper.map_memory 0x1000 2 start ≡ some (0x3000, s))
unfolding map_memory lock_mgr alloc_virt avl_min_size split_range avl_insert insert_node rebalance
    rotate balance update_height height update_struct map_at unlock_mgr
mapped_two = (_, refl)

look_two :
    (f : ℕ → ℕ) (k : ℕ)
    → k < 8192
    → look f ((0x4000, 0x2000) ∷ (0x3000, 0x1000) ∷ []) (0x3000 + k) ≡ some (f (0x1000 + k))
look_two f k less = elim (Bool-cases (ltb k 4096)) [
  | inl first ↦
      let below : leb 0x4000 (0x3000 + k) && ltb (0x3000 + k) 0x5000 ≡ false =
        ground (arith, first) in
      let inside : leb 0x3000 (0x3000 + k) && ltb (0x3000 + k) 0x4000 ≡ true =
        ground (arith, first) in
      let here : 0x1000 + (0x3000 + k - 0x3000) ≡ 0x1000 + k = omega arith in
      rw (below, inside, here) refl
  | inr second ↦
      let inside : leb 0x4000 (0x3000 + k) && ltb (0x3000 + k) 0x5000 ≡ true =
        ground (arith, second) in
      let here : 0x2000 + (0x3000 + k - 0x4000) ≡ 0x1000 + k = ground (arith, second) in
      rw (inside, here) refl
]

shown_two : Visible mapper (image 191) mapped_two.0 0x3000 0x1000 8192
unfolding mapped_two map_memory lock_mgr alloc_virt avl_min_size split_range avl_insert insert_node
    rebalance rotate balance update_height height update_struct map_at unlock_mgr
shown_two k less = look_two (image 191) k less

mmap_table-Mapped_example :
    Mapped mapper (image 191) 0x1000 0x3000 mapped_two.0 (mmap_table mapper 0x1000 start)
mmap_table-Mapped_example =
    mmap_table-Mapped mapper (image 191) 0x1000 0x3000 mapped_two.0 start mapped_two.1 shown_two
      (omega arith) (omega arith)
