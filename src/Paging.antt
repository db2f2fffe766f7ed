-- ===== src/Paging.antt =====
-- The page tables: kernel/system/mem_mgmt/vmm/paging.c. A table is read and written through the
-- map of physical memory at PHYSICAL_MAP_OFFSET, so memory is a function from physical addresses
-- to the words there; new tables come from the stack of pmm.c.
pub mod Trees
pub mod Relink
pub mod Link
pub mod Leaf
pub mod Enter
pub mod Walk
pub mod Words
pub mod Mapping
pub mod Stale
use gapxos.Base.{ℕ, ◌+◌, ◌*◌, ◌/◌, ◌%◌, ◌^◌, Bool, true, false, ◌==◌, if◌then◌else◌}
use Prim.Native.Nat.{bit_or}
use gapxos.Pmm.{Pmm, pmm_alloc_page, pmm_free_page, write_cell}
use gapxos.Vmm.Manager.{PageFlags}

-- Memory, and the variables of pmm.c.
pub record Store : Type 0 where
  pub words : ℕ → ℕ
  pub pool : Pmm

unfoldable pub is_present : ℕ → Bool
is_present word = word % 2 == 1

-- A word without the bits that _MASK_REMOVE_12L clears.
unfoldable pub frame_of : ℕ → ℕ
frame_of word = word / 2 ^ 12 % 2 ^ 36 * 2 ^ 12

-- The address of an entry of a table.
abbrev pub slot : ℕ → ℕ → ℕ
slot table i = table + 8 * i

-- One level of get_page_table_entry: the table that an entry leads to, made if it is not there.
unfoldable pub enter_table : ℕ → ℕ → ℕ → Store → ℕ × Store
enter_table flags_add table i s =
    let made = if is_present (s.words (slot table i)) then s else (record {
      words = write_cell s.words (slot table i) (bit_or (pmm_alloc_page s.pool).0 1);
      pool = (pmm_alloc_page s.pool).1;
    }) in
    let word = bit_or (made.words (slot table i)) flags_add in
    (frame_of word, record made { words = write_cell made.words (slot table i) word })

-- The address of the entry for a virtual address of 48 bits.
unfoldable pub get_page_table_entry : ℕ → ℕ → ℕ → Store → ℕ × Store
get_page_table_entry pml4t vaddr flags_add s =
    let (pdpt, s1) = enter_table flags_add pml4t (vaddr / 2 ^ 39) s in
    let (pdt, s2) = enter_table flags_add pdpt (vaddr % 2 ^ 39 / 2 ^ 30) s1 in
    let (pt, s3) = enter_table flags_add pdt (vaddr % 2 ^ 39 % 2 ^ 30 / 2 ^ 21) s2 in
    (slot pt (vaddr % 2 ^ 39 % 2 ^ 30 % 2 ^ 21 / 2 ^ 12), s3)

-- _PAGE_PRESENT, _PAGE_RW, _PAGE_GLOBAL or _PAGE_USER, and _PAGE_CUSTOM_USABLE.
unfoldable pub table_flags : PageFlags → ℕ
table_flags flags =
    bit_or
      (bit_or (bit_or (if flags.present then 1 else 0) (if flags.write then 2 else 0))
        (if flags.kernel then 2 ^ 8 else 4))
      (if flags.usable then 2 ^ 9 else 0)

-- What set_page writes into the entry.
unfoldable pub page_word : ℕ → PageFlags → ℕ
page_word paddr flags =
    bit_or (bit_or (frame_of paddr) (table_flags flags)) (if flags.exec then 0 else 2 ^ 63)

unfoldable pub set_page : ℕ → ℕ → ℕ → PageFlags → Store → Store
set_page pml4t vaddr paddr flags s =
    let (page, s') = get_page_table_entry pml4t (vaddr % 2 ^ 48) (table_flags flags) s in
    record s' { words = write_cell s'.words page (page_word paddr flags) }

unfoldable pub free_page : ℕ → ℕ → Store → Store
free_page pml4t vaddr s =
    let (page, s') = get_page_table_entry pml4t (vaddr % 2 ^ 48) 0 s in
    let freed : Store =
      if s'.words page / 2 ^ 9 % 2 == 1
      then record s' { pool = pmm_free_page (frame_of (s'.words page)) s'.pool }
      else s' in
    record freed { words = write_cell freed.words page 0 }
