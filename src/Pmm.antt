-- ===== src/Pmm.antt =====
-- The stack of free physical pages: kernel/system/mem_mgmt/pmm.c. The array behind _free_pages is
-- a function from indices to addresses. It has cells of eight bytes in a 64-bit address space, so
-- its index cannot pass 2^64 upwards; where the code counts it down below 0 the wrap is written
-- out.
pub mod Stack
pub mod Lowest
pub mod Usable
pub mod Fill
use gapxos.Base.{
  ℕ, zero, suc, ◌+◌, ◌-◌, ◌*◌, ◌/◌, ◌%◌, ◌^◌, Bool, true, false, not, ◌&&◌, ◌||◌, Option, none,
  some, List, [], ◌∷◌, ◌++◌, length, ltb, leb, ◌==◌, if◌then◌else◌, ◌>>=◌,
}

pub data RangeType : Type 0 where
  reserved defective hiber_save : RangeType

-- struct _physical_other_range
pub record PhysicalOtherRange : Type 0 where
  pub start : ℕ
  pub size : ℕ
  pub type : RangeType

-- The file's variables: _free_pages, _free_index, _ranges up to _ranges_size, and pmm_ap_low_page.
pub record Pmm : Type 0 where
  pub free_pages : ℕ → ℕ
  pub free_index : ℕ
  pub ranges : List PhysicalOtherRange
  pub ap_low_page : ℕ

-- struct mmap_entry and struct memory_range of pmm.h
pub record MmapEntry : Type 0 where
  pub base_addr : ℕ
  pub length : ℕ
  pub type : ℕ

pub record MemoryRange : Type 0 where
  pub start : ℕ
  pub end : ℕ

unfoldable pub write_cell : (ℕ → ℕ) → ℕ → ℕ → ℕ → ℕ
write_cell f i v j = if j == i then v else f j

unfoldable pub pmm_alloc_page : Pmm → ℕ × Pmm
pmm_alloc_page p =
    if p.free_index == 0
    then (0, p)
    else (p.free_pages (p.free_index - 1), record p { free_index = p.free_index - 1 })

unfoldable pub pmm_free_page : ℕ → Pmm → Pmm
pmm_free_page addr p = record p {
  free_pages = write_cell p.free_pages p.free_index addr;
  free_index = p.free_index + 1;
}

-- An int as a uint64_t, from its bit pattern.
unfoldable pub index_of : ℕ → ℕ
index_of v = if ltb v (2 ^ 31) then v else v + (2 ^ 64 - 2 ^ 32)

-- The first loop of _get_low_page, with the rounds left. lowest_idx is an int, its bit pattern here.
unfoldable pub lowest_from : ℕ → ℕ → ℕ → (ℕ → ℕ) → ℕ
lowest_from zero i lowest f = lowest
lowest_from (suc rounds) i lowest f =
    lowest_from rounds (i + 1) (if ltb (f i) (f (index_of lowest)) then i % 2 ^ 32 else lowest) f

-- Its second loop.
unfoldable pub shift_from : ℕ → ℕ → (ℕ → ℕ) → ℕ → ℕ
shift_from zero i f = f
shift_from (suc rounds) i f =
    shift_from rounds (i + 1) (write_cell f ((i + 2 ^ 64 - 1) % 2 ^ 64) (f i))

-- `lowest_idx + 1` is an int as well, and wraps like one.
unfoldable pub get_low_page : Pmm → ℕ × Pmm
get_low_page p =
    let lowest = lowest_from p.free_index 0 0 p.free_pages in
    let val = p.free_pages (index_of lowest) in
    let next = index_of ((lowest + 1) % 2 ^ 32) in
    let moved = shift_from (p.free_index - next) next p.free_pages in
    (val, record p { free_pages = moved; free_index = (p.free_index + 2 ^ 64 - 1) % 2 ^ 64 })

unfoldable pub is_in_range : ℕ → MemoryRange → Bool
is_in_range page range = leb range.start page && ltb page range.end

-- The loop over `unsafe`.
unfoldable pub is_unsafe : ℕ → List MemoryRange → Bool
is_unsafe cur [] = false
is_unsafe cur (r ∷ rs) = is_in_range cur r || is_unsafe cur rs

-- One round of the loop over the pages of an entry.
unfoldable pub offer : List MemoryRange → ℕ → Pmm → Pmm
offer unsafe cur p =
    if is_unsafe cur unsafe
    then p
    else if p.ap_low_page == 0 && ltb cur (2 ^ 20)
    then record p { ap_low_page = cur }
    else pmm_free_page cur p

-- That loop, on fuel.
unfoldable pub scan_pages : ℕ → List MemoryRange → ℕ → ℕ → Pmm → Pmm
scan_pages zero unsafe cur end p = p
scan_pages (suc fuel) unsafe cur end p = elim (ltb cur end) [
  | true ↦ scan_pages fuel unsafe (cur + 4096) end (offer unsafe cur p)
  | false ↦ p
]

abbrev pub u64 : ℕ → ℕ
u64 x = x % 2 ^ 64

unfoldable pub align_up : ℕ → ℕ
align_up a = if a % 4096 == 0 then a else u64 (a + (4096 - a % 4096))

unfoldable pub align_down : ℕ → ℕ
align_down a = a - a % 4096

unfoldable pub range_type : ℕ → RangeType
range_type t =
    if t == 3
    then reserved
    else if t == 4
    then hiber_save
    else if t == 5
    then defective
    else reserved

-- The branch for an entry of type 1. The fuel is the number of pages of the entry and one round
-- for the test that ends the loop.
unfoldable pub add_usable : List MemoryRange → MmapEntry → Pmm → Pmm
add_usable unsafe entry p =
    let start = align_up entry.base_addr in
    let end = align_down (u64 (entry.base_addr + entry.length)) in
    scan_pages ((end - start) / 4096 + 1) unsafe start end p

-- The other branch, behind the bounds of _ranges.
abbrev pub add_range : MmapEntry → Pmm → Pmm
add_range entry p =
    let range : PhysicalOtherRange = record {
      start = entry.base_addr;
      size = entry.length;
      type = range_type entry.type;
    } in
    record p { ranges = p.ranges ++ range ∷ [] }

-- One round of the loop over the memory map; `none` is a write behind the end of _ranges[32].
unfoldable pub add_entry : List MemoryRange → MmapEntry → Pmm → Option Pmm
add_entry unsafe entry p =
    if entry.type == 1
    then some (add_usable unsafe entry p)
    else if ltb (length p.ranges) 32
    then some (add_range entry p)
    else none

-- The variable max_addr over the loop.
unfoldable pub max_addr : List MmapEntry → ℕ → ℕ
max_addr [] max = max
max_addr (entry ∷ es) max =
    let top = u64 (entry.base_addr + entry.length) in max_addr es (if ltb max top then top else max)

unfoldable pub add_entries : List MemoryRange → List MmapEntry → Pmm → Option Pmm
add_entries unsafe [] p = some p
add_entries unsafe (entry ∷ es) p = do p' ← add_entry unsafe entry p; add_entries unsafe es p'

-- pmm_init. What _init_paging does with the state and max_addr is a parameter.
unfoldable pub pmm_init :
    (ℕ → Pmm → Option Pmm) → (ℕ → ℕ) → List MmapEntry → List MemoryRange → Pmm → Option Pmm
pmm_init init_paging stack mmap unsafe p = do
  p' ← add_entries unsafe mmap (record p { free_pages = stack })
  init_paging (max_addr mmap 0) p'
