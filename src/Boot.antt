-- ===== src/Boot.antt =====
-- How the kernel finds memory for the stack of free pages: check_memory_bounds and get_stack_size
-- of kernel/boot/common_boot.c and the loop of kernel_main in kernel/boot/main.c that calls them.
pub mod Area
pub mod Block
pub mod Rounds
pub mod Bounds
pub mod Choice
pub mod Room
pub mod Memory
pub mod Tables
pub mod Multiboot
use gapxos.Base.{
  ℕ, zero, suc, ◌+◌, ◌-◌, ◌*◌, ◌/◌, ◌%◌, ◌^◌, Bool, true, false, ◌&&◌, Option, none, some, List, [],
  ◌∷◌, ltb, leb, ◌==◌, if◌then◌else◌, ◌>>=◌, ◌++◌,
}
use gapxos.Pmm.{Pmm, MmapEntry, MemoryRange, u64, pmm_init}

-- The loop over `unsafe`: the end of the first area that holds ptr.
unfoldable pub area_end : ℕ → List MemoryRange → Option ℕ
area_end ptr [] = none
area_end ptr (area ∷ areas) =
    if ltb area.start ptr && ltb ptr area.end then some area.end else area_end ptr areas

-- The outer loop, on fuel: `none` when the fuel is used up.
unfoldable pub check_from : ℕ → ℕ → ℕ → List MemoryRange → ℕ → ℕ → Option ℕ
check_from zero check_end req_size unsafe ptr count = none
check_from (suc fuel) check_end req_size unsafe ptr count = elim (ltb ptr check_end) [
  | false ↦ some 0
  | true ↦ elim (leb req_size count) [
    | true ↦ some (u64 (ptr + (2 ^ 64 - count)))
    | false ↦ elim (area_end ptr unsafe) [
      | none ↦ check_from fuel check_end req_size unsafe (u64 (ptr + 1)) (u64 (count + 1))
      | some end ↦ check_from fuel check_end req_size unsafe (u64 (end + 1)) 1
    ]
  ]
]

-- The fuel is one round for each byte and one for the test that ends the loop.
unfoldable pub check_memory_bounds : ℕ → ℕ → ℕ → List MemoryRange → Option ℕ
check_memory_bounds base len req_size unsafe =
    check_from (len + 1) (u64 (base + len)) req_size unsafe base 0

unfoldable pub get_stack_size : List MmapEntry → ℕ → ℕ
get_stack_size [] size = size
get_stack_size (entry ∷ es) size =
    get_stack_size es (if entry.type == 1 then u64 (size + entry.length / 4096 * 8) else size)

-- The loop of kernel_main over the memory map, with the variable `safe` when it ends.
unfoldable pub find_safe : ℕ → List MemoryRange → List MmapEntry → Option ℕ
find_safe required unsafe [] = some 0
find_safe required unsafe (entry ∷ es) =
    if entry.type == 1
    then (do
      safe ← check_memory_bounds entry.base_addr entry.length required unsafe
      if safe == 0 then find_safe required unsafe es else some safe)
    else find_safe required unsafe es

-- unsafe[4]
abbrev pub stack_area : ℕ → ℕ → MemoryRange
stack_area safe required = record { start = safe; end = u64 (safe + required) }

-- kernel_main from the call of get_stack_size to that of pmm_init, with the first four areas of
-- `unsafe`: `none` where it halts for want of memory. The cells at an address are a parameter, as
-- is what _init_paging does.
unfoldable pub init_memory :
    (ℕ → Pmm → Option Pmm) → (ℕ → ℕ → ℕ) → List MmapEntry → List MemoryRange → Pmm → Option Pmm
init_memory init_paging cells mmap unsafe p =
    let required = get_stack_size mmap 0 in
    do
      safe ← find_safe required unsafe mmap
      (if safe == 0
          then none
          else pmm_init init_paging (cells safe) mmap (unsafe ++ stack_area safe required ∷ []) p)
