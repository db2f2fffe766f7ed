-- ===== src/Loader.antt =====
-- Where the kernel is put: find_elf64_phys_origin of loader/loader.c.
pub mod Origin
use gapxos.Base.{
  ℕ, ◌+◌, ◌-◌, ◌*◌, ◌%◌, ◌^◌, ◌≤◌, ◌<◌, ◌≡◌, ◌≢◌, refl, arith, Bool, true, false, Option, none,
  some, List, [], ◌∷◌, ltb, leb, ◌==◌, if◌then◌else◌, inl, inr, ◌⊎◌, Bool-cases,
}
use gapxos.Pmm.{MmapEntry, u64}

-- An int as a uint64_t, from the low 32 bits.
unfoldable pub as_int : ℕ → ℕ
as_int v = if ltb (v % 2 ^ 32) (2 ^ 31) then v % 2 ^ 32 else v % 2 ^ 32 + 2 ^ 64 - 2 ^ 32

-- base and length after the rounding up to a page.
unfoldable pub place_kernel : ℕ → ℕ → ℕ → Option ℕ
place_kernel size base length =
    let rest = 0x1000 - base % 0x1000 in
    if base % 0x1000 == 0
    then if leb size length then some (base % 2 ^ 32) else none
    else if leb size (u64 (length + 2 ^ 64 - rest))
    then some (u64 (base + rest) % 2 ^ 32)
    else none

-- The body of the loop for an entry: what it returns, if it does.
unfoldable pub try_entry : ℕ → ℕ → MmapEntry → Option ℕ
try_entry min_addr size entry =
    let diff = as_int (min_addr - entry.base_addr) in
    if entry.type == 1
    then if ltb entry.base_addr min_addr
      then if ltb entry.length diff
        then none
        else place_kernel size (u64 (entry.base_addr + diff)) (entry.length - diff)
      else place_kernel size entry.base_addr entry.length
    else none

-- The loop over memory_map: 0 when nothing is found.
unfoldable pub find_elf64_phys_origin : ℕ → ℕ → List MmapEntry → ℕ
find_elf64_phys_origin min_addr size [] = 0
find_elf64_phys_origin min_addr size (entry ∷ es) = elim (try_entry min_addr size entry) [
  | some origin ↦ origin
  | none ↦ find_elf64_phys_origin min_addr size es
]
