-- ===== src/Pmm/Usable.antt =====
-- The pages that pmm_init of pmm.c may hand out, as the memory map and the reserved areas say.
use gapxos.Base.{ℕ, ◌+◌, ◌%◌, ◌^◌, ◌≤◌, ◌<◌, ◌≡◌, ◌⊎◌, false, List, [], ◌∷◌, arith}
use gapxos.Pmm.{MmapEntry, MemoryRange, is_unsafe, align_up, align_down, u64}

-- The whole page at a lies in the entry, which is of type 1.
abbrev pub IsInside : ℕ → MmapEntry → Type 0
IsInside a entry =
    (entry.type ≡ 1) × (entry.base_addr ≤ a) × (a + 4096 ≤ entry.base_addr + entry.length)

abbrev pub IsInSome : ℕ → List MmapEntry → Type 0
IsInSome a [] = ⊥
IsInSome a (entry ∷ es) = IsInside a entry ⊎ IsInSome a es

-- The map describes memory below the last page of the address space.
abbrev pub IsLow : List MmapEntry → Type 0
IsLow [] = Unit
IsLow (entry ∷ es) = (entry.base_addr + entry.length + 4096 < 2 ^ 64) × IsLow es

-- A page that pmm_init may hand out.
abbrev pub IsUsable : List MemoryRange → List MmapEntry → ℕ → Type 0
IsUsable unsafe mmap a = (a % 4096 ≡ 0) × (is_unsafe a unsafe ≡ false) × IsInSome a mmap

-- Between the rounded bounds of an entry stand the pages that lie in it whole.
pub align_bounds :
    (entry : MmapEntry) (a : ℕ)
    → entry.base_addr + entry.length + 4096 < 2 ^ 64
    → a % 4096 ≡ 0
    → align_up entry.base_addr ≤ a
    → a < align_down (u64 (entry.base_addr + entry.length))
    → (entry.base_addr ≤ a) × (a + 4096 ≤ entry.base_addr + entry.length)
unfolding align_up align_down
align_bounds entry a low aligned lower upper = ground arith

pub align_inside :
    (entry : MmapEntry) (a : ℕ)
    → entry.base_addr + entry.length + 4096 < 2 ^ 64
    → a % 4096 ≡ 0
    → entry.base_addr ≤ a
    → a + 4096 ≤ entry.base_addr + entry.length
    → (align_up entry.base_addr ≤ a) × (a < align_down (u64 (entry.base_addr + entry.length)))
unfolding align_up align_down
align_inside entry a low aligned lower upper = ground arith

pub align_up_aligned : (a : ℕ) → a + 4096 < 2 ^ 64 → align_up a % 4096 ≡ 0
unfolding align_up
align_up_aligned a low = ground arith
