-- ===== src/Boot/Choice.antt =====
-- The loop of kernel_main in main.c that looks for memory for the stack of free pages.
use gapxos.Base.{
  ℕ, ◌+◌, ◌≡◌, ◌≢◌, refl, some, List, [], ◌∷◌, ◌⊎◌, inl, inr, arith, ◌==◌, Bool-cases, All,
}
use gapxos.Pmm.{MmapEntry, MemoryRange}
use gapxos.Pmm.Usable.{IsLow}
use gapxos.Boot.{find_safe}
use gapxos.Boot.Area.{IsLowEnd}
use gapxos.Boot.Block.{IsFree, IsFound}
use gapxos.Boot.Bounds.{check_memory_bounds-Outcome}

-- The block is the one found in a usable entry.
abbrev pub FoundIn : ℕ → List MemoryRange → ℕ → List MmapEntry → Type 0
FoundIn req unsafe r [] = ⊥
FoundIn req unsafe r (entry ∷ es) =
    ((entry.type ≡ 1) × IsFound entry.base_addr (entry.base_addr + entry.length) req unsafe r)
    ⊎ FoundIn req unsafe r es

-- No usable entry has a clear block, but perhaps one that begins at 0.
abbrev pub HasNone : ℕ → List MemoryRange → List MmapEntry → Type 0
HasNone req unsafe es =
    All
      (λ entry.
        entry.type ≡ 1
        → entry.base_addr ≢ 0
        → (at : ℕ) → ¬ IsFree entry.base_addr (entry.base_addr + entry.length) req unsafe at)
      es

abbrev pub Chosen : ℕ → List MemoryRange → List MmapEntry → ℕ → Type 0
Chosen req unsafe es r = ((r ≢ 0) × FoundIn req unsafe r es) ⊎ ((r ≡ 0) × HasNone req unsafe es)

Chosen-skip :
    (req : ℕ) (unsafe : List MemoryRange) (entry : MmapEntry) (es : List MmapEntry) (r : ℕ)
    → (entry.type ≡ 1
        → entry.base_addr ≢ 0
        → (at : ℕ) → ¬ IsFree entry.base_addr (entry.base_addr + entry.length) req unsafe at)
    → Chosen req unsafe es r
    → Chosen req unsafe (entry ∷ es) r
Chosen-skip req unsafe entry es r nowhere (inl (ne, found)) = inl (ne, inr found)
Chosen-skip req unsafe entry es r nowhere (inr (zeros, rest)) = inr (zeros, (nowhere, rest))

-- With a memory map that stays below the last page of the address space, and areas that end
-- before its last byte: the loop ends. It ends with the address of a block, found as
-- check_memory_bounds finds it, in a usable entry; or with 0, and then no usable entry has a
-- block that is clear, but perhaps one that begins at address 0.
pub find_safe-Chosen :
    (required : ℕ) (unsafe : List MemoryRange) (mmap : List MmapEntry)
    → IsLow mmap
    → All IsLowEnd unsafe
    → (r : ℕ) × (find_safe required unsafe mmap ≡ some r) × Chosen required unsafe mmap r
unfolding find_safe
find_safe-Chosen req unsafe [] low ends = (0, refl, inr (refl, tt))
find_safe-Chosen req unsafe (entry ∷ es) low ends =
    let (rest, e, chosen) = find_safe-Chosen req unsafe es low.1 ends in
    elim (Bool-cases (entry.type == 1)) [
      | inr other ↦
          (rest, rw other e, Chosen-skip req unsafe entry es rest (λ t. ground arith) chosen)
      | inl usable ↦
          let (r, f, outcome) =
            check_memory_bounds-Outcome entry.base_addr entry.length req unsafe
              (omega (arith, low.0)) ends in
          elim (Bool-cases (r == 0)) [
            | inl zeros ↦ (
              rest,
              rw (usable, f, zeros) e,
              Chosen-skip req unsafe entry es rest
                  (λ t ne. elim outcome [
                    | inl found ↦ absurd (ne (ground (arith, found.lower)))
                    | inr nowhere ↦ nowhere.1
                  ])
                  chosen,
            )
            | inr found ↦ (
              r,
              rw (usable, f, found) refl,
              elim outcome [
                | inl block ↦ inl (ground arith, inl (ground arith, block))
                | inr nowhere ↦ absurd (ground (arith, nowhere.0))
              ],
            )
          ]
    ]
