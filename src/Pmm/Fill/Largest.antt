-- ===== src/Pmm/Fill/Largest.antt =====
-- The variable max_addr of pmm_init of pmm.c.
use gapxos.Base.{
  ℕ, ◌+◌, ◌^◌, ◌≤◌, ◌<◌, ◌≡◌, ◌⊎◌, inl, inr, refl, List, [], ◌∷◌, All, ltb, if◌then◌else◌,
  Bool-cases, arith,
}
use gapxos.Pmm.{MmapEntry, max_addr, u64}
use gapxos.Pmm.Usable.{IsLow}

abbrev pub EndsBefore : ℕ → MmapEntry → Type 0
EndsBefore m entry = entry.base_addr + entry.length ≤ m

-- Some entry ends there.
abbrev pub IsEnd : ℕ → List MmapEntry → Type 0
IsEnd m [] = ⊥
IsEnd m (entry ∷ es) = (entry.base_addr + entry.length ≡ m) ⊎ IsEnd m es

-- No entry ends behind m, and one ends there, but for a map with nothing behind address 0.
pub record IsLargestEnd (mmap : List MmapEntry) (m : ℕ) : Type 0 where
  pub bound : All (EndsBefore m) mmap
  pub reached : (m ≡ 0) ⊎ IsEnd m mmap

-- The same for the loop from a value on.
abbrev IsTop : ℕ → List MmapEntry → ℕ → Type 0
IsTop max es m = (max ≤ m) × All (EndsBefore m) es × ((m ≡ max) ⊎ IsEnd m es)

IsTop-step :
    (entry : MmapEntry) (es : List MmapEntry) (max m : ℕ)
    → entry.base_addr + entry.length + 4096 < 2 ^ 64
    → let top = u64 (entry.base_addr + entry.length) in
      IsTop (if ltb max top then top else max) es m → IsTop max (entry ∷ es) m
IsTop-step entry es max m low (above, ends, where_from) =
    let top : u64 (entry.base_addr + entry.length) ≡ entry.base_addr + entry.length = omega arith in
    (
      ground (arith, above, top),
      (ground (arith, above, top), ends),
      elim (Bool-cases (ltb max (u64 (entry.base_addr + entry.length)))) [
        | inl more ↦ elim where_from [
          | inl same ↦ inr (inl (ground (arith, same, top, more)))
          | inr e ↦ inr (inr e)
        ]
        | inr less ↦ elim where_from [
          | inl same ↦ inl (ground (arith, same, less))
          | inr e ↦ inr (inr e)
        ]
      ],
    )

max_addr-IsTop : (mmap : List MmapEntry) (max : ℕ) → IsLow mmap → IsTop max mmap (max_addr mmap max)
unfolding max_addr
max_addr-IsTop [] max low = (omega arith, tt, inl refl)
max_addr-IsTop (entry ∷ es) max low =
    let top = u64 (entry.base_addr + entry.length) in
    IsTop-step entry es max _ low.0 (max_addr-IsTop es (if ltb max top then top else max) low.1)

pub max_addr-IsLargestEnd :
    (mmap : List MmapEntry) → IsLow mmap → IsLargestEnd mmap (max_addr mmap 0)
max_addr-IsLargestEnd mmap low =
    let (_, ends, where_from) = max_addr-IsTop mmap 0 low in
    record { bound = ends; reached = where_from }
