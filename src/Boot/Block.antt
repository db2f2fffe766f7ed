-- ===== src/Boot/Block.antt =====
-- What check_memory_bounds of common_boot.c is to find.
use gapxos.Base.{ℕ, ◌+◌, ◌≤◌, ◌<◌, ◌≡◌, List, ◌⊎◌}
use gapxos.Pmm.{MemoryRange}
use gapxos.Boot.Area.{IsClear, EndsSome}

-- A block of the wanted size at the address, with at least one byte more before the end, and
-- clear of all areas.
pub record IsFree (base top req : ℕ) (unsafe : List MemoryRange) (at : ℕ) : Type 0 where
  pub lower : base ≤ at
  pub upper : at + req < top
  pub clear : (x : ℕ) → at ≤ x → x < at + req → IsClear unsafe x

-- What check_memory_bounds finds: the first free block, or a block before all free ones that is
-- clear but for its first byte, where an area ends.
pub record IsFound (base top req : ℕ) (unsafe : List MemoryRange) (r : ℕ) : Type 0 where
  pub lower : base ≤ r
  pub upper : r + req < top
  pub clear : (x : ℕ) → r < x → x < r + req → IsClear unsafe x
  pub first : (req ≡ 0) ⊎ IsClear unsafe r ⊎ EndsSome r unsafe
  pub least : (at : ℕ) → IsFree base top req unsafe at → r ≤ at

-- Or there is no free block.
abbrev pub Outcome : ℕ → ℕ → ℕ → List MemoryRange → ℕ → Type 0
Outcome base top req unsafe r =
    IsFound base top req unsafe r ⊎ ((r ≡ 0) × ((at : ℕ) → ¬ IsFree base top req unsafe at))
