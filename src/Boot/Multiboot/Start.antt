-- ===== src/Boot/Multiboot/Start.antt =====
-- kernel_main of main.c as a whole, from the tags to the stack of free pages.
use gapxos.Base.{
  ℕ, ◌+◌, ◌-◌, ◌*◌, ◌%◌, ◌≡◌, ◌⊎◌, Option, none, some, List, [], ◌∷◌, ◌++◌, bytes32, ◌>>=◌,
}
use gapxos.Pmm.{Pmm, MmapEntry, MemoryRange}
use gapxos.Pmm.Fill.{IsLargestEnd}
use gapxos.Boot.{get_stack_size}
use gapxos.Boot.Choice.{HasNone}
use gapxos.Boot.Memory.{IsReady}
use gapxos.Boot.Multiboot.{AcpiInfo, SystemInfo, signature}
use gapxos.Boot.Multiboot.Encoding.{Tag}
use gapxos.Boot.Multiboot.Entries.{map_tag, behind}
use gapxos.Boot.Multiboot.Root.{newest}

unfoldable pub sum_of : List ℕ → ℕ
sum_of [] = 0
sum_of (b ∷ bs) = b + sum_of bs

-- The byte that makes a sum a multiple of 256.
abbrev pub complement : ℕ → ℕ
complement sum = (256 - sum % 256) % 256

-- The first 20 bytes of a struct RSDPDescriptor, with six characters for the vendor.
abbrev pub rest_of : (c0 c1 c2 c3 c4 c5 revision address : ℕ) → List ℕ
rest_of c0 c1 c2 c3 c4 c5 revision address =
    c0 ∷ c1 ∷ c2 ∷ c3 ∷ c4 ∷ c5 ∷ revision ∷ bytes32 address

abbrev pub encode_rsdp : (c0 c1 c2 c3 c4 c5 revision address : ℕ) → List ℕ
encode_rsdp c0 c1 c2 c3 c4 c5 revision address =
    let rest = rest_of c0 c1 c2 c3 c4 c5 revision address in
    signature ++ (complement (sum_of signature + sum_of rest) ∷ rest)

-- The areas that are kept: the kernel, the page tables, the memory map and the stack of the kernel.
abbrev pub kept_areas :
    (krn_start krn_end : ℕ) → MemoryRange → (map count stack stack_size : ℕ) → List MemoryRange
kept_areas krn_start krn_end tables map count stack stack_size =
    record { start = krn_start; end = krn_end }
    ∷ tables
    ∷ record { start = map; end = map + count * 24 }
    ∷ record { start = stack; end = stack + stack_size }
    ∷ []

-- The two outcomes of kernel_main, for these entries and areas: it halts, or it comes to the call
-- of _init_paging, behind which it passes on `out`.
abbrev pub Started :
    (ℕ → Pmm → Option Pmm)
    → List MmapEntry
    → List MemoryRange
    → SystemInfo
    → Option (SystemInfo × Pmm)
    → Type 0
Started init_paging es areas out result =
    ((result ≡ none) × HasNone (get_stack_size es 0) areas es)
    ⊎ ((p : Pmm) × (top : ℕ) × (result ≡ (do q ← init_paging top p; some (out, q)))
        × IsLargestEnd es top
        × IsReady es areas p)

module _ (memory : ℕ → ℕ) (mb version : ℕ) (before after : List Tag) (es : List MmapEntry) where
  abbrev tags : List Tag
  tags = before ++ map_tag version es ∷ after

  -- The last memory map of the tags, and the root pointer that is preferred.
  abbrev map : ℕ
  map = behind (mb + 8) before + 16

  abbrev root : AcpiInfo
  root = newest (mb + 8) tags (record { version = 0; rsdp = 0 })
