-- ===== src/Boot/Multiboot.antt =====
-- kernel_main of kernel/boot/main.c, with the walk over the tags that the boot loader leaves in
-- memory. Memory is a function from addresses to bytes.
pub mod Encoding
pub mod Parse
pub mod Start
pub mod Root
pub mod Entries
use gapxos.Base.{
  ℕ, zero, suc, ◌+◌, ◌-◌, ◌*◌, ◌/◌, ◌%◌, ◌^◌, Bool, true, false, Option, none, some, List, [], ◌∷◌,
  ◌&&◌, ltb, ◌==◌, if◌then◌else◌, ◌>>=◌, load32, load64,
}
use gapxos.Pmm.{Pmm, MmapEntry, MemoryRange, u64}
use gapxos.Boot.{init_memory}
use gapxos.Boot.Tables.{get_page_table_area}

-- The three members of struct mb_info.
pub record MmapInfo : Type 0 where
  pub count : ℕ
  pub map : ℕ

pub record AcpiInfo : Type 0 where
  pub version : ℕ
  pub rsdp : ℕ

pub record TextInfo : Type 0 where
  pub ptr : ℕ
  pub width : ℕ
  pub height : ℕ

pub record MbInfo : Type 0 where
  pub mmap : MmapInfo
  pub acpi : AcpiInfo
  pub text : TextInfo

-- {0}
abbrev pub no_info : MbInfo
no_info = record {
  mmap = record { count = 0; map = 0 };
  acpi = record { version = 0; rsdp = 0 };
  text = record { ptr = 0; width = 0; height = 0 };
}

-- The cases 14 and 15.
unfoldable pub take_rsdp : ℕ → ℕ → MbInfo → MbInfo
take_rsdp version tag_data info =
    if ltb info.acpi.version version
    then record info { acpi = record { version = version; rsdp = tag_data } }
    else info

-- `none` where the division by the size of an entry faults.
unfoldable pub interpret_tag : (ℕ → ℕ) → ℕ → ℕ → ℕ → MbInfo → Option MbInfo
interpret_tag memory type size tag_data info =
    if type == 6
    then if load32 memory tag_data == 0
      then none
      else some (record info {
        mmap = record { count = size / load32 memory tag_data; map = tag_data + 8 };
      })
    else if type == 8
    then if memory (tag_data + 21) == 2
      then some (record info {
        text = record {
          ptr = load64 memory tag_data;
          width = load32 memory (tag_data + 12);
          height = load32 memory (tag_data + 16);
        };
      })
      else some info
    else if type == 14
    then some (take_rsdp 1 tag_data info)
    else if type == 15
    then some (take_rsdp 2 tag_data info)
    else some info

-- The size of a tag with what follows it up to the next one, in bytes.
unfoldable pub padded : ℕ → ℕ
padded size = if size % 8 == 0 then size else (size + (8 - size % 8)) % 2 ^ 32

-- The loop over the tags, on fuel: `none` when the fuel is used up.
unfoldable pub interpret_tags : (ℕ → ℕ) → ℕ → ℕ → MbInfo → Option MbInfo
interpret_tags memory zero mb info = none
interpret_tags memory (suc fuel) mb info = elim (load32 memory mb == 0) [
  | true ↦ some info
  | false ↦ elim (interpret_tag memory (load32 memory mb) (load32 memory (mb + 4)) (mb + 8) info) [
    | none ↦ none
    | some info' ↦ interpret_tags memory fuel (mb + 4 * (padded (load32 memory (mb + 4)) / 4)) info'
  ]
]

abbrev pub interpret_multiboot : (ℕ → ℕ) → ℕ → ℕ → MbInfo → Option MbInfo
interpret_multiboot memory fuel mb info = interpret_tags memory fuel (mb + 8) info

-- info.mmap.map[i] from an address on, for the elements that are left.
unfoldable pub read_map : (ℕ → ℕ) → ℕ → ℕ → List MmapEntry
read_map memory zero a = []
read_map memory (suc count) a =
    record {
      base_addr = load64 memory a;
      length = load64 memory (a + 8);
      type = load32 memory (a + 16);
    }
    ∷ read_map memory count (a + 24)

-- The characters of "RSD PTR " that are to stand at an address.
unfoldable pub has_signature : (ℕ → ℕ) → ℕ → List ℕ → Bool
has_signature memory a [] = true
has_signature memory a (c ∷ cs) = (memory a == c) && has_signature memory (a + 1) cs

abbrev pub signature : List ℕ
signature = 82 ∷ 83 ∷ 68 ∷ 32 ∷ 80 ∷ 84 ∷ 82 ∷ 32 ∷ []

-- The loop over acpi_check_ptr[i].
unfoldable pub checksum : (ℕ → ℕ) → ℕ → ℕ → ℕ → ℕ
checksum memory zero a sum = sum
checksum memory (suc rounds) a sum = checksum memory rounds (a + 1) ((sum + memory a) % 2 ^ 32)

-- The tests on what the walk has found, and acpi_rsdt: `none` where kernel_main halts.
unfoldable pub find_rsdt : (ℕ → ℕ) → MbInfo → Option ℕ
find_rsdt memory info =
    if info.mmap.count == 0
    then none
    else if info.acpi.version == 0
    then none
    else if has_signature memory info.acpi.rsdp signature
    then if checksum memory 20 info.acpi.rsdp 0 % 2 ^ 8 == 0
      then some (load32 memory (info.acpi.rsdp + 16))
      else none
    else none

-- struct system_info
pub record SystemInfo : Type 0 where
  pub acpi : ℕ
  pub acpi_version : ℕ

-- The first four elements of `unsafe`.
abbrev pub unsafe_areas : (ℕ → ℕ) → ℕ → MmapInfo → ℕ → ℕ → ℕ → ℕ → List MemoryRange
unsafe_areas memory cr3 mmap krn_start krn_end stack stack_size =
    record { start = krn_start; end = krn_end }
    ∷ get_page_table_area (load64 memory) cr3
    ∷ record { start = mmap.map; end = u64 (mmap.map + mmap.count * 24) }
    ∷ record { start = stack; end = u64 (stack + stack_size) }
    ∷ []

-- kernel_main up to the call of system_main, with what is passed to it and the variables of pmm.c.
unfoldable pub kernel_main :
    (ℕ → Pmm → Option Pmm)
    → (ℕ → ℕ → ℕ)
    → (ℕ → ℕ)
    → ℕ
    → ℕ
    → ℕ
    → ℕ
    → ℕ
    → ℕ
    → ℕ
    → Pmm
    → Option (SystemInfo × Pmm)
kernel_main init_paging cells memory fuel cr3 mb_structure krn_start krn_end stack stack_size p = do
  info ← interpret_multiboot memory fuel mb_structure no_info
  acpi_rsdt ← find_rsdt memory info
  p' ←
      init_memory init_paging cells (read_map memory info.mmap.count info.mmap.map)
        (unsafe_areas memory cr3 info.mmap krn_start krn_end stack stack_size) p
  some (record { acpi = acpi_rsdt; acpi_version = info.acpi.version }, p')
