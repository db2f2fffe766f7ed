-- ===== src/Acpi.antt =====
-- The tables of the firmware: kernel/system/acpi/acpi.c. The memory manager with the kernel's own
-- struct, and the memory behind its addresses, are the interface Mapper, which Acpi/Kernel fills by
-- map_memory and free_pages of Vmm/Manager; the file's variables are a record.
pub mod Kernel
pub mod Read
pub mod Map
use gapxos.Base.{
  ℕ, zero, suc, ◌+◌, ◌-◌, ◌*◌, ◌/◌, ◌%◌, ◌^◌, Bool, true, false, not, Option, none, some, List, [],
  ◌∷◌, ltb, ◌==◌, if◌then◌else◌, ◌>>=◌,
}
use gapxos.Pmm.{u64}

-- map_memory(&kern_vmm, …, 1) and free_pages(&kern_vmm, …), which may fault or never get the lock;
-- a load faults where nothing is mapped.
pub record Mapper (S : Type 0) : Type 0 where
  pub map_memory : ℕ → ℕ → S → Option (ℕ × S)
  pub free_pages : ℕ → S → Option S
  pub load : ℕ → S → Option ℕ

-- _is_xsdt and _rsdt, with the state of the memory manager.
pub record Acpi (S : Type 0) : Type 0 where
  pub is_xsdt : Bool
  pub rsdt : ℕ
  pub memory : S

-- The size of a struct acpi_sdt_hdr, and the place of its field length.
abbrev pub header_size : ℕ
header_size = 36

abbrev pub length_at : ℕ
length_at = 4

module _ {S : Type 0} (mapper : Mapper S) where
  -- The value of so many bytes at an address.
  unfoldable pub load_word : ℕ → ℕ → S → Option ℕ
  load_word zero p s = some 0
  load_word (suc n) p s = do
    b ← mapper.load p s
    rest ← load_word n (p + 1) s
    some (b + 2 ^ 8 * rest)

  -- The loop of _validate_checksum, with the rounds left.
  unfoldable pub sum_from : ℕ → ℕ → ℕ → S → Option ℕ
  sum_from zero p sum s = some sum
  sum_from (suc rounds) p sum s = do
    b ← mapper.load p s
    sum_from rounds (p + 1) ((sum + b) % 2 ^ 8) s

  unfoldable pub validate_checksum : ℕ → S → Option Bool
  validate_checksum hdr s = do
    length ← load_word 4 (hdr + length_at) s
    sum ← sum_from length hdr 0 s
    some (sum == 0)

  -- The characters are compared from the first one on; `table` may be NULL.
  unfoldable pub is_table : ℕ → List ℕ → S → Option Bool
  is_table table [] s = some true
  is_table table (c ∷ cs) s = elim (mapper.load table s) [
    | none ↦ none
    | some b ↦ elim (b == c) [ true ↦ is_table (table + 1) cs s | false ↦ some false ]
  ]

  -- The branch of _mmap_table for a table that does not end in its first page.
  unfoldable pub map_again : ℕ → ℕ → ℕ → S → Option (ℕ × S)
  map_again table mapped length s =
      let len = (length + (4096 - length % 4096)) % 2 ^ 32 in
      do
        s1 ← mapper.free_pages mapped s
        (again, s2) ← mapper.map_memory (table - table % 4096) (len / 4096 + 1) s1
        some (u64 (again + table % 4096), s2)

  unfoldable pub mmap_table : ℕ → S → Option (ℕ × S)
  mmap_table table s = do
    (mapped, s1) ← mapper.map_memory (table - table % 4096) 2 s
    let hdr = u64 (mapped + table % 4096)
    valid ← validate_checksum hdr s1
    length ← load_word 4 (hdr + length_at) s1
    (if not valid
        then (do s2 ← mapper.free_pages mapped s1; some (0, s2))
        else if ltb (4096 - table % 4096) length
        then map_again table mapped length s1
        else some (hdr, s1))

  unfoldable pub unmap_table : ℕ → S → Option S
  unmap_table table s = mapper.free_pages (table - table % 4096) s

  unfoldable pub acpi_init : ℕ → Bool → Acpi S → Option (Acpi S)
  acpi_init rsdt is_xsdt a = do
    (mapped, s) ← mmap_table rsdt a.memory
    (if mapped == 0
        then some (record a { memory = s })
        else some (record { is_xsdt = is_xsdt; rsdt = mapped; memory = s }))

  -- The loop of GET_TABLE, for pointers of so many bytes: the rounds left, and the next pointer.
  unfoldable pub get_from : ℕ → ℕ → ℕ → List ℕ → S → Option (ℕ × S)
  get_from width zero p signature s = some (0, s)
  get_from width (suc rounds) p signature s = elim (load_word width p s) [
    | none ↦ none
    | some entry ↦ elim (mmap_table entry s) [
      | none ↦ none
      | some mapped ↦ elim (is_table mapped.0 signature mapped.1) [
        | none ↦ none
        | some found ↦ elim found [
          | true ↦ some mapped
          | false ↦ elim (unmap_table mapped.0 mapped.1) [
            | none ↦ none
            | some s' ↦ get_from width rounds (p + width) signature s'
          ]
        ]
      ]
    ]
  ]

  unfoldable pub acpi_get_table : List ℕ → Acpi S → Option (ℕ × Acpi S)
  acpi_get_table signature a =
      let width = if a.is_xsdt then 8 else 4 in
      if a.rsdt == 0 then some (0, a) else (do
        length ← load_word 4 (a.rsdt + length_at) a.memory
        (table, s) ←
            get_from width (u64 (length + 2 ^ 64 - header_size) / width) (a.rsdt + header_size)
              signature a.memory
        some (table, record a { memory = s }))
