-- ===== src/Boot/Tables.antt =====
-- The memory that the page tables take up at boot: get_page_table_area of
-- kernel/boot/common_boot.c. Memory is a function from addresses to the 64-bit words there.
pub mod Hull
use gapxos.Base.{
  ℕ, zero, suc, ◌+◌, ◌-◌, ◌*◌, ◌/◌, ◌%◌, ◌^◌, Bool, true, false, not, ◌&&◌, ltb, ◌==◌,
  if◌then◌else◌,
}
use gapxos.Pmm.{MemoryRange, u64}

-- The bits 12 to 62 of an entry; with any of the bits 56 to 59, bit 63 is set in what is left.
unfoldable pub table_of : ℕ → ℕ
table_of entry =
    let bits = entry % 2 ^ 63 - entry % 2 ^ 12 in
    if bits / 2 ^ 56 % 16 == 0 then bits else bits + 2 ^ 63

-- An entry that is not passed over: it has an address, and its bit 7 is clear.
unfoldable pub is_table : ℕ → Bool
is_table entry = not (table_of entry == 0) && entry / 2 ^ 7 % 2 == 0

-- *start and *end, moved to take in the address.
unfoldable pub widen : ℕ → MemoryRange → MemoryRange
widen table area = record {
  start = if ltb table area.start then table else area.start;
  end = if ltb area.end table then table else area.end;
}

-- The three nested loops, which have the same body: at a depth of three the loop over pml4t, at
-- one the loop over pdt. Then the rounds left, the index and the table.
unfoldable pub visit : (ℕ → ℕ) → ℕ → ℕ → ℕ → ℕ → MemoryRange → MemoryRange
visit memory zero rounds i table area = area
visit memory (suc depth) zero i table area = area
visit memory (suc depth) (suc rounds) i table area =
    let entry = memory (table + 8 * i) in
    visit memory (suc depth) rounds (i + 1) table (elim (is_table entry) [
      | true ↦ visit memory depth 512 0 (table_of entry) (widen (table_of entry) area)
      | false ↦ area
    ])

-- The register cr3, read into pml4t, is an argument.
unfoldable pub get_page_table_area : (ℕ → ℕ) → ℕ → MemoryRange
get_page_table_area memory cr3 =
    let area = visit memory 3 512 0 cr3 (record { start = cr3; end = cr3 }) in
    record area { end = u64 (area.end + 4096) }
