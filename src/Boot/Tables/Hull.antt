-- ===== src/Boot/Tables/Hull.antt =====
-- get_page_table_area of common_boot.c returns the smallest range with all tables in it.
use gapxos.Base.{ℕ, suc, ◌+◌, ◌*◌, ◌≤◌, ◌<◌, ◌≡◌, true, ◌⊎◌}
use gapxos.Pmm.{MemoryRange}
use gapxos.Boot.Tables.{table_of, is_table, widen, visit}

-- The tables below a table, to a depth.
pub data Reaches (memory : ℕ → ℕ) : ℕ → ℕ → ℕ → Type 0 where
  child :
      {depth table : ℕ} (i : ℕ)
      → i < 512
      → is_table (memory (table + 8 * i)) ≡ true
      → Reaches memory (suc depth) table (table_of (memory (table + 8 * i)))
  below :
      {depth table t : ℕ} (i : ℕ)
      → i < 512
      → is_table (memory (table + 8 * i)) ≡ true
      → Reaches memory depth (table_of (memory (table + 8 * i))) t
      → Reaches memory (suc depth) table t

abbrev Grows : MemoryRange → MemoryRange → Type 0
Grows a b = (b.start ≤ a.start) × (a.end ≤ b.end)

abbrev Contains : MemoryRange → ℕ → Type 0
Contains a t = (a.start ≤ t) × (t ≤ a.end)

module _ (memory : ℕ → ℕ) where
  -- The area with a table and those below it taken in.
  abbrev inner : ℕ → ℕ → MemoryRange → MemoryRange
  inner depth t a = visit memory depth 512 0 t (widen t a)

-- The table in cr3, or one of the three levels below it.
abbrev pub IsTable : (ℕ → ℕ) → ℕ → ℕ → Type 0
IsTable memory cr3 t = (t ≡ cr3) ⊎ Reaches memory 3 cr3 t

-- The range from the lowest table to the end of the highest.
pub record IsHull (memory : ℕ → ℕ) (cr3 : ℕ) (area : MemoryRange) : Type 0 where
  pub covers : (t : ℕ) → IsTable memory cr3 t → (area.start ≤ t) × (t + 4096 ≤ area.end)
  pub lowest : IsTable memory cr3 area.start
  pub highest : (t : ℕ) × IsTable memory cr3 t × (area.end ≡ t + 4096)
