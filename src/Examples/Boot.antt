-- ===== src/Examples/Boot.antt =====
-- The boot code of common_boot.c and main.c on a small memory map.
use gapxos.Base.{ℕ, ◌≡◌, ◌==◌, if◌then◌else◌, refl, some, List, [], ◌∷◌, arith}
use gapxos.Pmm.{Pmm, MmapEntry, MemoryRange}
use gapxos.Boot.{area_end, check_from, check_memory_bounds, get_stack_size, find_safe}
use gapxos.Boot.Tables.{table_of, is_table, get_page_table_area, visit, widen}
use gapxos.Boot.Block.{Outcome}
use gapxos.Boot.Bounds.{check_memory_bounds-Outcome}

abbrev blank : Pmm
blank = record { free_pages = λ j. 0; free_index = 0; ranges = []; ap_low_page = 0 }

abbrev mmap : List MmapEntry
mmap =
    record { base_addr = 0; length = 16; type = 1 }
    ∷ record { base_addr = 16; length = 64; type = 2 }
    ∷ record { base_addr = 0x1000; length = 0x2000; type = 1 }
    ∷ []

abbrev image : List MemoryRange
image = record { start = 0x1004; end = 0x1008 } ∷ record { start = 0x1006; end = 0x1010 } ∷ []

-- The block begins at the first byte behind the areas.
behind : check_memory_bounds 0x1000 64 16 image ≡ some 0x1010
unfolding check_memory_bounds check_from area_end
behind = refl

-- A block of the length of the entry itself is not found.
exact :
    (check_memory_bounds 0x1000 16 16 [] ≡ some 0)
    × (check_memory_bounds 0x1000 17 16 [] ≡ some 0x1000)
unfolding check_memory_bounds check_from area_end
exact = (refl, refl)

required : get_stack_size mmap 0 ≡ 16
unfolding get_stack_size
required = refl

chosen : find_safe 16 image mmap ≡ some 0x1010
unfolding find_safe check_memory_bounds check_from area_end
chosen = refl

check_memory_bounds-Outcome_example :
    (r : ℕ) × (check_memory_bounds 0x1000 64 16 image ≡ some r) × Outcome 0x1000 0x1040 16 image r
check_memory_bounds-Outcome_example =
    check_memory_bounds-Outcome 0x1000 64 16 image (omega arith) (omega arith)

-- The table at 0x9000 has an entry for the one at 0x5000, and that has one for a large page and
-- one for the table at 0x7000.
abbrev memory : ℕ → ℕ
memory a =
    if a == 0x9000
    then 0x5003
    else if a == 0x5000
    then 0x3083
    else if a == 0x5008
    then 0x7003
    else 0

areas : get_page_table_area memory 0x9000 ≡ record { start = 0x5000; end = 0xa000 }
unfolding get_page_table_area visit widen is_table table_of
areas = refl
