-- ===== src/Examples/Pages.antt =====
-- pmm.c on a memory map of three entries.
use gapxos.Base.{ℕ, ◌≡◌, refl, none, some, List, [], ◌∷◌, arith, ◌==◌, if◌then◌else◌}
use gapxos.Pmm.{
  Pmm, MmapEntry, MemoryRange, pmm_free_page, get_low_page, pmm_init, max_addr, add_entries,
  add_entry, add_usable, scan_pages, offer, is_unsafe, is_in_range, align_up, align_down,
  range_type, write_cell, hiber_save, index_of, lowest_from, shift_from,
}
use gapxos.Pmm.Stack.{free_stack, cells}
use gapxos.Pmm.Lowest.{TakesLowest, get_low_page-TakesLowest}
use gapxos.Pmm.Fill.{others, pmm_init_overflow}

abbrev blank : Pmm
blank = record { free_pages = λ j. 0; free_index = 0; ranges = []; ap_low_page = 0 }

abbrev usable : ℕ → ℕ → MmapEntry
usable b l = record { base_addr = b; length = l; type = 1 }

abbrev hiber : MmapEntry
hiber = record { base_addr = 0x9000; length = 0x1000; type = 4 }

abbrev mmap : List MmapEntry
mmap = usable 0x1800 0x4000 ∷ hiber ∷ usable 0x200000 0x3000 ∷ []

abbrev unsafe : List MemoryRange
unsafe = record { start = 0x3000; end = 0x4000 } ∷ []

-- Pages 0x2000 (kept), 0x4000 and the three of the last entry; 0x3000 is reserved, and the ends
-- of the first entry hold no whole page.
filled :
    pmm_init (λ max p. some (record p { free_pages = λ j. max })) (λ j. 0) mmap unsafe blank
    ≡ some (record {
      free_pages = λ j. 0x203000;
      free_index = 4;
      ranges = record { start = 0x9000; size = 0x1000; type = hiber_save } ∷ [];
      ap_low_page = 0x2000;
    })
unfolding pmm_init max_addr add_entries add_entry add_usable scan_pages offer is_unsafe is_in_range
    align_up align_down range_type pmm_free_page
filled = refl

abbrev eleven : List MmapEntry → List MmapEntry
eleven es =
    hiber ∷ hiber ∷ hiber ∷ hiber ∷ hiber ∷ hiber ∷ hiber ∷ hiber ∷ hiber ∷ hiber ∷ hiber ∷ es

pmm_init_overflow_example :
    pmm_init (λ max p. some p) (λ j. 0) (eleven (eleven (eleven mmap))) unsafe blank ≡ none
unfolding others
pmm_init_overflow_example =
    pmm_init_overflow (λ max p. some p) (λ j. 0) (eleven (eleven (eleven mmap))) unsafe blank refl
      (omega arith)

abbrev three : Pmm
three = record {
  free_pages = λ j. if j == 0 then 0x5000 else if j == 1 then 0x2000 else 0x7000;
  free_index = 3;
  ranges = [];
  ap_low_page = 0x1000;
}

get_low_page-TakesLowest_example : TakesLowest three (get_low_page three).0 (get_low_page three).1
get_low_page-TakesLowest_example = get_low_page-TakesLowest three (omega arith) (omega arith)

lowest_first :
    ((get_low_page three).0 ≡ 0x2000) × (free_stack (get_low_page three).1 ≡ 0x7000 ∷ 0x5000 ∷ [])
unfolding get_low_page index_of lowest_from shift_from free_stack cells write_cell
lowest_first = (refl, refl)
