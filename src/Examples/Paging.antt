-- ===== src/Examples/Paging.antt =====
-- paging.c on an empty root table and a stack of six pages.
use gapxos.Base.{
  ℕ, ◌+◌, ◌*◌, ◌/◌, ◌%◌, ◌^◌, ◌≡◌, refl, true, false, none, some, [], ◌∷◌, arith, ◌==◌,
  if◌then◌else◌,
}
use gapxos.Pmm.{Pmm, pmm_alloc_page, pmm_free_page, write_cell}
use gapxos.Vmm.Manager.{PageFlags}
use gapxos.Paging.{
  Store, is_present, frame_of, enter_table, get_page_table_entry, table_flags, page_word, set_page,
  free_page,
}
use gapxos.Paging.Trees.{entry_at, Role, IsTree}
use gapxos.Paging.Enter.{IsPool}
use gapxos.Paging.Walk.{mapped}
use gapxos.Paging.Mapping.{IsRemapped, set_page-IsRemapped, free_page-IsRemapped}

abbrev stack : Pmm
stack = record { free_pages = λ k. 0x2000 + 4096 * k; free_index = 6; ranges = []; ap_low_page = 0 }

abbrev empty : Store
empty = record { words = λ a. 0; pool = stack }

abbrev role : Role
role t = if t == 0x1000 then some [] else none

abbrev flags : PageFlags
flags = record { write = true; exec = false; kernel = true; usable = true; present = true }

is_zero : is_present 0 ≡ false
unfolding is_present
is_zero = refl

none_present : (P : Type 0) → is_present 0 ≡ true → P
unfolding is_present
none_present P e = ground arith

tree : IsTree role empty.words
unfolding frame_of
tree = record {
  aligned = λ t q is. ground arith;
  child = λ t i q is short less bit. none_present (role 0 ≡ some (i ∷ q)) bit;
}

pool : IsPool role empty
pool = record {
  blank = λ k less. record {
    unused = ground arith;
    aligned = omega arith;
    low = omega arith;
    empty = λ i small. refl;
  };
  distinct = λ j k lj lk e. omega arith;
}

-- A page in the upper half, with the address of its entry and what the entry holds.
abbrev vaddr : ℕ
vaddr = 0xffff800001003123

mapped_page :
    mapped (set_page 0x1000 vaddr 0x9000 flags empty).words 0x1000 vaddr ≡ some (2 ^ 63 + 0x9303)
unfolding set_page get_page_table_entry enter_table table_flags page_word frame_of is_present
    entry_at pmm_alloc_page write_cell
mapped_page = refl

other_page : mapped (set_page 0x1000 vaddr 0x9000 flags empty).words 0x1000 (vaddr + 4096) ≡ none
unfolding set_page get_page_table_entry enter_table table_flags page_word frame_of is_present
    entry_at pmm_alloc_page write_cell
other_page = refl

set_page-IsRemapped_example :
    let s' = set_page 0x1000 vaddr 0x9000 flags empty in
    IsRemapped role 0x1000 vaddr (some (page_word 0x9000 flags)) empty s'.words s'.pool
    × (frame_of (page_word 0x9000 flags) ≡ frame_of 0x9000)
set_page-IsRemapped_example =
    set_page-IsRemapped role 0x1000 vaddr 0x9000 flags empty refl tree pool (omega arith)

abbrev after : Store
after = set_page 0x1000 vaddr 0x9000 flags empty

abbrev word : ℕ
word = page_word 0x9000 flags

remapped : IsRemapped role 0x1000 vaddr (some word) empty after.words after.pool
remapped = (set_page-IsRemapped role 0x1000 vaddr 0x9000 flags empty refl tree pool (omega arith)).0

-- The page is freed again.
free_page-IsRemapped_example :
    (left : Pmm) × IsRemapped remapped.role' 0x1000 vaddr none after
      (free_page 0x1000 vaddr after).words
      left
    × ((free_page 0x1000 vaddr after).pool
        ≡ (if word / 2 ^ 9 % 2 == 1 then pmm_free_page (frame_of word) left else left))
free_page-IsRemapped_example =
    free_page-IsRemapped remapped.role' 0x1000 vaddr word after remapped.is_root remapped.tree
      remapped.blanks (omega (arith, remapped.taken)) remapped.entry

-- The page on top of the stack holds a present word.
abbrev dirty : Store
dirty = record { words = λ a. if a == 0x7010 then 0x666003 else 0; pool = stack }

dirty_top : (pmm_alloc_page stack).0 ≡ 0x7000
unfolding pmm_alloc_page
dirty_top = refl
