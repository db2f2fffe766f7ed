-- ===== src/Paging/Mapping.antt =====
-- set_page and free_page of paging.c change what one page is mapped to, and nothing else.
use gapxos.Base.{
  ℕ, ◌+◌, ◌/◌, ◌%◌, ◌^◌, ◌≤◌, ◌<◌, ◌≡◌, ◌≢◌, refl, sym, ◌∙◌, ap, subst, Option, none, some, List,
  [], ◌∷◌, length, arith, ◌==◌, if◌then◌else◌, Bool-cases, inl, inr,
}
use gapxos.Pmm.{Pmm, write_cell, pmm_free_page}
use gapxos.Vmm.Manager.{PageFlags}
use gapxos.Paging.{
  Store, is_present, frame_of, slot, get_page_table_entry, table_flags, page_word, set_page,
  free_page,
}
use gapxos.Paging.Words.{table_flags_small, is_present-page_word, frame_of-page_word}
use gapxos.Paging.Trees.{entry_at, Role, IsTree, full_path, present-zero, written-cases}
use gapxos.Paging.Leaf.{leaf-IsTree, leaf-entry_at, leaf-entry_at_self}
use gapxos.Paging.Enter.{IsPool, write-IsPool}
use gapxos.Paging.Walk.{
  index4, index3, index2, index1, path, mapped, IsWalked, get_page_table_entry-IsWalked,
}

-- The number of the page of an address, in the 48 bits that are looked at.
abbrev pub page_number : ℕ → ℕ
page_number vaddr = vaddr / 2 ^ 12 % 2 ^ 36

path-page_number : (a b : ℕ) → path a ≡ path b → page_number a ≡ page_number b
path-page_number a b e =
    let e4 : index4 a ≡ index4 b = ground arith in
    let e3 : index3 a ≡ index3 b = ground arith in
    let e2 : index2 a ≡ index2 b = ground arith in
    let e1 : index1 a ≡ index1 b = ground arith in omega arith

-- One page is mapped to something else, and all others to what they were mapped to.
pub record IsRemapped (role : Role) (root vaddr : ℕ) (found : Option ℕ) (s : Store) (words' : ℕ → ℕ)
    (left : Pmm) : Type 0 where
  pub role' : Role
  pub tree : IsTree role' words'
  pub blanks : IsPool role' (record { words = words'; pool = left })
  pub taken : s.pool.free_index ≤ left.free_index + 3
  pub is_root : role' root ≡ some []
  pub entry : mapped words' root vaddr ≡ found
  pub others :
      (a : ℕ) → page_number a ≢ page_number vaddr → mapped words' root a ≡ mapped s.words root a

module _ (role : Role) (root vaddr : ℕ) (s : Store) (is_root : role root ≡ some []) (entry : ℕ)
    (s' : Store) (w : IsWalked role root vaddr s entry s') (word : ℕ) where
  abbrev words' : ℕ → ℕ
  words' = write_cell s'.words entry word

  abbrev way : List ℕ
  way = index2 vaddr ∷ index3 vaddr ∷ index4 vaddr ∷ []

  full_path-way : full_path way (index1 vaddr ∷ []) ≡ path vaddr
  unfolding full_path
  full_path-way = refl

  full_path-root : (is : List ℕ) → full_path [] is ≡ is
  unfolding full_path
  full_path-root is = refl

  -- A write into a table of another level.
  upper :
      (u j : ℕ) (r : List ℕ)
      → w.role' u ≡ some r
      → length r < 3
      → j < 512
      → write_cell s'.words (slot w.pt (index1 vaddr)) word (slot u j) ≡ s'.words (slot u j)
  upper u j r is short less =
      elim (written-cases w.role' s'.words w.tree w.pt (index1 vaddr) way w.role1 (omega arith) word
        u j r is less) [
          | inl (tables, entries, roles, new) ↦ absurd (omega (arith, ap length roles))
          | inr kept ↦ kept
        ]

  write-mapped :
      mapped (write_cell s'.words (slot w.pt (index1 vaddr)) word) root vaddr
      ≡ (if is_present word then some word else none)
  unfolding entry_at
  write-mapped =
      let kept4 =
        upper root (index4 vaddr) [] (w.keeps root [] is_root) (omega arith) (omega arith) in
      let kept3 =
        upper w.pdpt (index3 vaddr) (index4 vaddr ∷ []) w.role3 (omega arith) (omega arith) in
      let kept2 =
        upper w.pdt (index2 vaddr) (index3 vaddr ∷ index4 vaddr ∷ []) w.role2 (omega arith)
          (omega arith) in
      rw (kept4, w.present4, w.frame4, kept3, w.present3, w.frame3, kept2, w.present2, w.frame2)
        (leaf-entry_at_self w.role' s'.words w.tree w.pt (index1 vaddr) way w.role1 (omega arith)
          word refl)

  -- Before the write, the page is mapped by the word that stands in the entry.
  walk-mapped :
      mapped s'.words root vaddr
      ≡ (if is_present (s'.words entry) then some (s'.words entry) else none)
  unfolding entry_at
  walk-mapped =
      rw (w.present4, w.frame4, w.present3, w.frame3, w.present2, w.frame2, w.entry_is) refl

  pub walk-word : (old : ℕ) → mapped s.words root vaddr ≡ some old → s'.words entry ≡ old
  walk-word old is =
      let now =
        sym walk-mapped ∙ (w.paths (path vaddr) root [] is_root (omega arith) (omega arith) ∙ is) in
      elim (Bool-cases (is_present (s'.words entry))) [
        | inl there ↦ ground arith
        | inr gone ↦ ground arith
      ]

  pub write-IsRemapped :
      IsRemapped role root vaddr (if is_present word then some word else none) s words' s'.pool
  write-IsRemapped = rw w.entry_is (record {
    role' = w.role';
    tree =
        leaf-IsTree w.role' s'.words w.tree w.pt (index1 vaddr) way w.role1 (omega arith) word refl;
    blanks =
        write-IsPool w.role' s' w.tree w.pt (index1 vaddr) way word w.role1 (omega arith) w.pool;
    taken = w.taken;
    is_root = w.keeps root [] is_root;
    entry = write-mapped;
    others = λ a ne.
        leaf-entry_at w.role' s'.words w.tree w.pt (index1 vaddr) way w.role1 (omega arith) word
          refl (path a) root [] (w.keeps root [] is_root) (omega arith) (omega arith)
          (λ e. ne (path-page_number a vaddr (sym (full_path-root (path a)) ∙ (e ∙ full_path-way))))
        ∙ w.paths (path a) root [] is_root (omega arith) (omega arith);
  })

-- On tables that form a tree below pml4t, with at least three pages on the stack, all of them
-- blank: after set_page the page of vaddr is mapped, if the flag `present` is set, by an entry that
-- leads to the physical page, and else by none. Every other page is mapped as before, the tables
-- form a tree again, and what is left of the stack is blank, with at most three pages taken.
pub set_page-IsRemapped :
    (role : Role) (pml4t vaddr paddr : ℕ) (flags : PageFlags) (s : Store)
    → role pml4t ≡ some []
    → IsTree role s.words
    → IsPool role s
    → 3 ≤ s.pool.free_index
    → let s' = set_page pml4t vaddr paddr flags s in
      IsRemapped role pml4t vaddr
        (if flags.present then some (page_word paddr flags) else none)
        s
        s'.words
        s'.pool
      × (frame_of (page_word paddr flags) ≡ frame_of paddr)
unfolding set_page
set_page-IsRemapped role pml4t vaddr paddr flags s is_root tree pool three =
    let r = get_page_table_entry pml4t (vaddr % 2 ^ 48) (table_flags flags) s in
    let w =
      get_page_table_entry-IsWalked (table_flags flags) (table_flags_small flags) role pml4t vaddr s
        is_root tree pool three in
    let word = page_word paddr flags in
    (
      subst
          (λ b.
            IsRemapped role pml4t vaddr (if b then some word else none) s
              (write_cell r.1.words r.0 word) r.1.pool)
          (is_present-page_word paddr flags)
          (write-IsRemapped role pml4t vaddr s is_root r.0 r.1 w word),
      frame_of-page_word paddr flags,
    )

-- In such a state, for a page that is mapped: after free_page it is not mapped, and every other
-- page is mapped as before. The physical page is on the stack, above what is left of it, if the
-- entry was marked usable, and else the stack is what is left, with at most three pages taken; and
-- the tables form a tree again.
pub free_page-IsRemapped :
    (role : Role) (pml4t vaddr word : ℕ) (s : Store)
    → role pml4t ≡ some []
    → IsTree role s.words
    → IsPool role s
    → 3 ≤ s.pool.free_index
    → mapped s.words pml4t vaddr ≡ some word
    → (left : Pmm) × IsRemapped role pml4t vaddr none s (free_page pml4t vaddr s).words left
      × ((free_page pml4t vaddr s).pool
          ≡ (if word / 2 ^ 9 % 2 == 1 then pmm_free_page (frame_of word) left else left))
unfolding free_page
free_page-IsRemapped role pml4t vaddr word s is_root tree pool three is =
    let r = get_page_table_entry pml4t (vaddr % 2 ^ 48) 0 s in
    let w =
      get_page_table_entry-IsWalked 0 (omega arith) role pml4t vaddr s is_root tree pool three in
    let remapped =
      subst
        (λ b.
          IsRemapped role pml4t vaddr (if b then some 0 else none) s (write_cell r.1.words r.0 0)
            r.1.pool)
        present-zero (write-IsRemapped role pml4t vaddr s is_root r.0 r.1 w 0) in
    (
      r.1.pool,
      elim (Bool-cases (r.1.words r.0 / 2 ^ 9 % 2 == 1)) [
        | inl usable ↦ rw usable remapped
        | inr kept ↦ rw kept remapped
      ],
      let same = walk-word role pml4t vaddr s is_root r.0 r.1 w 0 word is in
          elim (Bool-cases (word / 2 ^ 9 % 2 == 1)) [
            | inl usable ↦ rw (same, usable) refl
            | inr kept ↦ rw (same, kept) refl
          ],
    )
