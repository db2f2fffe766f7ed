-- ===== src/Paging/Stale.antt =====
-- get_page_table_entry of paging.c does not clear the page that it makes a table of.
use gapxos.Base.{ℕ, ◌%◌, ◌^◌, ◌<◌, ◌≡◌, ◌≢◌, refl, ◌∙◌, ap, ap₂, true, false, arith}
use Prim.Native.Nat.{bit_or}
use gapxos.Pmm.{pmm_alloc_page, write_cell}
use gapxos.Paging.{Store, is_present, frame_of, slot, enter_table}
use gapxos.Paging.Trees.{write_cell-same, write_cell-other}
use gapxos.Paging.Enter.{frame_of-page, frame_of-bit_or}

-- An entry that is present leads on as it is.
enter_table-present :
    (flags_add t i : ℕ) (s : Store)
    → flags_add < 2 ^ 12
    → is_present (s.words (slot t i)) ≡ true
    → (enter_table flags_add t i s).0 ≡ frame_of (s.words (slot t i))
unfolding enter_table
enter_table-present flags_add t i s small there =
    rw there (frame_of-bit_or (s.words (slot t i)) flags_add small)

-- What the memory holds after a table is made.
abbrev made_words : ℕ → ℕ → ℕ → Store → ℕ → ℕ
made_words flags_add t i s =
    let first = write_cell s.words (slot t i) (bit_or (pmm_alloc_page s.pool).0 1) in
    write_cell first (slot t i) (bit_or (first (slot t i)) flags_add)

enter_table-made :
    (flags_add t i : ℕ) (s : Store)
    → let page = (pmm_alloc_page s.pool).0 in
      flags_add < 2 ^ 12
      → is_present (s.words (slot t i)) ≡ false
      → page % 4096 ≡ 0
      → page < 2 ^ 48
      → ((enter_table flags_add t i s).0 ≡ page)
        × ((enter_table flags_add t i s).1.words ≡ made_words flags_add t i s)
unfolding enter_table
enter_table-made flags_add t i s small gone aligned low =
    let page = (pmm_alloc_page s.pool).0 in
    let same = write_cell-same s.words (slot t i) (bit_or page 1) in
    let next =
      ap (λ w. frame_of (bit_or w flags_add)) same
      ∙ (frame_of-bit_or (bit_or page 1) flags_add small
          ∙ frame_of-page page 1 aligned low (omega arith)) in
    rw gone (next, refl)

-- Where the entry is not present and a page of the stack is made a table, with a page address of
-- 48 bits and flags below 2^12: what stood in that page before counts as its entries. A present
-- word in it leads the next level to wherever the word points.
pub enter_table_stale :
    (flags_add t i j : ℕ) (s : Store)
    → let page = (pmm_alloc_page s.pool).0 in
      flags_add < 2 ^ 12
      → is_present (s.words (slot t i)) ≡ false
      → page % 4096 ≡ 0
      → page < 2 ^ 48
      → slot page j ≢ slot t i
      → is_present (s.words (slot page j)) ≡ true
      → let r = enter_table flags_add t i s in
        (r.0 ≡ page) × ((enter_table flags_add r.0 j r.1).0 ≡ frame_of (s.words (slot page j)))
enter_table_stale flags_add t i j s small gone aligned low apart stale =
    let page = (pmm_alloc_page s.pool).0 in
    let (next, words) = enter_table-made flags_add t i s small gone aligned low in
    let r = enter_table flags_add t i s in
    let first = write_cell s.words (slot t i) (bit_or page 1) in
    let kept : made_words flags_add t i s (slot page j) ≡ s.words (slot page j) =
      write_cell-other first (slot t i) (bit_or (first (slot t i)) flags_add) (slot page j) apart
      ∙ write_cell-other s.words (slot t i) (bit_or page 1) (slot page j) apart in
    let there : r.1.words (slot r.0 j) ≡ s.words (slot page j) =
      ap₂ (λ f a. f (slot a j)) words next ∙ kept in
    (
      next,
      enter_table-present flags_add r.0 j r.1 small (ap is_present there ∙ stale)
          ∙ ap frame_of there,
    )
