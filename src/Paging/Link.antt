-- ===== src/Paging/Link.antt =====
-- A new table in the page tables of paging.c.
use gapxos.Base.{
  ℕ, ◌+◌, ◌<◌, ◌≡◌, refl, ap, subst, true, false, none, some, List, [], ◌∷◌, length, All, arith,
  Bool-cases, inl, inr,
}
use gapxos.Pmm.{write_cell}
use gapxos.Paging.{is_present, frame_of, slot}
use gapxos.Paging.Trees.{
  entry_at, Role, IsTree, IsBlank, extend, present-zero, present-0, extend-here, extend-cases,
  extend-other, written-cases, written-IsBlank,
}

module _ (role : Role) (words : ℕ → ℕ) (tree : IsTree role words) (t i : ℕ) (q : List ℕ)
    (has : role t ≡ some q) (low : i < 512) (w : ℕ) where
  abbrev written : ℕ → ℕ
  written = write_cell words (slot t i) w

  -- A write of a word that leads to a blank page makes that a table.
  module _ (page : ℕ) (blank : IsBlank role words page)
      (old : is_present (words (slot t i)) ≡ false) (bit : is_present w ≡ true)
      (leads : frame_of w ≡ page) (short : length q < 3) where
    stays_blank : (j : ℕ) → j < 512 → written (slot page j) ≡ 0
    stays_blank = written-IsBlank role words tree t i q has low w page blank

    pub link-IsTree : IsTree (extend role page (i ∷ q)) written
    link-IsTree = record {
      aligned = λ u r is. elim (extend-cases role page (i ∷ q) u r is) [
        | inl (new, _) ↦ rw new blank.aligned
        | inr known ↦ tree.aligned u r known
      ];
      child = λ u j r is few less there. elim (extend-cases role page (i ∷ q) u r is) [
        | inl (new, _) ↦
            let empty = stays_blank j less in
            absurd (
              present-0 (
                subst (λ z. is_present z ≡ true) empty
                  (subst (λ z. is_present (written (slot z j)) ≡ true) new there)))
        | inr known ↦ elim (written-cases role words tree t i q has low w u j r known less) [
          | inl (tables, entries, roles, new) ↦
              rw (new, leads, entries, roles) (extend-here role page (i ∷ q))
          | inr kept ↦ rw kept (
              extend-other role page (i ∷ q) (frame_of (words (slot u j))) (j ∷ r) blank.unused
                (tree.child u j r known few less (subst (λ z. is_present z ≡ true) kept there)))
        ]
      ];
    }

    blank-entry_at : (is : List ℕ) → All (λ j. j < 512) is → entry_at written page is ≡ none
    unfolding entry_at
    blank-entry_at [] small = refl
    blank-entry_at (j ∷ []) small = rw (stays_blank j small.0) (rw present-zero refl)
    blank-entry_at (j ∷ (k ∷ is)) small = rw (stays_blank j small.0) (rw present-zero refl)

    -- The new table has no entries, so that no path is changed.
    pub link-entry_at :
        (is : List ℕ) (u : ℕ) (r : List ℕ)
        → role u ≡ some r
        → length r + length is ≡ 4
        → All (λ j. j < 512) is
        → entry_at written u is ≡ entry_at words u is
    unfolding entry_at
    link-entry_at [] u r is_r long small = refl
    link-entry_at (j ∷ []) u r is_r long small =
        elim (written-cases role words tree t i q has low w u j r is_r small.0) [
          | inl (tables, entries, roles, new) ↦ absurd (omega (arith, ap length roles))
          | inr kept ↦ rw kept refl
        ]
    link-entry_at (j ∷ (k ∷ is)) u r is_r long small =
        elim (written-cases role words tree t i q has low w u j r is_r small.0) [
          | inl (tables, entries, roles, new) ↦
              rw (new, bit, leads, tables, entries, old) (blank-entry_at (k ∷ is) small.1)
          | inr kept ↦ elim (Bool-cases (is_present (words (slot u j)))) [
            | inl there ↦
                let next = tree.child u j r is_r (omega arith) small.0 there in
                rw (kept, there)
                  (link-entry_at (k ∷ is) (frame_of (words (slot u j))) (j ∷ r) next (omega arith)
                    small.1)
            | inr gone ↦ rw (kept, gone) refl
          ]
        ]
