-- ===== src/Paging/Relink.antt =====
-- A write into an entry of a table that leads on, in the page tables of paging.c.
use gapxos.Base.{
  ℕ, ◌+◌, ◌<◌, ◌≡◌, refl, ap, subst, true, some, List, [], ◌∷◌, length, All, arith, Bool-cases, inl,
  inr,
}
use gapxos.Pmm.{write_cell}
use gapxos.Paging.{is_present, frame_of, slot}
use gapxos.Paging.Trees.{entry_at, Role, IsTree, written-cases}

module _ (role : Role) (words : ℕ → ℕ) (tree : IsTree role words) (t i : ℕ) (q : List ℕ)
    (has : role t ≡ some q) (low : i < 512) (w : ℕ) where
  abbrev written : ℕ → ℕ
  written = write_cell words (slot t i) w

  -- A write of a word that leads to where the old one led.
  pub relink-IsTree :
      is_present (words (slot t i)) ≡ true
      → frame_of w ≡ frame_of (words (slot t i))
      → IsTree role written
  relink-IsTree old same_frame = record {
    aligned = tree.aligned;
    child = λ u j r is short less bit.
        elim (written-cases role words tree t i q has low w u j r is less) [
          | inl (tables, entries, roles, new) ↦
              rw (new, same_frame, entries, roles)
                (tree.child t i q has (subst (λ z. length z < 3) roles short) low old)
          | inr kept ↦
              rw kept (tree.child u j r is short less (subst (λ z. is_present z ≡ true) kept bit))
        ];
  }

  -- No path is changed by it.
  pub relink-entry_at :
      is_present (words (slot t i)) ≡ true
      → is_present w ≡ true
      → frame_of w ≡ frame_of (words (slot t i))
      → length q < 3
      → (is : List ℕ) (u : ℕ) (r : List ℕ) → role u ≡ some r
      → length r + length is ≡ 4
      → All (λ j. j < 512) is
      → entry_at written u is ≡ entry_at words u is
  unfolding entry_at
  relink-entry_at old bit same_frame short [] u r is_r long small = refl
  relink-entry_at old bit same_frame short (j ∷ []) u r is_r long small =
      elim (written-cases role words tree t i q has low w u j r is_r small.0) [
        | inl (tables, entries, roles, new) ↦ absurd (omega (arith, ap length roles))
        | inr kept ↦ rw kept refl
      ]
  relink-entry_at old bit same_frame short (j ∷ (k ∷ is)) u r is_r long small =
      elim (written-cases role words tree t i q has low w u j r is_r small.0) [
        | inl (tables, entries, roles, new) ↦
            let next = tree.child t i q has short low old in
            rw (new, bit, same_frame, tables, entries, old)
              (relink-entry_at old bit same_frame short (k ∷ is) (frame_of (words (slot t i)))
                (i ∷ q) next (omega (arith, ap length roles)) small.1)
        | inr kept ↦ elim (Bool-cases (is_present (words (slot u j)))) [
          | inl there ↦
              let next = tree.child u j r is_r (omega arith) small.0 there in
              rw (kept, there)
                (relink-entry_at old bit same_frame short (k ∷ is) (frame_of (words (slot u j)))
                  (j ∷ r) next (omega arith) small.1)
          | inr gone ↦ rw (kept, gone) refl
        ]
      ]
