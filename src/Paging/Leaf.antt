-- ===== src/Paging/Leaf.antt =====
-- A write into a table of the last level, in the page tables of paging.c.
use gapxos.Base.{
  ℕ, ◌+◌, ◌<◌, ◌≡◌, ◌≢◌, refl, ap, ap₂, subst, true, none, some, List, [], ◌∷◌, length, All, arith,
  if◌then◌else◌, Bool-cases, inl, inr,
}
use gapxos.Pmm.{write_cell}
use gapxos.Paging.{is_present, frame_of, slot}
use gapxos.Paging.Trees.{entry_at, Role, IsTree, full_path, write_cell-same, written-cases}

module _ (role : Role) (words : ℕ → ℕ) (tree : IsTree role words) (t i : ℕ) (q : List ℕ)
    (has : role t ≡ some q) (low : i < 512) (w : ℕ) where
  abbrev written : ℕ → ℕ
  written = write_cell words (slot t i) w

  -- A write into a table at the last level changes the path that ends there.
  module _ (last : length q ≡ 3) where
    pub leaf-IsTree : IsTree role written
    leaf-IsTree = record {
      aligned = tree.aligned;
      child = λ u j r is short less bit.
          elim (written-cases role words tree t i q has low w u j r is less) [
            | inl (tables, entries, roles, new) ↦ absurd (omega (arith, ap length roles))
            | inr kept ↦
                rw kept (tree.child u j r is short less (subst (λ z. is_present z ≡ true) kept bit))
          ];
    }

    pub leaf-entry_at :
        (is : List ℕ) (u : ℕ) (r : List ℕ)
        → role u ≡ some r
        → length r + length is ≡ 4
        → All (λ j. j < 512) is
        → full_path r is ≢ full_path q (i ∷ [])
        → entry_at written u is ≡ entry_at words u is
    unfolding entry_at full_path
    leaf-entry_at [] u r is_r long small ne = refl
    leaf-entry_at (j ∷ []) u r is_r long small ne =
        elim (written-cases role words tree t i q has low w u j r is_r small.0) [
          | inl (tables, entries, roles, new) ↦
              absurd (ne (ap₂ (λ x y. full_path x (y ∷ [])) roles entries))
          | inr kept ↦ rw kept refl
        ]
    leaf-entry_at (j ∷ (k ∷ is)) u r is_r long small ne =
        elim (written-cases role words tree t i q has low w u j r is_r small.0) [
          | inl (tables, entries, roles, new) ↦ absurd (omega (arith, ap length roles))
          | inr kept ↦ elim (Bool-cases (is_present (words (slot u j)))) [
            | inl there ↦
                let next = tree.child u j r is_r (omega arith) small.0 there in
                rw (kept, there)
                  (leaf-entry_at (k ∷ is) (frame_of (words (slot u j))) (j ∷ r) next (omega arith)
                    small.1 ne)
            | inr gone ↦ rw (kept, gone) refl
          ]
        ]

    -- The entries on the way to a table are present.
    pub leaf-entry_at_self : entry_at written t (i ∷ []) ≡ (if is_present w then some w else none)
    unfolding entry_at
    leaf-entry_at_self = rw (write_cell-same words (slot t i) w) refl
