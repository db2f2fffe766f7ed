-- ===== src/Vmm/Tree/Rebalance.antt =====
-- The end of _insert_node and _delete_node in avl_tree.c, and the balance of an insertion.
use gapxos.Base.{ℕ, ◌+◌, ◌^◌, ◌≤◌, ◌<◌, max, ◌≡◌, refl, some, arith, sym, ◌⊎◌, inl, inr}
use gapxos.Vmm.Tree.{AvlNode, Tree, null, node, update_height, rotate, rebalance}
use mathlib.Core.Path.{subst}
use gapxos.Vmm.Tree.Balance.{
  levels, IsAvl, balance-levels, update_height-settled, settled, settled-IsAvl, IsRotated,
}
use gapxos.Vmm.Tree.Rotations.{left_heavy, right_heavy}

update_height_id : (t : Tree) → IsAvl t → levels t < 2 ^ 14 → update_height t ≡ t
unfolding update_height
update_height_id null a small = refl
update_height_id (node n h l r) a small =
    let e = update_height-settled n h l r a.3 a.4 (omega arith) in
    unfold update_height in (rw (← a.0) at e)

-- The three ways in which two sides within two levels of one another lean.
pub gap-cases :
    (a b : ℕ) → a ≤ b + 2 → b ≤ a + 2 → (a ≡ b + 2) ⊎ (b ≡ a + 2) ⊎ ((a ≤ b + 1) × (b ≤ a + 1))
gap-cases a b p q = grind arith

settle-IsRotated : (k : ℕ) (t : Tree) → k < 2 ^ 13 → IsRotated k t → IsRotated k (update_height t)
settle-IsRotated k t small h =
    subst (IsRotated k) (sym (update_height_id t h.avl (omega (arith, h.upper)))) h

rotate-IsRotated :
    (n : AvlNode) (h : ℕ) (l r : Tree)
    → IsAvl l
    → IsAvl r
    → levels l ≤ levels r + 2
    → levels r ≤ levels l + 2
    → levels l < 2 ^ 12
    → levels r < 2 ^ 12
    → (t : Tree) × (rotate (node n h l r) ≡ some t)
      × IsRotated (max (levels l) (levels r)) (update_height t)
unfolding rotate
rotate-IsRotated n h l r al ar p q sl sr =
    let b = balance-levels n h l r al ar (omega arith) in
    elim (gap-cases (levels l) (levels r) p q) [
      | inl heavy ↦
          let (t, e, rotated) = left_heavy n h l r al ar (omega arith) heavy in
          let same : levels l ≡ max (levels l) (levels r) = omega arith in
          (
            t,
            ground (arith, e),
            subst (λ k. IsRotated k (update_height t)) same
                (settle-IsRotated (levels l) t (omega arith) rotated),
          )
      | inr (inl heavy) ↦
          let (t, e, rotated) = right_heavy n h l r al ar (omega arith) heavy in
          let same : levels r ≡ max (levels l) (levels r) = omega arith in
          (
            t,
            ground (arith, e),
            subst (λ k. IsRotated k (update_height t)) same
                (settle-IsRotated (levels r) t (omega arith) rotated),
          )
      | inr (inr near) ↦
          let e = update_height-settled n h l r al ar (omega arith) in
          (
            node n h l r,
            ground arith,
            subst (IsRotated (max (levels l) (levels r))) (sym e) (record {
              avl = settled-IsAvl n l r al ar near.0 near.1;
              lower = omega arith;
              upper = omega arith;
            }),
          )
    ]

-- Two balanced subtrees whose levels differ by two at most become one balanced tree.
pub rebalance-IsRotated :
    (n : AvlNode) (h : ℕ) (l r : Tree)
    → IsAvl l
    → IsAvl r
    → levels l ≤ levels r + 2
    → levels r ≤ levels l + 2
    → levels l < 2 ^ 12
    → levels r < 2 ^ 12
    → (t : Tree) × (rebalance (node n h l r) ≡ some t) × IsRotated (max (levels l) (levels r)) t
unfolding rebalance
rebalance-IsRotated n h l r al ar p q sl sr =
    let (t, e, rotated) = rotate-IsRotated n h l r al ar p q sl sr in
    (update_height t, rw e, rotated)

-- Where the two sides are near, nothing is rotated.
pub rebalance-near :
    (n : AvlNode) (h : ℕ) (l r : Tree)
    → IsAvl l
    → IsAvl r
    → levels l ≤ levels r + 1
    → levels r ≤ levels l + 1
    → levels l < 2 ^ 12
    → rebalance (node n h l r) ≡ some (settled n l r)
unfolding rebalance rotate
rebalance-near n h l r al ar p q sl =
    let b = balance-levels n h l r al ar (omega arith) in
    let e = update_height-settled n h l r al ar (omega arith) in ground (arith, e)
