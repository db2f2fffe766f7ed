-- ===== src/Vmm/Tree/Growth.antt =====
-- _insert_node of avl_tree.c keeps a balanced tree balanced, and never faults on one.
use gapxos.Base.{ℕ, ◌+◌, ◌^◌, ◌≤◌, ◌<◌, ◌≡◌, some, arith, inl, inr}
use gapxos.Vmm.Tree.{AvlNode, Tree, null, node, NodeAlloc, rebalance, insert_node}
use gapxos.Base.{compare-cases}
use gapxos.Vmm.Tree.{range}
use gapxos.Vmm.Tree.Balance.{levels, IsAvl, settled, settled-IsAvl}
use gapxos.Vmm.Tree.Rebalance.{gap-cases, rebalance-near, rebalance-IsRotated}

-- A balanced tree that is as deep as t, or one level deeper.
pub record IsGrown (t t' : Tree) : Type 0 where
  pub avl : IsAvl t'
  pub lower : levels t ≤ levels t'
  pub upper : levels t' ≤ levels t + 1

grow-left :
    (n : AvlNode) (h : ℕ) (l l' r : Tree)
    → IsAvl (node n h l r)
    → levels (node n h l r) < 2 ^ 11
    → IsGrown l l'
    → (t : Tree) × (rebalance (node n h l' r) ≡ some t) × IsGrown (node n h l r) t
grow-left n h l l' r a small g =
    elim (gap-cases (levels l') (levels r) (omega (arith, g.upper)) (omega (arith, g.lower))) [
      | inl heavy ↦
          let (t, e, rotated) =
            rebalance-IsRotated n h l' r g.avl a.4 (omega arith) (omega arith) (omega arith)
              (omega arith) in
          (
            t,
            e,
            record {
              avl = rotated.avl;
              lower = omega (arith, g.upper, rotated.lower);
              upper = omega (arith, rotated.upper);
            },
          )
      | inr (inl heavy) ↦ absurd (omega (arith, g.lower))
      | inr (inr near) ↦ (
        settled n l' r,
        rebalance-near n h l' r g.avl a.4 near.0 near.1 (omega arith),
        record {
          avl = settled-IsAvl n l' r g.avl a.4 near.0 near.1;
          lower = omega (arith, g.lower);
          upper = omega (arith, g.upper);
        },
      )
    ]

grow-right :
    (n : AvlNode) (h : ℕ) (l r r' : Tree)
    → IsAvl (node n h l r)
    → levels (node n h l r) < 2 ^ 11
    → IsGrown r r'
    → (t : Tree) × (rebalance (node n h l r') ≡ some t) × IsGrown (node n h l r) t
grow-right n h l r r' a small g =
    elim (gap-cases (levels l) (levels r') (omega (arith, g.lower)) (omega (arith, g.upper))) [
      | inl heavy ↦ absurd (omega (arith, g.lower))
      | inr (inl heavy) ↦
          let (t, e, rotated) =
            rebalance-IsRotated n h l r' a.3 g.avl (omega arith) (omega arith) (omega arith)
              (omega arith) in
          (
            t,
            e,
            record {
              avl = rotated.avl;
              lower = omega (arith, g.upper, rotated.lower);
              upper = omega (arith, rotated.upper);
            },
          )
      | inr (inr near) ↦ (
        settled n l r',
        rebalance-near n h l r' a.3 g.avl near.0 near.1 (omega arith),
        record {
          avl = settled-IsAvl n l r' a.3 g.avl near.0 near.1;
          lower = omega (arith, g.lower);
          upper = omega (arith, g.upper);
        },
      )
    ]

module _ {S : Type 0} (alloc : NodeAlloc S) where
  -- On a balanced tree of fewer than 2048 levels, and where create_node gives a struct, the
  -- insertion ends without a fault; the new tree is balanced with every stored height right, and
  -- as deep as the old one or one level deeper.
  pub insert_node-IsGrown :
      (t : Tree) (a c : ℕ) (s : S) (p : ℕ) (s1 : S)
      → IsAvl t
      → levels t < 2 ^ 11
      → alloc.create_node s ≡ some (p, s1)
      → (t' : Tree) × (s' : S) × (insert_node alloc t a c s ≡ some (t', s')) × IsGrown t t'
  unfolding insert_node
  insert_node-IsGrown null a c s p s1 avl small e =
      let fresh =
        rebalance-near (range p a c) 0 null null tt tt (omega arith) (omega arith) (omega arith) in
      (
        settled (range p a c) null null,
        s1,
        rw e (rw fresh),
        record {
          avl = settled-IsAvl (range p a c) null null tt tt (omega arith) (omega arith);
          lower = omega arith;
          upper = omega arith;
        },
      )
  insert_node-IsGrown (node n h l r) a c s p s1 avl small e = elim (compare-cases a n.addr) [
    | inl (o, _) ↦
        let (l', s', el, grown) = insert_node-IsGrown l a c s p s1 avl.3 (omega arith) e in
        let (t, done, whole) = grow-left n h l l' r avl small grown in
        (t, s', rw (o, insert_node, el) (rw done), whole)
    | inr (inl (o, _)) ↦ (
      node (range n.ptr a c) h l r,
      s,
      rw (o, insert_node),
      record { avl = avl; lower = omega arith; upper = omega arith },
    )
    | inr (inr (o, _)) ↦
        let (r', s', er, grown) = insert_node-IsGrown r a c s p s1 avl.4 (omega arith) e in
        let (t, done, whole) = grow-right n h l r r' avl small grown in
        (t, s', rw (o, insert_node, er) (rw done), whole)
  ]
