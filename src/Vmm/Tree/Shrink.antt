-- ===== src/Vmm/Tree/Shrink.antt =====
-- _delete_node of avl_tree.c where no range has to move: the balance it keeps.
use gapxos.Base.{compare, lt, eq, gt, ℕ, ◌+◌, ◌^◌, ◌≤◌, ◌<◌, ◌≡◌, refl, some, arith, inl, inr}
use gapxos.Vmm.Tree.{AvlNode, Tree, null, node, NodeAlloc, rebalance}
use gapxos.Base.{compare-cases}
use gapxos.Vmm.Tree.Balance.{levels, IsAvl, settled, settled-IsAvl}
use gapxos.Vmm.Tree.Rebalance.{gap-cases, rebalance-near, rebalance-IsRotated}
use gapxos.Vmm.Tree.{delete_here, delete_node, Stale}

-- A balanced tree that is as deep as t, or one level less deep.
pub record IsShrunk (t t' : Tree) : Type 0 where
  pub avl : IsAvl t'
  pub lower : levels t ≤ levels t' + 1
  pub upper : levels t' ≤ levels t

pub shrink-left :
    (n : AvlNode) (h : ℕ) (l l' r : Tree)
    → IsAvl (node n h l r)
    → levels (node n h l r) < 2 ^ 11
    → IsShrunk l l'
    → (t : Tree) × (rebalance (node n h l' r) ≡ some t) × IsShrunk (node n h l r) t
shrink-left n h l l' r a small g =
    elim (gap-cases (levels l') (levels r) (omega (arith, g.upper)) (omega (arith, g.lower))) [
      | inl heavy ↦ absurd (omega (arith, g.upper))
      | inr (inl heavy) ↦
          let (t, e, rotated) =
            rebalance-IsRotated n h l' r g.avl a.4 (omega arith) (omega arith) (omega arith)
              (omega arith) in
          (
            t,
            e,
            record {
              avl = rotated.avl;
              lower = omega (arith, g.lower, rotated.lower);
              upper = omega (arith, g.lower, rotated.upper);
            },
          )
      | inr (inr near) ↦ (
        settled n l' r,
        rebalance-near n h l' r g.avl a.4 near.0 near.1 (omega (arith, g.upper)),
        record {
          avl = settled-IsAvl n l' r g.avl a.4 near.0 near.1;
          lower = omega (arith, g.lower);
          upper = omega (arith, g.upper);
        },
      )
    ]

pub shrink-right :
    (n : AvlNode) (h : ℕ) (l r r' : Tree)
    → IsAvl (node n h l r)
    → levels (node n h l r) < 2 ^ 11
    → IsShrunk r r'
    → (t : Tree) × (rebalance (node n h l r') ≡ some t) × IsShrunk (node n h l r) t
shrink-right n h l r r' a small g =
    elim (gap-cases (levels l) (levels r') (omega (arith, g.lower)) (omega (arith, g.upper))) [
      | inl heavy ↦
          let (t, e, rotated) =
            rebalance-IsRotated n h l r' a.3 g.avl (omega arith) (omega arith) (omega arith)
              (omega arith) in
          (
            t,
            e,
            record {
              avl = rotated.avl;
              lower = omega (arith, g.lower, rotated.lower);
              upper = omega (arith, g.lower, rotated.upper);
            },
          )
      | inr (inl heavy) ↦ absurd (omega (arith, g.upper))
      | inr (inr near) ↦ (
        settled n l r',
        rebalance-near n h l r' a.3 g.avl near.0 near.1 (omega arith),
        record {
          avl = settled-IsAvl n l r' a.3 g.avl near.0 near.1;
          lower = omega (arith, g.lower);
          upper = omega (arith, g.upper);
        },
      )
    ]

-- Not both children are there.
abbrev pub HasRoom : Tree → Tree → Type 0
HasRoom null r = Unit
HasRoom (node n h ll lr) null = Unit
HasRoom (node n h ll lr) (node m k rl rr) = ⊥

-- The node of the address, if there is one, has at most one child.
abbrev pub IsEasy : ℕ → Tree → Type 0
IsEasy a null = Unit
IsEasy a (node n h l r) = elim (compare a n.addr) [
  | lt ↦ IsEasy a l
  | eq ↦ HasRoom l r
  | gt ↦ IsEasy a r
]

module _ {S : Type 0} (alloc : NodeAlloc S) where
  delete_here-IsShrunk :
      (parent : Stale) (n : AvlNode) (h : ℕ) (l r : Tree) (s s1 : S)
      → IsAvl (node n h l r)
      → levels (node n h l r) < 2 ^ 11
      → HasRoom l r
      → alloc.free_node n.ptr s ≡ some s1
      → (t' : Tree) × (delete_here alloc parent n h l r s ≡ some (t', s1))
        × IsShrunk (node n h l r) t'
  unfolding delete_here
  delete_here-IsShrunk parent n h null null s s1 a small room f =
      (null, rw f, record { avl = tt; lower = omega arith; upper = omega arith })
  delete_here-IsShrunk parent n h (node m k ll lr) null s s1 a small room f =
      let e = rebalance-near m k ll lr a.3.3 a.3.4 (omega arith) (omega arith) (omega arith) in
      (
        settled m ll lr,
        rw f (rw e),
        record {
          avl = settled-IsAvl m ll lr a.3.3 a.3.4 (omega arith) (omega arith);
          lower = omega arith;
          upper = omega arith;
        },
      )
  delete_here-IsShrunk parent n h null (node m k rl rr) s s1 a small room f =
      let e = rebalance-near m k rl rr a.4.3 a.4.4 (omega arith) (omega arith) (omega arith) in
      (
        settled m rl rr,
        rw f (rw e),
        record {
          avl = settled-IsAvl m rl rr a.4.3 a.4.4 (omega arith) (omega arith);
          lower = omega arith;
          upper = omega arith;
        },
      )
  delete_here-IsShrunk parent n h (node _ _ _ _) (node _ _ _ _) s s1 a small room f = elim room [ ]

  -- On a balanced tree of fewer than 2048 levels in which the node of the address, if there is
  -- one, has at most one child, and where free_node does not fault, the deletion ends without a
  -- fault; the tree is balanced again, with every stored height right, and at most one level lower.
  pub delete_node-IsShrunk :
      (parent : Stale) (t : Tree) (a : ℕ) (s : S)
      → IsAvl t
      → levels t < 2 ^ 11
      → IsEasy a t
      → ((p : ℕ) → (s1 : S) × (alloc.free_node p s ≡ some s1))
      → (t' : Tree) × (s' : S) × (delete_node alloc parent t a s ≡ some (t', s')) × IsShrunk t t'
  unfolding delete_node
  delete_node-IsShrunk parent null a s avl small easy frees =
      (null, s, refl, record { avl = tt; lower = omega arith; upper = omega arith })
  delete_node-IsShrunk parent (node n h l r) a s avl small easy frees =
      elim (compare-cases a n.addr) [
        | inl (o, _) ↦
            let (l', s', el, shrunk) =
              delete_node-IsShrunk parent l a s avl.3 (omega arith) (rw (o, IsEasy) at easy)
                frees in
            let (t, done, whole) = shrink-left n h l l' r avl small shrunk in
            (t, s', rw (o, delete_node, el) (rw done), whole)
        | inr (inl (o, _)) ↦
            let (s1, f) = frees n.ptr in
            let (t, done, whole) =
              delete_here-IsShrunk parent n h l r s s1 avl small (rw (o, IsEasy) at easy) f in
            (t, s1, rw (o, delete_node) done, whole)
        | inr (inr (o, _)) ↦
            let (r', s', er, shrunk) =
              delete_node-IsShrunk parent r a s avl.4 (omega arith) (rw (o, IsEasy) at easy)
                frees in
            let (t, done, whole) = shrink-right n h l r r' avl small shrunk in
            (t, s', rw (o, delete_node, er) (rw done), whole)
      ]
