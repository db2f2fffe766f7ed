-- ===== src/Vmm/Tree/Dangling.antt =====
-- _delete_node of avl_tree.c where its variable `parent` is read before it is set.
use gapxos.Base.{
  ℕ, ◌^◌, ◌<◌, ◌≡◌, refl, sym, ◌∙◌, ap, some, List, [], ◌∷◌, ◌++◌, append_assoc, arith, inl, inr,
  compare-cases,
}
use gapxos.Vmm.Tree.{
  AvlNode, Tree, null, node, NodeAlloc, stale_null, move_into, delete_here, delete_node,
}
use gapxos.Vmm.Tree.Order.{entries, entries-rebalance}
use gapxos.Vmm.Tree.Balance.{levels, IsAvl, settled, settled-IsAvl}
use gapxos.Vmm.Tree.Rebalance.{rebalance-near}
use gapxos.Vmm.Tree.Shrink.{IsShrunk, shrink-left, shrink-right}
use gapxos.Vmm.Tree.Stuck.{IsLeafBeside, IsStuck}

-- The node is one of the list.
pub record IsIn (m : AvlNode) (ns : List AvlNode) : Type 0 where
  pub before : List AvlNode
  pub after : List AvlNode
  pub split : ns ≡ before ++ m ∷ after

IsIn-left : (m n : AvlNode) (xs ys zs : List AvlNode) → zs ≡ xs ++ n ∷ ys → IsIn m xs → IsIn m zs
IsIn-left m n xs ys zs e i = record {
  before = i.before;
  after = i.after ++ n ∷ ys;
  split = e ∙ (ap (λ ns. ns ++ n ∷ ys) i.split ∙ append_assoc i.before (m ∷ i.after) (n ∷ ys));
}

IsIn-right : (m n : AvlNode) (xs ys zs : List AvlNode) → zs ≡ xs ++ n ∷ ys → IsIn m ys → IsIn m zs
IsIn-right m n xs ys zs e i = record {
  before = xs ++ n ∷ i.before;
  after = i.after;
  split =
      e ∙ (ap (λ ns. xs ++ n ∷ ns) i.split ∙ sym (append_assoc xs (n ∷ i.before) (m ∷ i.after)));
}

module _ {S : Type 0} (alloc : NodeAlloc S) where
  -- The call has freed a struct that is still in the tree.
  pub record IsLeft (t : Tree) (s : S) (t' : Tree) (s' : S) : Type 0 where
    pub freed : AvlNode
    pub still : IsIn freed (entries t')
    pub given : alloc.free_node freed.ptr s ≡ some s'
    pub shape : IsShrunk t t'

  delete_here-IsLeft :
      (n : AvlNode) (h : ℕ) (l r : Tree) (s : S)
      → IsAvl (node n h l r)
      → levels (node n h l r) < 2 ^ 11
      → IsLeafBeside l r
      → ((p : ℕ) → (s1 : S) × (alloc.free_node p s ≡ some s1))
      → (t' : Tree) × (s' : S) × (delete_here alloc stale_null n h l r s ≡ some (t', s'))
        × IsLeft (node n h l r) s t' s'
  unfolding delete_here
  delete_here-IsLeft n h null r s avl small stuck frees = elim stuck [ ]
  delete_here-IsLeft n h (node _ _ _ _) null s avl small stuck frees = elim stuck [ ]
  delete_here-IsLeft n h (node ln lh ll lr) (node rn rh null null) s avl small stuck frees =
      let (s1, f) = frees rn.ptr in
      let l = node ln lh ll lr in
      let r = node rn rh null null in
      let m = move_into n rn in
      let e = rebalance-near m h l r avl.3 avl.4 (omega arith) (omega arith) (omega arith) in
      (
        settled m l r,
        s1,
        rw f (rw e refl),
        record {
          freed = rn;
          still =
              IsIn-right rn m (entries l) (entries r) (entries (settled m l r))
                (entries-rebalance (node m h l r) (settled m l r) e)
                (record { before = []; after = []; split = refl });
          given = f;
          shape = record {
            avl = settled-IsAvl m l r avl.3 avl.4 (omega arith) (omega arith);
            lower = omega arith;
            upper = omega arith;
          };
        },
      )
  delete_here-IsLeft n h (node _ _ _ _) (node _ _ null (node _ _ _ _)) s avl small stuck frees =
      elim stuck [ ]
  delete_here-IsLeft n h (node _ _ _ _) (node _ _ (node _ _ _ _) rr) s avl small stuck frees =
      elim stuck [ ]

  -- On a balanced tree of fewer than 2048 levels in which the node of the address has two children
  -- and the right one has none, where free_node does not fault and the variable `parent` happens
  -- to hold NULL: the deletion returns a balanced tree, at most one level lower, and a struct that it
  -- has given to free_node is still in that tree.
  pub delete_node-IsLeft :
      (t : Tree) (a : ℕ) (s : S)
      → IsAvl t
      → levels t < 2 ^ 11
      → IsStuck a t
      → ((p : ℕ) → (s1 : S) × (alloc.free_node p s ≡ some s1))
      → (t' : Tree) × (s' : S) × (delete_node alloc stale_null t a s ≡ some (t', s'))
        × IsLeft t s t' s'
  unfolding delete_node
  delete_node-IsLeft null a s avl small stuck frees = elim stuck [ ]
  delete_node-IsLeft (node n h l r) a s avl small stuck frees = elim (compare-cases a n.addr) [
    | inl (o, _) ↦
        let (l', s', el, left) =
          delete_node-IsLeft l a s avl.3 (omega arith) (rw (o, IsStuck) at stuck) frees in
        let (t, done, shape) = shrink-left n h l l' r avl small left.shape in
        (
          t,
          s',
          rw (o, delete_node, el) (rw done refl),
          record {
            freed = left.freed;
            still =
                IsIn-left left.freed n (entries l') (entries r) (entries t)
                  (entries-rebalance (node n h l' r) t done) left.still;
            given = left.given;
            shape = shape;
          },
        )
    | inr (inl (o, _)) ↦
        let (t, s', done, left) =
          delete_here-IsLeft n h l r s avl small (rw (o, IsStuck) at stuck) frees in
        (t, s', rw (o, delete_node) done, left)
    | inr (inr (o, _)) ↦
        let (r', s', er, left) =
          delete_node-IsLeft r a s avl.4 (omega arith) (rw (o, IsStuck) at stuck) frees in
        let (t, done, shape) = shrink-right n h l r r' avl small left.shape in
        (
          t,
          s',
          rw (o, delete_node, er) (rw done refl),
          record {
            freed = left.freed;
            still =
                IsIn-right left.freed n (entries l) (entries r') (entries t)
                  (entries-rebalance (node n h l r') t done) left.still;
            given = left.given;
            shape = shape;
          },
        )
  ]
