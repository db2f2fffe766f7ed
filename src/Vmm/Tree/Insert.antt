-- ===== src/Vmm/Tree/Insert.antt =====
-- _insert_node of avl_tree.c, against insertion into the sorted list of ranges.
use gapxos.Base.{
  ℕ, ◌<◌, ◌≡◌, refl, Option, none, some, List, [], ◌∷◌, arith, ◌∙◌, ap, ◌>>=◌, inl, inr,
  compare-cases, if◌then◌else◌,
}
use gapxos.Vmm.Tree.{
  AvlNode, Tree, null, node, NodeAlloc, rebalance, insert_node, range, with_struct,
}
use gapxos.Vmm.Tree.Steps.{rebalanced, with_left-eq-some, with_right-eq-some}
use gapxos.Vmm.Tree.Order.{entries, entries-rebalance}
use gapxos.Vmm.Tree.Ranges.{
  Below, Below-before, IsSorted, IsSplit, IsSorted-IsSplit, insert_range, insert_range-left,
  insert_range-right, has_addr, has_addr-left, has_addr-right,
}

module _ {S : Type 0} (alloc : NodeAlloc S) where
  -- What the insertion of [a, a + c pages) into the ranges ns has done: the new list, and where
  -- the struct of a new range comes from.
  pub record Inserted (a c : ℕ) (ns : List AvlNode) (s : S) (t' : Tree) (s' : S) : Type 0 where
    pub ptr : ℕ
    pub list : entries t' ≡ insert_range ptr a c ns
    pub source : if has_addr a ns then s' ≡ s else (alloc.create_node s ≡ some (ptr, s'))

  insert-left :
      (n : AvlNode) (h : ℕ) (l r : Tree) (a c : ℕ) (s : S) (l' t' : Tree) (s' : S)
      → IsSplit (entries l) n (entries r)
      → a < n.addr
      → Inserted a c (entries l) s l' s'
      → rebalance (node n h l' r) ≡ some t'
      → Inserted a c (entries (node n h l r)) s t' s'
  insert-left n h l r a c s l' t' s' sp less i e = record {
    ptr = i.ptr;
    list = ground (
      arith,
      entries-rebalance (node n h l' r) t' e,
      i.list,
      insert_range-left i.ptr a c (entries l) n (entries r) less,
    );
    source = rw (has_addr-left a (entries l) n (entries r) less sp.above) i.source;
  }

  insert-right :
      (n : AvlNode) (h : ℕ) (l r : Tree) (a c : ℕ) (s : S) (r' t' : Tree) (s' : S)
      → IsSplit (entries l) n (entries r)
      → n.addr < a
      → Inserted a c (entries r) s r' s'
      → rebalance (node n h l r') ≡ some t'
      → Inserted a c (entries (node n h l r)) s t' s'
  unfolding insert_range has_addr
  insert-right n h l r a c s r' t' s' sp more i e =
      let below = Below-before n a (entries l) sp.below more in
      record {
        ptr = i.ptr;
        list = ground (
          arith,
          entries-rebalance (node n h l r') t' e,
          i.list,
          insert_range-right i.ptr a c (entries l) (n ∷ entries r) below,
        );
        source = rw (has_addr-right a (entries l) (n ∷ entries r) below) (ground (arith, i.source));
      }

  insert-here :
      (n : AvlNode) (h : ℕ) (l r : Tree) (a c : ℕ) (s : S) (t' : Tree) (s' : S)
      → IsSplit (entries l) n (entries r)
      → a ≡ n.addr
      → ◌≡◌ {A = Option (Tree × S)} (some (node (range n.ptr a c) h l r, s)) (some (t', s'))
      → Inserted a c (entries (node n h l r)) s t' s'
  unfolding insert_range has_addr
  insert-here n h l r a c s t' s' sp same e =
      let below : Below a (entries l) = rw same sp.below in
      record {
        ptr = n.ptr;
        list = rw (insert_range-right n.ptr a c (entries l) (n ∷ entries r) below) (ground arith);
        source = rw (has_addr-right a (entries l) (n ∷ entries r) below) (ground arith);
      }

  insert-fresh :
      (a c : ℕ) (s : S) (t' : Tree) (s' : S) (m : Option (ℕ × S))
      → alloc.create_node s ≡ m
      → (m >>= with_struct a c) ≡ some (t', s')
      → Inserted a c [] s t' s'
  unfolding insert_range has_addr
  insert-fresh a c s t' s' none em e = ground arith
  insert-fresh a c s t' s' (some (p, s1)) em e =
      let (done, same) = rebalanced (node (range p a c) 0 null null) s1 t' s' e in
      record {
        ptr = p;
        list = entries-rebalance (node (range p a c) 0 null null) t' done;
        source = em ∙ ap (λ u. some (p, u)) same;
      }

  -- When _insert_node returns on a sorted tree, the new tree has the ranges of the old one with
  -- [addr, addr + page_count pages) inserted in order, free; a range that began at addr is
  -- replaced in its own struct and the allocator is left alone, and else the struct is what
  -- create_node gave.
  pub insert_node_lem :
      (t : Tree) (a c : ℕ) (s : S) (t' : Tree) (s' : S)
      → IsSorted (entries t)
      → insert_node alloc t a c s ≡ some (t', s')
      → Inserted a c (entries t) s t' s'
  unfolding insert_node
  insert_node_lem null a c s t' s' sorted e = insert-fresh a c s t' s' (alloc.create_node s) refl e
  insert_node_lem (node n h l r) a c s t' s' sorted e =
      let sp = IsSorted-IsSplit (entries l) n (entries r) sorted in
      elim (compare-cases a n.addr) [
        | inl (o, less) ↦
            let (l', el, er) =
              with_left-eq-some (insert_node alloc l a c s) n h r t' s'
                (rw (o, insert_node) at e) in
            insert-left n h l r a c s l' t' s' sp less (insert_node_lem l a c s l' s' sp.left el) er
        | inr (inl (o, same)) ↦ insert-here n h l r a c s t' s' sp same (rw (o, insert_node) at e)
        | inr (inr (o, more)) ↦
            let (r', er, el) =
              with_right-eq-some (insert_node alloc r a c s) n h l t' s'
                (rw (o, insert_node) at e) in
            insert-right n h l r a c s r' t' s' sp more (insert_node_lem r a c s r' s' sp.right er)
              el
      ]
