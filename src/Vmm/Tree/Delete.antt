-- ===== src/Vmm/Tree/Delete.antt =====
-- _delete_node of avl_tree.c, against removal from the sorted list of ranges.
use gapxos.Base.{
  ℕ, ◌<◌, ◌≡◌, refl, subst, false, some, List, [], ◌∷◌, ◌++◌, arith, ◌∙◌, ap, ◌>>=◌, inl, inr,
  compare-cases, >>=-eq-some, ◌⊎◌, append_assoc, append-nil, sym,
}
use gapxos.Vmm.Tree.{
  AvlNode, Tree, null, node, NodeAlloc, rebalance, Stale, stale_null, stale_wild, detach_min,
  move_into, delete_here, delete_node, finish,
}
use gapxos.Vmm.Tree.Steps.{rebalanced, with_left-eq-some, with_right-eq-some}
use gapxos.Vmm.Tree.Stuck.{IsLeafBeside, IsStuck, IsDangling}
use gapxos.Vmm.Tree.Order.{entries, entries-rebalance}
use gapxos.Vmm.Tree.Ranges.{
  Below-before, IsSorted, IsSplit, IsSorted-IsSplit, has_addr, has_addr-left, has_addr-right,
}

-- What became of the structs when the range at `a` was removed: its own struct is freed, or it
-- takes over the range that follows, whose struct is freed instead. Where `Left` holds, that struct
-- may stay where it is as well.
pub record Removed (Left : Type 0) (a : ℕ) (ns ns' : List AvlNode) (freed : ℕ) : Type 0 where
  pub before : List AvlNode
  pub gone : AvlNode
  pub after : List AvlNode
  pub split : ns ≡ before ++ gone ∷ after
  pub here : gone.addr ≡ a
  pub result :
      ((ns' ≡ before ++ after) × (freed ≡ gone.ptr))
      ⊎ ((m : AvlNode) × (zs : List AvlNode) × (after ≡ m ∷ zs)
          × (ns' ≡ before ++ move_into gone m ∷ zs)
          × (freed ≡ m.ptr))
      ⊎ ((m : AvlNode) × (zs : List AvlNode) × (after ≡ m ∷ zs)
          × (ns' ≡ before ++ move_into gone m ∷ m ∷ zs)
          × (freed ≡ m.ptr)
          × Left)

pub Removed-left :
    (P Q : Type 0) (f : P → Q) (a freed : ℕ) (xs xs' : List AvlNode) (n : AvlNode)
    (ys : List AvlNode)
    → Removed P a xs xs' freed
    → Removed Q a (xs ++ n ∷ ys) (xs' ++ n ∷ ys) freed
Removed-left P Q f a freed xs xs' n ys r = record {
  before = r.before;
  gone = r.gone;
  after = r.after ++ n ∷ ys;
  split = ap (λ ns. ns ++ n ∷ ys) r.split ∙ append_assoc r.before (r.gone ∷ r.after) (n ∷ ys);
  here = r.here;
  result = elim r.result [
    | inl (e, g) ↦ inl (ap (λ ns. ns ++ n ∷ ys) e ∙ append_assoc r.before r.after (n ∷ ys), g)
    | inr (inl (m, zs, e, e', g)) ↦ inr (
        inl (
          m,
          zs ++ n ∷ ys,
          ap (λ ns. ns ++ n ∷ ys) e,
          ap (λ ns. ns ++ n ∷ ys) e' ∙ append_assoc r.before (move_into r.gone m ∷ zs) (n ∷ ys),
          g,
        ))
    | inr (inr (m, zs, e, e', g, p)) ↦ inr (
        inr (
          m,
          zs ++ n ∷ ys,
          ap (λ ns. ns ++ n ∷ ys) e,
          ap (λ ns. ns ++ n ∷ ys) e' ∙ append_assoc r.before (move_into r.gone m ∷ m ∷ zs) (n ∷ ys),
          g,
          f p,
        ))
  ];
}

pub Removed-right :
    (P Q : Type 0) (f : P → Q) (a freed : ℕ) (xs : List AvlNode) (n : AvlNode)
    (ys ys' : List AvlNode)
    → Removed P a ys ys' freed
    → Removed Q a (xs ++ n ∷ ys) (xs ++ n ∷ ys') freed
Removed-right P Q f a freed xs n ys ys' r =
    let front = xs ++ n ∷ r.before in
    record {
      before = front;
      gone = r.gone;
      after = r.after;
      split =
          ap (λ ns. xs ++ n ∷ ns) r.split ∙ sym (append_assoc xs (n ∷ r.before) (r.gone ∷ r.after));
      here = r.here;
      result = elim r.result [
        | inl (e, g) ↦
            inl (ap (λ ns. xs ++ n ∷ ns) e ∙ sym (append_assoc xs (n ∷ r.before) r.after), g)
        | inr (inl (m, zs, e, e', g)) ↦ inr (
            inl (
              m,
              zs,
              e,
              ap (λ ns. xs ++ n ∷ ns) e'
                  ∙ sym (append_assoc xs (n ∷ r.before) (move_into r.gone m ∷ zs)),
              g,
            ))
        | inr (inr (m, zs, e, e', g, p)) ↦ inr (
            inr (
              m,
              zs,
              e,
              ap (λ ns. xs ++ n ∷ ns) e'
                  ∙ sym (append_assoc xs (n ∷ r.before) (move_into r.gone m ∷ m ∷ zs)),
              g,
              f p,
            ))
      ];
    }

Removed-imp :
    (P Q : Type 0) (f : P → Q) (a : ℕ) (ns ns' : List AvlNode) (freed : ℕ)
    → Removed P a ns ns' freed
    → Removed Q a ns ns' freed
Removed-imp P Q f a ns ns' freed r = record {
  before = r.before;
  gone = r.gone;
  after = r.after;
  split = r.split;
  here = r.here;
  result = elim r.result [
    | inl own ↦ inl own
    | inr (inl spilled) ↦ inr (inl spilled)
    | inr (inr (m, zs, e, e', g, p)) ↦ inr (inr (m, zs, e, e', g, f p))
  ];
}

-- The struct at which the walk down the left children ends is the first of the subtree.
pub entries-detach_min :
    (n : AvlNode) (h : ℕ) (l r : Tree)
    → entries (node n h l r) ≡ (detach_min n h l r).0 ∷ entries (detach_min n h l r).1
unfolding detach_min
entries-detach_min n h null r = refl
entries-detach_min n h (node ln lh ll lr) r =
    ap (λ ns. ns ++ n ∷ entries r) (entries-detach_min ln lh ll lr)

Removed-spill :
    (P : Type 0) (n m : AvlNode) (h : ℕ) (l r r' t' : Tree)
    → entries r ≡ m ∷ entries r'
    → rebalance (node (move_into n m) h l r') ≡ some t'
    → Removed P n.addr (entries l ++ n ∷ entries r) (entries t') m.ptr
Removed-spill P n m h l r r' t' e done = record {
  before = entries l;
  gone = n;
  after = entries r;
  split = refl;
  here = refl;
  result =
      inr (inl (m, entries r', e, entries-rebalance (node (move_into n m) h l r') t' done, refl));
}

module _ {S : Type 0} (alloc : NodeAlloc S) where
  abbrev pub Deleted : Type 0 → ℕ → List AvlNode → S → Tree → S → Type 0
  Deleted Left a ns s t' s' =
      ((has_addr a ns ≡ false) × (entries t' ≡ ns) × (s' ≡ s))
      ⊎ ((freed : ℕ) × Removed Left a ns (entries t') freed × (alloc.free_node freed s ≡ some s'))

  freed-eq-some :
      (p : ℕ) (s : S) (t t' : Tree) (s' : S)
      → (alloc.free_node p s >>= finish t) ≡ some (t', s')
      → (rebalance t ≡ some t') × (alloc.free_node p s ≡ some s')
  freed-eq-some p s t t' s' e =
      let (s1, f, g) = >>=-eq-some (alloc.free_node p s) (finish t) e in
      let (done, same) = rebalanced t s1 t' s' g in (done, f ∙ ap some same)

  delete_here-Removed :
      (parent : Stale) (n : AvlNode) (h : ℕ) (l r : Tree) (s : S) (t' : Tree) (s' : S)
      → delete_here alloc parent n h l r s ≡ some (t', s')
      → (freed : ℕ) × Removed
          ((parent ≡ stale_null) × IsLeafBeside l r)
          n.addr
          (entries (node n h l r))
          (entries t')
          freed
        × (alloc.free_node freed s ≡ some s')
  unfolding delete_here
  delete_here-Removed parent n h null null s t' s' e =
      let (s1, f, g) = >>=-eq-some (alloc.free_node n.ptr s) (λ u. some (null, u)) e in
      (
        n.ptr,
        record {
          before = [];
          gone = n;
          after = [];
          split = refl;
          here = refl;
          result = inl (ground arith, refl);
        },
        ground arith,
      )
  delete_here-Removed parent n h (node ln lh ll lr) null s t' s' e =
      let (done, f) = freed-eq-some n.ptr s (node ln lh ll lr) t' s' e in
      (
        n.ptr,
        record {
          before = entries (node ln lh ll lr);
          gone = n;
          after = [];
          split = refl;
          here = refl;
          result = inl (entries-rebalance (node ln lh ll lr) t' done ∙ sym (append-nil _), refl);
        },
        f,
      )
  delete_here-Removed parent n h null (node rn rh rl rr) s t' s' e =
      let (done, f) = freed-eq-some n.ptr s (node rn rh rl rr) t' s' e in
      (
        n.ptr,
        record {
          before = [];
          gone = n;
          after = entries (node rn rh rl rr);
          split = refl;
          here = refl;
          result = inl (entries-rebalance (node rn rh rl rr) t' done, refl);
        },
        f,
      )
  delete_here-Removed stale_wild n h (node ln lh ll lr) (node rn rh null rr) s t' s' e =
      ground arith
  delete_here-Removed stale_null n h (node ln lh ll lr) (node rn rh null null) s t' s' e =
      let left = node (move_into n rn) h (node ln lh ll lr) (node rn rh null null) in
      let (done, f) = freed-eq-some rn.ptr s left t' s' e in
      (
        rn.ptr,
        record {
          before = entries (node ln lh ll lr);
          gone = n;
          after = rn ∷ [];
          split = refl;
          here = refl;
          result = inr (inr (rn, [], refl, entries-rebalance left t' done, refl, (refl, tt)));
        },
        f,
      )
  delete_here-Removed stale_null n h (node ln lh ll lr) (node rn rh null (node m mh ml mr)) s t' s'
        e =
      let left = node (move_into n rn) h (node ln lh ll lr) (node m mh ml mr) in
      let (done, f) = freed-eq-some rn.ptr s left t' s' e in
      (
        rn.ptr,
        Removed-spill _ n rn h (node ln lh ll lr) (node rn rh null (node m mh ml mr))
            (node m mh ml mr) t' refl done,
        f,
      )
  delete_here-Removed parent n h (node ln lh ll lr) (node rn rh (node m mh ml mr) rr) s t' s' e =
      let least = (detach_min rn rh (node m mh ml mr) rr).0 in
      let r' = (detach_min rn rh (node m mh ml mr) rr).1 in
      let (done, f) =
        freed-eq-some least.ptr s (node (move_into n least) h (node ln lh ll lr) r') t' s' e in
      (
        least.ptr,
        Removed-spill _ n least h (node ln lh ll lr) (node rn rh (node m mh ml mr) rr) r' t'
            (entries-detach_min rn rh (node m mh ml mr) rr) done,
        f,
      )

  delete-left :
      (P Q : Type 0) (f : P → Q) (a : ℕ) (n : AvlNode) (h : ℕ) (l l' r : Tree) (s : S) (t' : Tree)
      (s' : S)
      → IsSplit (entries l) n (entries r)
      → a < n.addr
      → rebalance (node n h l' r) ≡ some t'
      → Deleted P a (entries l) s l' s'
      → Deleted Q a (entries (node n h l r)) s t' s'
  delete-left P Q f a n h l l' r s t' s' sp less done (inl (absent, same, e)) = inl (
    has_addr-left a (entries l) n (entries r) less sp.above ∙ absent,
    entries-rebalance (node n h l' r) t' done ∙ ap (λ ns. ns ++ n ∷ entries r) same,
    e,
  )
  delete-left P Q f a n h l l' r s t' s' sp less done (inr (freed, removed, g)) = inr (
    freed,
    rw (entries-rebalance (node n h l' r) t' done)
        (Removed-left P Q f a freed (entries l) (entries l') n (entries r) removed),
    g,
  )

  delete-right :
      (P Q : Type 0) (f : P → Q) (a : ℕ) (n : AvlNode) (h : ℕ) (l r r' : Tree) (s : S) (t' : Tree)
      (s' : S)
      → IsSplit (entries l) n (entries r)
      → n.addr < a
      → rebalance (node n h l r') ≡ some t'
      → Deleted P a (entries r) s r' s'
      → Deleted Q a (entries (node n h l r)) s t' s'
  unfolding has_addr
  delete-right P Q f a n h l r r' s t' s' sp more done (inl (absent, same, e)) = inl (
    has_addr-right a (entries l) (n ∷ entries r) (Below-before n a (entries l) sp.below more)
        ∙ ground (arith, absent),
    entries-rebalance (node n h l r') t' done ∙ ap (λ ns. entries l ++ n ∷ ns) same,
    e,
  )
  delete-right P Q f a n h l r r' s t' s' sp more done (inr (freed, removed, g)) = inr (
    freed,
    rw (entries-rebalance (node n h l r') t' done)
        (Removed-right P Q f a freed (entries l) n (entries r) (entries r') removed),
    g,
  )

  -- When _delete_node returns on a sorted tree, a range that begins at the address is gone and one
  -- struct is given back, its own or that of the range behind it, whose range then stands in the
  -- struct of the removed one; with no such range, the ranges and the allocator are as before.
  -- Only where the node of the address has two children, the right one has none, and the variable
  -- `parent` happens to hold NULL, may the struct that is given back also stay in the tree, right
  -- behind the one that has taken over its range.
  pub delete_node-Deleted :
      (parent : Stale) (t : Tree) (a : ℕ) (s : S) (t' : Tree) (s' : S)
      → IsSorted (entries t)
      → delete_node alloc parent t a s ≡ some (t', s')
      → Deleted (IsDangling parent a t) a (entries t) s t' s'
  unfolding delete_node has_addr
  delete_node-Deleted parent null a s t' s' sorted e = inl (refl, ground arith, ground arith)
  delete_node-Deleted parent (node n h l r) a s t' s' sorted e =
      let sp = IsSorted-IsSplit (entries l) n (entries r) sorted in
      elim (compare-cases a n.addr) [
        | inl (o, less) ↦
            let (l', el, er) =
              with_left-eq-some (delete_node alloc parent l a s) n h r t' s'
                (rw (o, delete_node) at e) in
            delete-left (IsDangling parent a l) (IsDangling parent a (node n h l r))
              (λ (p, q). (p, rw (o, IsStuck) q)) a n h l l' r s t' s' sp less er
              (delete_node-Deleted parent l a s l' s' sp.left el)
        | inr (inl (o, same)) ↦
            let (freed, removed, f) =
              delete_here-Removed parent n h l r s t' s' (rw (o, delete_node) at e) in
            let there : Removed (IsDangling parent a (node n h l r)) n.addr
                (entries l ++ n ∷ entries r) (entries t') freed =
              Removed-imp ((parent ≡ stale_null) × IsLeafBeside l r)
                (IsDangling parent a (node n h l r)) (λ (p, q). (p, rw (o, IsStuck) q)) n.addr
                (entries l ++ n ∷ entries r) (entries t') freed removed in
            inr (
              freed,
              subst
                  (λ z.
                    Removed (IsDangling parent a (node n h l r)) z (entries (node n h l r))
                      (entries t') freed)
                  (sym same) there,
              f,
            )
        | inr (inr (o, more)) ↦
            let (r', er, el) =
              with_right-eq-some (delete_node alloc parent r a s) n h l t' s'
                (rw (o, delete_node) at e) in
            delete-right (IsDangling parent a r) (IsDangling parent a (node n h l r))
              (λ (p, q). (p, rw (o, IsStuck) q)) a n h l r r' s t' s' sp more el
              (delete_node-Deleted parent r a s r' s' sp.right er)
      ]
