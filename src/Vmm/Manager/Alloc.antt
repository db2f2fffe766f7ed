-- ===== src/Vmm/Manager/Alloc.antt =====
-- alloc_virt of mem_mgmt.c: the last free range that is long enough gives up its first pages.
use gapxos.Base.{
  ℕ, ◌+◌, ◌-◌, ◌*◌, ◌^◌, ◌≤◌, ◌<◌, ◌≡◌, ◌≢◌, refl, List, ◌∷◌, ◌++◌, arith, ◌==◌, ap, sym, subst,
  ◌∙◌, none, some, inl, inr, false, Option-cases, Bool-cases,
}
use gapxos.Vmm.Tree.{AvlNode, Tree, null, range, insert_node}
use gapxos.Vmm.Tree.Order.{entries}
use gapxos.Vmm.Tree.Balance.{levels}
use gapxos.Vmm.Tree.Growth.{IsGrown, insert_node-IsGrown}
use gapxos.Vmm.Tree.Insert.{Inserted, insert_node_lem}
use gapxos.Vmm.Tree.Ranges.{insert_range, has_addr}
use gapxos.Vmm.Tree.Search.Fit.{last_fit, avl_min_size_lem}
use gapxos.Vmm.Tree.Search.Tiling.{end_of, IsTiling, Tiling-append, Tiling-IsSorted}
use gapxos.Vmm.Manager.{Machine, Manager, u64, take_pages, avl_insert, split_range, alloc_virt}
use gapxos.Vmm.Manager.Structs.{Apart, IsDistinct, levels-update_struct, insert_range-IsDistinct}
use gapxos.Vmm.Manager.Valid.{
  IsValid, cut, cut-whole, cut-part, IsLastFit, last_fit-IsLastFit, insert_range-inside, marked,
  marked-IsValid, range_bounds, cut-IsTiling,
}

module _ {S : Type 0} (machine : Machine S) where
  -- What the node allocator is relied on for: create_node gives a struct that is not in use.
  pub record GivesFresh (m : Manager) (s : S) : Type 0 where
    pub ptr : ℕ
    pub rest : S
    pub gives : machine.nodes.create_node s ≡ some (ptr, rest)
    pub fresh : Apart ptr (entries m.tree)

  -- The outcome of a cut of the range n.
  pub record IsCut (b e k : ℕ) (m : Manager) (n : AvlNode) (before after : List AvlNode)
      (m' : Manager) : Type 0 where
    pub ptr : ℕ
    pub list : entries m'.tree ≡ before ++ (cut ptr k n ++ after)
    pub valid : IsValid b e m'
    pub depth : levels m'.tree ≤ levels m.tree + 1
    pub table : m'.pml4t ≡ m.pml4t
    pub held : m'.lock ≡ m.lock

  split_range-whole :
      (b e k : ℕ) (m : Manager) (s : S) (n : AvlNode) (before after : List AvlNode)
      → IsValid b e m
      → entries m.tree ≡ before ++ n ∷ after
      → 0 < k
      → n.page_count ≡ k
      → (m' : Manager) × (split_range machine m n k s ≡ some (n.addr, m', s))
        × IsCut b e k m n before after m'
  unfolding split_range
  split_range-whole b e k m s n before after v split pos same =
      let tiling = subst (λ ns. IsTiling b ns e) split v.tiling in
      let bounds = range_bounds b e before n after tiling in
      let taken : IsTiling b (before ++ take_pages k n ∷ after) e =
        Tiling-append b before n.addr _ e bounds.1.front
          (refl, pos, subst (λ c. IsTiling (n.addr + c * 4096) after e) same bounds.1.back) in
      let done = marked-IsValid b e k m n before after v.top split v.distinct v.avl taken in
      let depth = levels-update_struct n.ptr (take_pages k) m.tree in
      (
        marked k n m,
        ground arith,
        record {
          ptr = 0;
          list = done.1 ∙ ap (λ ns. before ++ ns) (cut-whole 0 k n after same);
          valid = done.0;
          depth = omega arith;
          table = refl;
          held = refl;
        },
      )

  part-IsCut :
      (b e k : ℕ) (m : Manager) (s : S) (n : AvlNode) (before after : List AvlNode) (t' : Tree)
      (s' : S)
      → IsValid b e m
      → GivesFresh m s
      → entries m.tree ≡ before ++ n ∷ after
      → 0 < k
      → k < n.page_count
      → Inserted machine.nodes (n.addr + k * 4096) (n.page_count - k) (entries m.tree) s t' s'
      → IsGrown m.tree t'
      → IsCut b e k m n before after (marked k n (record m { tree = t' }))
  part-IsCut b e k m s n before after t' s' v give split pos less what grown =
      let a = n.addr + k * 4096 in
      let c = n.page_count - k in
      let tiling = subst (λ ns. IsTiling b ns e) split v.tiling in
      let inside =
        insert_range-inside what.ptr a c b before n after e tiling (omega arith) (omega arith) in
      let absent = ap (has_addr a) split ∙ inside.1 in
      let list = what.list ∙ ap (insert_range what.ptr a c) split ∙ inside.0 in
      let given : what.ptr ≡ give.ptr = ground (arith, what.source, give.gives, absent) in
      let distinct = subst IsDistinct (sym what.list) (
        insert_range-IsDistinct what.ptr a c (entries m.tree)
          (subst (λ q. Apart q (entries m.tree)) (sym given) give.fresh) v.distinct) in
      let done =
        marked-IsValid b e k (record m { tree = t' }) n before (range what.ptr a c ∷ after) v.top
          list distinct grown.avl (cut-IsTiling b e k what.ptr before n after tiling pos less) in
      record {
        ptr = what.ptr;
        list = done.1 ∙ ap (λ ns. before ++ ns) (cut-part what.ptr k n after less);
        valid = done.0;
        depth = omega (arith, grown.upper, levels-update_struct n.ptr (take_pages k) t');
        table = refl;
        held = refl;
      }

  -- The wrapped sums of alloc_virt are the plain ones.
  split_range-eq :
      (k : ℕ) (m : Manager) (n : AvlNode) (s : S) (t' : Tree) (s' : S)
      → end_of n < 2 ^ 64
      → k < n.page_count
      → insert_node machine.nodes m.tree (n.addr + k * 4096) (n.page_count - k) s ≡ some (t', s')
      → split_range machine m n k s ≡ some (n.addr, marked k n (record m { tree = t' }), s')
  unfolding split_range avl_insert
  split_range-eq k m n s t' s' top less inserted =
      let count : u64 (n.page_count + 2 ^ 64 - k) ≡ n.page_count - k = omega arith in
      let address : u64 (n.addr + k * 4096) ≡ n.addr + k * 4096 = omega arith in
      let nonzero : (n.page_count - k == 0) ≡ false = ground arith in
      rw (count, address, nonzero, inserted)

  split_range-part :
      (b e k : ℕ) (m : Manager) (s : S) (n : AvlNode) (before after : List AvlNode)
      → IsValid b e m
      → levels m.tree < 2 ^ 11
      → GivesFresh m s
      → entries m.tree ≡ before ++ n ∷ after
      → 0 < k
      → k < n.page_count
      → (m' : Manager) × (s' : S) × (split_range machine m n k s ≡ some (n.addr, m', s'))
        × IsCut b e k m n before after m'
  split_range-part b e k m s n before after v small give split pos less =
      let tiling = subst (λ ns. IsTiling b ns e) split v.tiling in
      let (t', s', inserted, grown) =
        insert_node-IsGrown machine.nodes m.tree (n.addr + k * 4096) (n.page_count - k) s give.ptr
          give.rest v.avl small give.gives in
      let what =
        insert_node_lem machine.nodes m.tree (n.addr + k * 4096) (n.page_count - k) s t' s'
          (Tiling-IsSorted b (entries m.tree) e v.tiling) inserted in
      (
        marked k n (record m { tree = t' }),
        s',
        split_range-eq k m n s t' s'
            (omega (arith, v.top, (range_bounds b e before n after tiling).0)) less inserted,
        part-IsCut b e k m s n before after t' s' v give split pos less what grown,
      )

  -- What alloc_virt has done when it returns the address.
  pub data Allocated (b e k : ℕ) (m : Manager) (s : S) : ℕ → Manager → S → Type 0 where
    full :
        {m' : Manager} {s' : S} {addr : ℕ}
        → addr ≡ 0
        → m' ≡ m
        → s' ≡ s
        → last_fit k (entries m.tree) ≡ none
        → Allocated b e k m s addr m' s'
    taken :
        {m' : Manager} {s' : S} {addr : ℕ} (n : AvlNode) (fit : IsLastFit k (entries m.tree) n)
        → addr ≡ n.addr
        → IsCut b e k m n fit.before fit.after m'
        → Allocated b e k m s addr m' s'

  -- A call of alloc_virt on a valid manager of fewer than 2048 levels returns. With no free range
  -- of page_count pages it returns NULL and changes nothing; else it returns the beginning of the
  -- last such range, whose first page_count pages are now allocated, with what is left of it
  -- behind them as a free range; all other ranges are as before, and the manager is valid.
  pub alloc_virt-Allocated :
      (b e k : ℕ) (m : Manager) (s : S)
      → IsValid b e m
      → levels m.tree < 2 ^ 11
      → m.tree ≢ null
      → 0 < k
      → GivesFresh m s
      → (addr : ℕ) × (m' : Manager) × (s' : S) × (alloc_virt machine m k s ≡ some (addr, m', s'))
        × Allocated b e k m s addr m' s'
  unfolding alloc_virt
  alloc_virt-Allocated b e k m s v small there pos give =
      elim (Option-cases (last_fit k (entries m.tree))) [
        | inl nothing ↦
            (0, m, s, rw (avl_min_size_lem m.tree k there, nothing), full refl refl refl nothing)
        | inr (n, found) ↦
            let fit = last_fit-IsLastFit k (entries m.tree) n found in
            elim (Bool-cases (n.page_count == k)) [
              | inl whole ↦
                  let (m', done, what) =
                    split_range-whole b e k m s n fit.before fit.after v fit.split pos
                      (ground arith) in
                  (
                    n.addr,
                    m',
                    s,
                    rw (avl_min_size_lem m.tree k there, found) done,
                    taken n fit refl what,
                  )
              | inr part ↦
                  let (m', s', done, what) =
                    split_range-part b e k m s n fit.before fit.after v small give fit.split pos
                      (ground (arith, fit.long)) in
                  (
                    n.addr,
                    m',
                    s',
                    rw (avl_min_size_lem m.tree k there, found) done,
                    taken n fit refl what,
                  )
            ]
      ]
