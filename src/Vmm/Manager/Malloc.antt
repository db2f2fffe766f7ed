-- ===== src/Vmm/Manager/Malloc.antt =====
-- malloc_pages and map_memory of mem_mgmt.c: the lock, the range and the mapping of its pages.
use gapxos.Base.{
  ℕ, zero, suc, ◌+◌, ◌*◌, ◌%◌, ◌^◌, ◌<◌, ◌≡◌, ◌≢◌, refl, subst, arith, ap, Option, some, true,
  false, not, ◌==◌, ◌||◌,
}
use gapxos.Vmm.Tree.{null}
use gapxos.Vmm.Tree.Balance.{levels}
use gapxos.Vmm.Manager.{
  Machine, Manager, PageFlags, lock_mgr, unlock_mgr, map_new, map_at, malloc_pages, map_memory, u64,
}
use gapxos.Vmm.Manager.Valid.{IsValid}
use gapxos.Vmm.Manager.Alloc.{GivesFresh, Allocated, full, taken, alloc_virt-Allocated}

-- The flags of the pages that malloc_pages and map_memory map.
abbrev pub malloc_flags : ℕ → ℕ → ℕ → PageFlags
malloc_flags write exec kernel = record {
  write = not (write == 0);
  exec = not (exec == 0);
  kernel = not (kernel == 0);
  usable = true;
  present = true;
}

abbrev pub map_flags : ℕ → PageFlags
map_flags kernel = record {
  write = false;
  exec = false;
  kernel = not (kernel == 0);
  usable = false;
  present = true;
}

abbrev pub locked : Manager → Manager
locked m = record m { lock = true }

suc-eq : (i : ℕ) → suc i ≡ i + 1
suc-eq i = omega arith

zero-add : (k : ℕ) → 0 + k ≡ k
zero-add k = omega arith

module _ {S : Type 0} (machine : Machine S) where
  -- set_page returns on every state.
  abbrev pub SetsPages : Type 0
  SetsPages =
      (pml4t vaddr paddr : ℕ) (flags : PageFlags) (s : S)
      → (s' : S) × (machine.set_page pml4t vaddr paddr flags s ≡ some s')

  -- So many pages from `addr` on, in order: for each, a page is taken from the stack, and then
  -- mapped at the page's own place in the range.
  unfoldable pub NewPages : ℕ → ℕ → PageFlags → ℕ → S → S → Type 0
  NewPages pml4t addr flags zero s s' = s' ≡ s
  NewPages pml4t addr flags (suc n) s s' =
      (t : S) × NewPages pml4t addr flags n s t
      × (machine.set_page pml4t ((addr + n * 4096) % 2 ^ 64) (machine.pmm_alloc_page t).0 flags
            (machine.pmm_alloc_page t).1
          ≡ some s')

  -- So many pages from `addr` on, in order: each is mapped to the page as far behind `map_addr`.
  unfoldable pub GivenPages : ℕ → ℕ → ℕ → PageFlags → ℕ → S → S → Type 0
  GivenPages pml4t map_addr addr flags zero s s' = s' ≡ s
  GivenPages pml4t map_addr addr flags (suc n) s s' =
      (t : S) × GivenPages pml4t map_addr addr flags n s t
      × (machine.set_page pml4t ((addr + n * 4096) % 2 ^ 64) ((map_addr + n * 4096) % 2 ^ 64) flags
            t
          ≡ some s')

  -- The loops go on from the pages that are mapped already.
  map_new-NewPages :
      (rounds i pml4t addr : ℕ) (flags : PageFlags) (s0 s : S)
      → SetsPages
      → NewPages pml4t addr flags i s0 s
      → (s' : S) × (map_new machine rounds i pml4t addr flags s ≡ some s')
        × NewPages pml4t addr flags (i + rounds) s0 s'
  unfolding map_new NewPages
  map_new-NewPages zero i pml4t addr flags s0 s sets done =
      (s, refl, subst (λ z. NewPages pml4t addr flags z s0 s) (omega arith) done)
  map_new-NewPages (suc rounds) i pml4t addr flags s0 s sets done =
      let page = machine.pmm_alloc_page s in
      let (s2, set) = sets pml4t (u64 (addr + i * 4096)) page.0 flags page.1 in
      let longer : NewPages pml4t addr flags (i + 1) s0 s2 =
        subst (λ z. NewPages pml4t addr flags z s0 s2) (suc-eq i) (s, done, set) in
      let (s3, rest, all) = map_new-NewPages rounds (i + 1) pml4t addr flags s0 s2 sets longer in
      (s3, rw set rest, subst (λ z. NewPages pml4t addr flags z s0 s3) (omega arith) all)

  map_at-GivenPages :
      (rounds i pml4t addr map_addr : ℕ) (flags : PageFlags) (s0 s : S)
      → SetsPages
      → GivenPages pml4t map_addr addr flags i s0 s
      → (s' : S) × (map_at machine rounds i pml4t addr map_addr flags s ≡ some s')
        × GivenPages pml4t map_addr addr flags (i + rounds) s0 s'
  unfolding map_at GivenPages
  map_at-GivenPages zero i pml4t addr map_addr flags s0 s sets done =
      (s, refl, subst (λ z. GivenPages pml4t map_addr addr flags z s0 s) (omega arith) done)
  map_at-GivenPages (suc rounds) i pml4t addr map_addr flags s0 s sets done =
      let (s2, set) = sets pml4t (u64 (addr + i * 4096)) (u64 (map_addr + i * 4096)) flags s in
      let longer : GivenPages pml4t map_addr addr flags (i + 1) s0 s2 =
        subst (λ z. GivenPages pml4t map_addr addr flags z s0 s2) (suc-eq i) (s, done, set) in
      let (s3, rest, all) =
        map_at-GivenPages rounds (i + 1) pml4t addr map_addr flags s0 s2 sets longer in
      (s3, rw set rest, subst (λ z. GivenPages pml4t map_addr addr flags z s0 s3) (omega arith) all)

  Allocated-keeps :
      (b e k : ℕ) (m : Manager) (s : S) (addr : ℕ) (m' : Manager) (s' : S)
      → Allocated machine b e k m s addr m' s'
      → (m'.pml4t ≡ m.pml4t)
  Allocated-keeps b e k m s addr m' s' (full _ same _ _) = ap (λ x. x.pml4t) same
  Allocated-keeps b e k m s addr m' s' (taken n fit _ what) = what.table

  -- The call holds the lock while it works; `Maps addr s s'` says how the pages of the range at
  -- `addr` are mapped.
  pub record Served (b e k : ℕ) (m : Manager) (s : S) (Maps : ℕ → S → S → Type 0)
      (result : Option (ℕ × Option Manager × S)) : Type 0 where
    pub addr : ℕ
    pub left : Manager
    pub between : S
    pub last : S
    pub allocated : Allocated machine b e k (locked m) s addr left between
    pub mapped : Maps addr between last
    pub result_is : result ≡ some (addr, some (unlock_mgr left), last)

  -- malloc_pages on a free, valid manager of fewer than 2048 levels that is not NULL, for one page
  -- or more: the call returns what alloc_virt gives under the lock, and then, in order, for
  -- each of the k pages from the returned address on, takes a page from the stack and maps it
  -- there; and the lock is released.
  pub malloc_pages-Served :
      (b e k write exec kernel : ℕ) (m : Manager) (s : S)
      → IsValid b e m
      → levels m.tree < 2 ^ 11
      → m.tree ≢ null
      → 0 < k
      → m.lock ≡ false
      → GivesFresh machine m s
      → SetsPages
      → Served b e k m s
          (λ addr. NewPages m.pml4t addr (malloc_flags write exec kernel) k)
          (malloc_pages machine (some m) k write exec kernel s)
  unfolding malloc_pages lock_mgr NewPages
  malloc_pages-Served b e k write exec kernel m s v small there pos idle give sets =
      let v' : IsValid b e (locked m) = record {
        tiling = v.tiling;
        top = v.top;
        distinct = v.distinct;
        avl = v.avl;
      } in
      let give' : GivesFresh machine (locked m) s = record {
        ptr = give.ptr;
        rest = give.rest;
        gives = give.gives;
        fresh = give.fresh;
      } in
      let (addr, m', s1, done, what) =
        alloc_virt-Allocated machine b e k (locked m) s v' small there pos give' in
      let (s2, mapped, pages) =
        map_new-NewPages k 0 m.pml4t addr (malloc_flags write exec kernel) s1 s1 sets refl in
      let table = Allocated-keeps b e k (locked m) s addr m' s1 what in
      let nonzero : (k == 0) ≡ false = ground arith in
      record {
        addr = addr;
        left = m';
        between = s1;
        last = s2;
        allocated = what;
        mapped =
            subst (λ z. NewPages m.pml4t addr (malloc_flags write exec kernel) z s1 s2) (zero-add k)
              pages;
        result_is = rw (nonzero, idle) (rw done (rw (table, mapped)));
      }

  -- map_memory on a free, valid manager of fewer than 2048 levels that is not NULL, for one page or
  -- more from an address on a page boundary: the call returns what alloc_virt gives under the lock,
  -- and then, in order, each of the k pages from the returned address on is mapped to the page as
  -- far behind the given address; and the lock is released.
  pub map_memory-Served :
      (b e k map_addr kernel : ℕ) (m : Manager) (s : S)
      → IsValid b e m
      → levels m.tree < 2 ^ 11
      → m.tree ≢ null
      → 0 < k
      → map_addr % 4096 ≡ 0
      → m.lock ≡ false
      → GivesFresh machine m s
      → SetsPages
      → Served b e k m s
          (λ addr. GivenPages m.pml4t map_addr addr (map_flags kernel) k)
          (map_memory machine (some m) map_addr k kernel s)
  unfolding map_memory lock_mgr GivenPages
  map_memory-Served b e k map_addr kernel m s v small there pos aligned idle give sets =
      let v' : IsValid b e (locked m) = record {
        tiling = v.tiling;
        top = v.top;
        distinct = v.distinct;
        avl = v.avl;
      } in
      let give' : GivesFresh machine (locked m) s = record {
        ptr = give.ptr;
        rest = give.rest;
        gives = give.gives;
        fresh = give.fresh;
      } in
      let (addr, m', s1, done, what) =
        alloc_virt-Allocated machine b e k (locked m) s v' small there pos give' in
      let (s2, mapped, pages) =
        map_at-GivenPages k 0 m.pml4t addr map_addr (map_flags kernel) s1 s1 sets refl in
      let table = Allocated-keeps b e k (locked m) s addr m' s1 what in
      let valid_call : (k == 0 || not (map_addr % 4096 == 0)) ≡ false = ground arith in
      record {
        addr = addr;
        left = m';
        between = s1;
        last = s2;
        allocated = what;
        mapped =
            subst (λ z. GivenPages m.pml4t map_addr addr (map_flags kernel) z s1 s2) (zero-add k)
              pages;
        result_is = rw (valid_call, idle) (rw done (rw (table, mapped)));
      }
