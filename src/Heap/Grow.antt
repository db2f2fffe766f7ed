-- ===== src/Heap/Grow.antt =====
-- A new page of the heap: the end of find_free in heap.c.
use gapxos.Base.{
  ℕ, ◌+◌, ◌-◌, ◌≡◌, ◌≢◌, refl, arith, false, Option, some, List, [], ◌∷◌, ◌++◌, All, All-imp,
  All-append, ◌==◌, ◌∙◌,
}
use gapxos.Vmm.Manager.{Machine, Manager, malloc_pages}
use gapxos.Heap.{
  Block, Page, Heap, Slot, root, page_next, header, update, write, page_count, new_page,
}
use gapxos.Heap.Chain.{head_of}
use gapxos.Heap.Pages.{PageView, head_page, IsPage, IsPages, IsPage-frame, IsSamePage, IsHeap, Far}
use gapxos.Heap.Search.{end_slot, at-page}

-- A page with one free block.
abbrev pub fresh_page : ℕ → PageView
fresh_page p = record {
  addr = p;
  free = record { addr = p + header; length = 4096 - header - header } ∷ [];
  used = [];
}

abbrev pub fresh_header : ℕ → Page
fresh_header p = record { next = 0; free = p + header; allocated = 0 }

abbrev pub fresh_block : ℕ → Block
fresh_block p = record { next = 0; pghdr = p; length = 4096 - header - header }

-- The headers of the pages, and the root, behind the write at the end of the list.
abbrev extend : (ℕ → Option Page) → List PageView → ℕ → ℕ → Option Page
extend pages [] p = pages
extend pages (v ∷ []) p =
    update pages v.addr (record { next = p; free = head_of v.free; allocated = head_of v.used })
extend pages (v ∷ (w ∷ vs)) p = extend pages (w ∷ vs) p

abbrev new_root : ℕ → List PageView → ℕ → ℕ
new_root r [] p = p
new_root r (v ∷ vs) p = r

extend-other :
    (pages : ℕ → Option Page) (vs : List PageView) (p i : ℕ)
    → All (λ v. v.addr ≢ i) vs
    → extend pages vs p i ≡ pages i
extend-other pages [] p i others = refl
extend-other pages (v ∷ []) p i others = ground (arith, others.0)
extend-other pages (v ∷ (w ∷ vs)) p i others = extend-other pages (w ∷ vs) p i others.1

write-end :
    {S : Type 0}
    → (h : Heap S) (s : Slot) (v : PageView) (vs : List PageView) (p : ℕ)
    → IsPages h.pages h.blocks (v ∷ vs)
    → write (end_slot s (v ∷ vs)) p h ≡ some (record h { pages = extend h.pages (v ∷ vs) p })
unfolding write
write-end h s v [] p are = rw (at-page h 0 v are.0) refl
write-end h s v (w ∷ vs) p are = write-end h (page_next v.addr) w vs p are.2

write-end_root :
    {S : Type 0}
    → (h : Heap S) (vs : List PageView) (p : ℕ) → IsPages h.pages h.blocks vs
    → write (end_slot root vs) p h
      ≡ some (record h { heap_root = new_root h.heap_root vs p; pages = extend h.pages vs p })
unfolding write
write-end_root h [] p are = refl
write-end_root h (v ∷ vs) p are = write-end h root v vs p are

module _ (pages : ℕ → Option Page) (blocks : ℕ → Option Block) (p : ℕ) where
  abbrev pages_then : List PageView → ℕ → Option Page
  pages_then vs = update (extend pages vs p) p (fresh_header p)

  abbrev blocks_then : ℕ → Option Block
  blocks_then = update blocks (p + header) (fresh_block p)

  fresh-IsPage :
      (pages' : ℕ → Option Page)
      → p ≢ 0
      → pages' p ≡ some (fresh_header p)
      → IsPage pages' blocks_then 0 (fresh_page p)
  fresh-IsPage pages' some_p e = record {
    some_page = some_p;
    page_header = e;
    free_chain = (omega arith, ground arith, tt);
    used_chain = tt;
    inside = ((omega arith, omega arith), tt);
    apart = (tt, tt);
  }

  -- The writes spare a page that is far from the new one, but for the place of the pointer.
  spared :
      (pages' : ℕ → Option Page) (v : PageView)
      → Far (fresh_page p) v
      → IsSamePage pages' (update pages' p (fresh_header p)) blocks blocks_then v.addr
  spared pages' v far = record {
    same_header = ground arith;
    same_blocks = λ i low high. ground arith;
  }

  relink :
      (next : ℕ) (v : PageView)
      → Far (fresh_page p) v
      → IsPage pages blocks next v
      → IsPage (pages_then (v ∷ [])) blocks_then p v
  relink next v far is =
      let pages' = extend pages (v ∷ []) p in
      IsPage-frame pages' (pages_then (v ∷ [])) blocks blocks_then p v (spared pages' v far)
        (record {
          some_page = is.some_page;
          page_header = ground arith;
          free_chain = is.free_chain;
          used_chain = is.used_chain;
          inside = is.inside;
          apart = is.apart;
        })

  extend-IsPages :
      (vs : List PageView)
      → p ≢ 0
      → All (Far (fresh_page p)) vs
      → IsPages pages blocks vs
      → IsPages (pages_then vs) blocks_then (vs ++ fresh_page p ∷ [])
  extend-IsPages [] some_p far are = (fresh-IsPage (pages_then []) some_p (ground arith), tt, tt)
  extend-IsPages (v ∷ []) some_p far are = (
    relink 0 v far.0 are.0,
    (ground (arith, far.0), tt),
    (fresh-IsPage (pages_then (v ∷ [])) some_p (ground arith), tt, tt),
  )
  extend-IsPages (v ∷ (w ∷ vs)) some_p far are =
      let others : All (λ u. u.addr ≢ v.addr) (w ∷ vs) =
        All-imp (Far v) (λ u. u.addr ≢ v.addr) (λ u a. ground arith) (w ∷ vs) are.1 in
      (
        IsPage-frame pages (pages_then (w ∷ vs)) blocks blocks_then w.addr v
            (record {
              same_header =
                  (spared (extend pages (w ∷ vs) p) v far.0).same_header
                  ∙ extend-other pages (w ∷ vs) p v.addr others;
              same_blocks = (spared (extend pages (w ∷ vs) p) v far.0).same_blocks;
            })
            are.0,
        All-append (Far v) (w ∷ vs) (fresh_page p ∷ []) are.1 (ground (arith, far.0), tt),
        extend-IsPages (w ∷ vs) some_p far.1 are.2,
      )

new_root-head :
    (r : ℕ) (vs : List PageView) (p : ℕ)
    → r ≡ head_page vs
    → new_root r vs p ≡ head_page (vs ++ fresh_page p ∷ [])
new_root-head r [] p e = refl
new_root-head r (v ∷ vs) p e = e

module _ {S : Type 0} (machine : Machine S) where
  -- The pages that malloc_pages gives are none of the heap's.
  pub record GivesPage (size : ℕ) (vs : List PageView) (h : Heap S) : Type 0 where
    pub p : ℕ
    pub vmm : Option Manager
    pub memory' : S
    pub gives :
        malloc_pages machine h.kern_vmm (page_count size) 1 0 1 h.memory ≡ some (p, vmm, memory')
    pub some_page : p ≢ 0
    pub far : All (Far (fresh_page p)) vs

  -- The heap gets one more page, and its block is the one that is returned.
  pub new_page-IsHeap :
      (size : ℕ) (vs : List PageView) (h : Heap S) (new : GivesPage size vs h)
      → IsHeap vs h
      → (h' : Heap S) × (new_page machine size (end_slot root vs) h ≡ some (new.p + header, h'))
        × IsHeap (vs ++ fresh_page new.p ∷ []) h'
  unfolding new_page
  new_page-IsHeap size vs h new valid =
      let p = new.p in
      let h1 : Heap S = record h { kern_vmm = new.vmm; memory = new.memory' } in
      let there : (p == 0) ≡ false = ground (arith, new.some_page) in
      (
        record h1 {
          heap_root = new_root h.heap_root vs p;
          pages = pages_then h.pages h.blocks p vs;
          blocks = blocks_then h.pages h.blocks p;
        },
        rw (new.gives, write-end_root h1 vs p valid.pages_are, there) refl,
        record {
          root_is = new_root-head h.heap_root vs p valid.root_is;
          pages_are = extend-IsPages h.pages h.blocks p vs new.some_page new.far valid.pages_are;
        },
      )
