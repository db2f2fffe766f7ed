-- ===== src/Heap/Free.antt =====
-- free of heap.c as a whole, where the block joins the free one in front of it, and malloc with the
-- free of its block.
use gapxos.Base.{
  ℕ, ◌+◌, ◌-◌, ◌^◌, ◌<◌, ◌≡◌, refl, ap, subst, arith, Option, some, List, [], ◌∷◌, ◌++◌, ◌==◌,
  if◌then◌else◌, length, length-append, ◌>>=◌, ◌∙◌,
}
use gapxos.Pmm.{u64}
use gapxos.Vmm.Manager.{Machine, free_pages}
use gapxos.Heap.{Block, Page, Heap, page_allocated, page_free, header, at, merge_block, free}
use gapxos.Heap.Chain.{Cell, head_of, header_of, IsChain, at-some, last_slot}
use gapxos.Heap.Pages.{
  PageView, head_page, IsPage, IsPages, IsPages-one, IsPages-change, IsHeap, rounds_of, with_lists,
  head_page-with_lists,
}
use gapxos.Heap.Search.{read-allocated, read-free}
use gapxos.Heap.Unlink.{
  unlinked, page_then, unlinked_free, unlinked_page, unlinked_cell, some_freed, freed_at,
  freed-IsInside, unlink_slot, unlink_write,
}
use gapxos.Heap.Take.{rounds-place}
use gapxos.Heap.Merge.{NoneBehind, NotNext-front, merge_block-wider}
use gapxos.Heap.Widen.{
  wide, widened, before-IsInside, front_before, widened-IsPage, widened-IsSamePage,
}

-- Where an allocated block stands among the pages.
pub record Held (vs : List PageView) : Type 0 where
  pub before : List PageView
  pub page : PageView
  pub after : List PageView
  pub used_before : List Cell
  pub cell : Cell
  pub used_after : List Cell
  pub pages_split : vs ≡ before ++ page ∷ after
  pub used_split : page.used ≡ used_before ++ cell ∷ used_after

-- The end of free: a page without an allocated block goes to free_pages.
abbrev pub given_back : {S : Type 0} → Machine S → ℕ → List Cell → Heap S → Option (Heap S)
given_back machine p [] h = do
  (vmm, memory') ← free_pages machine h.kern_vmm p h.memory
  some (record h { kern_vmm = vmm; memory = memory' })
given_back machine p (u ∷ us) h = some h

given_back-test :
    {S : Type 0}
    → (machine : Machine S) (p : ℕ) (blocks : ℕ → Option Block) (left : List Cell) (h : Heap S)
    → IsChain blocks p left
    → (if head_of left == 0 then given_back machine p [] h else some h)
      ≡ given_back machine p left h
given_back-test machine p blocks [] h chain = refl
given_back-test machine p blocks (u ∷ us) h chain = ground (arith, chain.0)

module _ {S : Type 0} (machine : Machine S) (fuel : ℕ) (h : Heap S) where
  module _ (next : ℕ) (v : PageView) (ub : List Cell) (c : Cell) (ua : List Cell)
      (is : IsPage h.pages h.blocks next v) (split : v.used ≡ ub ++ c ∷ ua) where
    -- free around its loop over the free list.
    pub free-merged :
        (h2 : Heap S) (x : Page) (us : List Cell)
        → length ub < fuel
        → merge_block fuel c.addr
            (last_slot (page_allocated v.addr) ub)
            (page_free v.addr)
            (unlinked h next v ub c ua is split)
          ≡ some h2
        → at h2.pages v.addr ≡ some (record x { allocated = head_of us })
        → IsChain h2.blocks v.addr us
        → free machine fuel (c.addr + header) h ≡ given_back machine v.addr us h2
    unfolding free
    free-merged h2 x us enough merged found left =
        let back : c.addr + header - header ≡ c.addr = omega arith in
        rw
          (
            free,
            back,
            freed_at h next v ub c ua is split,
            unlink_slot h next v ub c ua is split fuel enough,
            unlink_write h next v ub c ua is split,
            merged,
            read-allocated h2 v.addr (record x { allocated = head_of us }) found,
          )
          (given_back-test machine v.addr h2.blocks us h2 left)

    pub free-widened :
        (fb : List Cell) (d : Cell) (fa : List Cell)
        → (free_split : v.free ≡ fb ++ d ∷ fa) → (touches : d.addr + header + d.length ≡ c.addr)
        → NoneBehind c fb
        → v.addr + 4096 < 2 ^ 64
        → length ub < fuel
        → length fb < fuel
        → free machine fuel (c.addr + header) h
          ≡ given_back machine v.addr
              (ub ++ ua)
              (widened h next v ub c ua is split fb d fa free_split touches)
    free-widened fb d fa free_split touches behind low used_fuel free_fuel =
        let inside = freed-IsInside h next v ub c ua is split in
        let h1 = unlinked h next v ub c ua is split in
        let x = page_then h next v ub c ua is split in
        let there =
          at-some h1.blocks c.addr (header_of v.addr c ua) (some_freed h next v ub c ua is split)
            (unlinked_cell h next v ub c ua is split) in
        let found =
          at-some h1.pages v.addr x is.some_page (unlinked_page h next v ub c ua is split) in
        let not_next =
          NotNext-front v.addr c d fb low inside touches
            (before-IsInside h next v ub c ua is split fb d fa free_split touches)
            (front_before h next v ub c ua is split fb d fa free_split touches) behind in
        let sum : u64 (d.length + u64 (c.length + header)) ≡ (wide d c).length =
          omega (arith, inside.0, inside.1, low, touches) in
        let merged =
          merge_block-wider h1 v.addr c ua there fuel (last_slot (page_allocated v.addr) ub)
            (page_free v.addr) fb d fa free_fuel not_next
            (omega (arith, inside.0, inside.1, low, touches))
            (read-free h1 v.addr x found ∙ ap (λ cs. some (head_of cs)) free_split)
            (subst (IsChain h1.blocks v.addr) free_split
              (unlinked_free h next v ub c ua is split)) in
        free-merged (widened h next v ub c ua is split fb d fa free_split touches) x (ub ++ ua)
          used_fuel (merged ∙ rw sum refl) found
          (widened-IsPage h next v ub c ua is split fb d fa free_split touches).used_chain

  -- On a heap whose lists of headers are whole and whose blocks do not overlap, for an allocated
  -- block that begins where a free one of its page ends, where no free block before that one begins
  -- where the block ends, in a page that ends within the 64 bits of an address, and with more fuel
  -- than there are pages and blocks: free widens the free block by the block and its header, takes
  -- the block out of the allocated ones and leaves all others as they are, and the heap is again
  -- whole. If the page has no allocated block left, then it has gone to free_pages, and is still in
  -- the list of pages.
  pub free-IsWidened :
      (vs : List PageView) (held : Held vs) (fb : List Cell) (d : Cell) (fa : List Cell)
      → IsHeap vs h
      → rounds_of vs < fuel
      → held.page.addr + 4096 < 2 ^ 64
      → held.page.free ≡ fb ++ d ∷ fa
      → d.addr + header + d.length ≡ held.cell.addr
      → NoneBehind held.cell fb
      → (h' : Heap S) × (free machine fuel (held.cell.addr + header) h
          ≡ given_back machine held.page.addr (held.used_before ++ held.used_after) h')
        × IsHeap
            (held.before
              ++ with_lists held.page
                  (fb ++ wide d held.cell ∷ fa)
                  (held.used_before ++ held.used_after)
                ∷ held.after)
            h'
  free-IsWidened vs held fb d fa valid enough low free_split touches behind =
      let v = held.page in
      let ub = held.used_before in
      let c = held.cell in
      let ua = held.used_after in
      let split = held.used_split in
      let are = subst (IsPages h.pages h.blocks) held.pages_split valid.pages_are in
      let is = IsPages-one h.pages h.blocks held.before v held.after are in
      let next = head_page held.after in
      let rounds = rounds-place held.before v held.after in
      let total = ap rounds_of held.pages_split in
      let used_fuel : length ub < fuel =
        omega (arith, rounds, total, ap (length {0}) split, length-append ub (c ∷ ua)) in
      let free_fuel : length fb < fuel =
        omega (arith, rounds, total, ap (length {0}) free_split, length-append fb (d ∷ fa)) in
      let h' = widened h next v ub c ua is split fb d fa free_split touches in
      (
        h',
        free-widened next v ub c ua is split fb d fa free_split touches behind low used_fuel
            free_fuel,
        record {
          root_is =
              valid.root_is
              ∙ (ap head_page held.pages_split
                  ∙ head_page-with_lists held.before v held.after (fb ++ wide d c ∷ fa) (ub ++ ua));
          pages_are =
              IsPages-change h.pages h'.pages h.blocks h'.blocks v (fb ++ wide d c ∷ fa) (ub ++ ua)
                held.after (widened-IsSamePage h next v ub c ua is split fb d fa free_split touches)
                held.before (widened-IsPage h next v ub c ua is split fb d fa free_split touches)
                are;
        },
      )
