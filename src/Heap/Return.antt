-- ===== src/Heap/Return.antt =====
-- free of heap.c where no free block is beside the one that is freed.
use gapxos.Base.{
  ℕ, ◌+◌, ◌^◌, ◌<◌, ◌≡◌, sym, ap, subst, arith, List, [], ◌∷◌, ◌++◌, All-append_left, length,
  length-append, append-nil, ◌∙◌,
}
use gapxos.Vmm.Manager.{Machine}
use gapxos.Heap.{Heap, page_allocated, page_free, header, free}
use gapxos.Heap.Chain.{Cell, head_of, header_of, IsChain, at-some, last_slot}
use gapxos.Heap.Link.{write-free}
use gapxos.Heap.Pages.{
  PageView, head_page, IsPage, IsPages, IsPages-one, IsPages-change, IsHeap, IsInside, rounds_of,
  with_lists, head_page-with_lists,
}
use gapxos.Heap.Search.{read-free}
use gapxos.Heap.Take.{rounds-place}
use gapxos.Heap.Unlink.{
  unlinked, page_then, unlinked_free, unlinked_page, unlinked_cell, some_freed, freed-IsInside,
}
use gapxos.Heap.Merge.{NoneBeside, NotNext-beside, merge_block-last}
use gapxos.Heap.Append.{HasLists, appended, appended-HasLists, appended-IsSamePage, appended-IsPage}
use gapxos.Heap.Free.{Held, given_back, free-merged}

module _ {S : Type 0} (machine : Machine S) (fuel : ℕ) (h : Heap S) where
  module _ (next : ℕ) (v : PageView) (ub : List Cell) (c : Cell) (ua : List Cell)
      (is : IsPage h.pages h.blocks next v) (split : v.used ≡ ub ++ c ∷ ua) where
    pub free-appended :
        NoneBeside c v.free
        → v.addr + 4096 < 2 ^ 64
        → length ub < fuel
        → length v.free < fuel
        → free machine fuel (c.addr + header) h
          ≡ given_back machine v.addr (ub ++ ua) (appended h next v ub c ua is split)
    free-appended beside low used_fuel free_fuel =
        let h1 = unlinked h next v ub c ua is split in
        let x = page_then h next v ub c ua is split in
        let there =
          at-some h1.blocks c.addr (header_of v.addr c ua) (some_freed h next v ub c ua is split)
            (unlinked_cell h next v ub c ua is split) in
        let found =
          at-some h1.pages v.addr x is.some_page (unlinked_page h next v ub c ua is split) in
        let inside = All-append_left (IsInside v.addr) v.free v.used is.inside in
        let not_next =
          NotNext-beside v.addr c v.free low (freed-IsInside h next v ub c ua is split) inside
            beside in
        let whole = unlinked_free h next v ub c ua is split in
        let merged =
          merge_block-last h1 v.addr c ua there fuel (last_slot (page_allocated v.addr) ub)
            (page_free v.addr) v.free free_fuel not_next (read-free h1 v.addr x found) whole in
        let lists = appended-HasLists h next v ub c ua is split in
        free-merged machine fuel h next v ub c ua is split (appended h next v ub c ua is split)
          (record x { free = head_of (v.free ++ c ∷ ua) }) (ub ++ ua) used_fuel
          (merged
            ∙ write-free h1 v.addr c.addr x found v.free []
                (subst (IsChain h1.blocks v.addr) (sym (append-nil v.free)) whole))
          (at-some (appended h next v ub c ua is split).pages v.addr
            (record x { free = head_of (v.free ++ c ∷ ua) }) is.some_page lists.lists_header)
          lists.lists_used

  module _ (vs : List PageView) (held : Held vs) (valid : IsHeap vs h)
      (enough : rounds_of vs < fuel) (low : held.page.addr + 4096 < 2 ^ 64)
      (beside : NoneBeside held.cell held.page.free) where
    are : IsPages h.pages h.blocks (held.before ++ held.page ∷ held.after)
    are = subst (IsPages h.pages h.blocks) held.pages_split valid.pages_are

    is_page : IsPage h.pages h.blocks (head_page held.after) held.page
    is_page = IsPages-one h.pages h.blocks held.before held.page held.after are

    abbrev done : Heap S
    done =
        appended h (head_page held.after) held.page held.used_before held.cell held.used_after
          is_page held.used_split

    freed_so :
        free machine fuel (held.cell.addr + header) h
        ≡ given_back machine held.page.addr (held.used_before ++ held.used_after) done
    freed_so =
        let rounds = rounds-place held.before held.page held.after in
        let total = ap rounds_of held.pages_split in
        free-appended (head_page held.after) held.page held.used_before held.cell held.used_after
          is_page held.used_split beside low
          (omega (
            arith,
            enough,
            rounds,
            total,
            ap (length {0}) held.used_split,
            length-append held.used_before (held.cell ∷ held.used_after),
          ))
          (omega (arith, enough, rounds, total))

    -- On a heap whose lists of headers are whole and whose blocks do not overlap, for an allocated
    -- block that no free block of its page ends at or begins behind, in a page that ends within the
    -- 64 bits of an address, and with more fuel than there are pages and blocks: free leaves the
    -- block as the last free one, but with all allocated blocks behind it that were behind it
    -- before: these are then in the list of free blocks and in that of the allocated ones.
    pub free-HasLists :
        (h' : Heap S) × (free machine fuel (held.cell.addr + header) h
          ≡ given_back machine held.page.addr (held.used_before ++ held.used_after) h')
        × HasLists
            (head_page held.after)
            held.page.addr
            (held.page.free ++ held.cell ∷ held.used_after)
            (held.used_before ++ held.used_after)
            h'
    free-HasLists = (
      done,
      freed_so,
      appended-HasLists h (head_page held.after) held.page held.used_before held.cell
          held.used_after is_page held.used_split,
    )

    -- On a heap whose lists of headers are whole and whose blocks do not overlap, for the last
    -- allocated block of a page, which no free block of the page ends at or begins behind, where
    -- the page ends within the 64 bits of an address, and with more fuel than there are pages and
    -- blocks: free takes the block out of the allocated ones and leaves it as the last free one,
    -- and the heap is again whole. If the page has no allocated block left, then it has gone to
    -- free_pages, and is still in the list of pages.
    pub free-IsReturned :
        held.used_after ≡ []
        → (h' : Heap S) × (free machine fuel (held.cell.addr + header) h
            ≡ given_back machine held.page.addr held.used_before h')
          × IsHeap
              (held.before
                ++ with_lists held.page (held.page.free ++ held.cell ∷ []) held.used_before
                  ∷ held.after)
              h'
    free-IsReturned last =
        let v = held.page in
        let next = head_page held.after in
        let ub = held.used_before in
        let ua = held.used_after in
        let new_free = v.free ++ held.cell ∷ [] in
        let only : ub ++ ua ≡ ub = rw last (append-nil ub) in
        (
          done,
          freed_so ∙ ap (λ us. given_back machine v.addr us done) only,
          record {
            root_is =
                valid.root_is
                ∙ (ap head_page held.pages_split
                    ∙ head_page-with_lists held.before v held.after new_free ub);
            pages_are =
                IsPages-change h.pages done.pages h.blocks done.blocks v new_free ub held.after
                  (appended-IsSamePage h next v ub held.cell ua is_page held.used_split) held.before
                  (appended-IsPage h next v ub held.cell ua is_page held.used_split last) are;
          },
        )
