-- ===== src/Heap/Unlink.antt =====
-- An allocated block is taken out of its list: the first loop of free in heap.c.
use gapxos.Base.{
  ℕ, ◌<◌, ◌≡◌, ◌≢◌, refl, ap, subst, arith, some, List, ◌∷◌, ◌++◌, All, All-imp, All-append,
  All-append_left, All-append_right, length, append_assoc, ◌∙◌,
}
use gapxos.Heap.{Page, Heap, page_allocated, at, find_slot, write}
use gapxos.Heap.Chain.{
  Cell, head_of, header_of, IsChain, IsChain-right, at-some, last_slot, find_slot-cell,
}
use gapxos.Heap.Apart.{
  IsApart, Apart, Apart-before, Apart-after, Apart-parts, IsApart-right, IsApart-remove,
  ne_of_Apart,
}
use gapxos.Heap.Link.{
  link, link_page, link-other, link-IsChain_other, link-IsChain_remove, link_page-other,
  link_page-head, write-allocated,
}
use gapxos.Heap.Pages.{PageView, IsPage, IsInside, Far, ne_of_Far, IsSamePage}
use gapxos.Heap.Search.{at-page, read-allocated}

module _ {S : Type 0} (h : Heap S) (next : ℕ) (v : PageView) (ub : List Cell) (c : Cell)
    (ua : List Cell) (is : IsPage h.pages h.blocks next v) (split : v.used ≡ ub ++ c ∷ ua) where
  regroup : v.free ++ v.used ≡ (v.free ++ ub) ++ c ∷ ua
  regroup = rw (split, append_assoc) refl

  apart : IsApart ((v.free ++ ub) ++ c ∷ ua)
  apart = subst IsApart regroup is.apart

  inside : All (IsInside v.addr) ((v.free ++ ub) ++ c ∷ ua)
  inside = subst (All (IsInside v.addr)) regroup is.inside

  pub freed-IsInside : IsInside v.addr c
  freed-IsInside = (All-append_right (IsInside v.addr) (v.free ++ ub) (c ∷ ua) inside).0

  -- The other blocks of the page.
  pub left-IsInside : All (IsInside v.addr) (v.free ++ (ub ++ ua))
  left-IsInside = rw (← append_assoc) (
      All-append (IsInside v.addr) (v.free ++ ub) ua
        (All-append_left (IsInside v.addr) (v.free ++ ub) (c ∷ ua) inside)
        (All-append_right (IsInside v.addr) (v.free ++ ub) (c ∷ ua) inside).1)

  pub left-IsApart : IsApart (v.free ++ (ub ++ ua))
  left-IsApart = rw (← append_assoc) (IsApart-remove (v.free ++ ub) c ua apart)

  pub freed-Apart : All (Apart c) (v.free ++ (ub ++ ua))
  freed-Apart = rw (← append_assoc) (
      All-append (Apart c) (v.free ++ ub) ua (Apart-before (v.free ++ ub) c ua apart)
        (Apart-after (v.free ++ ub) c ua apart))

  chain : IsChain h.blocks v.addr (ub ++ c ∷ ua)
  chain = subst (IsChain h.blocks v.addr) split is.used_chain

  used-IsApart : IsApart (ub ++ c ∷ ua)
  used-IsApart = subst IsApart split (IsApart-right v.free v.used is.apart)

  abbrev page_of : Page
  page_of = record { next = next; free = head_of v.free; allocated = head_of v.used }

  abbrev pub unlinked : Heap S
  unlinked = record h {
    blocks = link h.blocks v.addr ub (head_of ua);
    pages = link_page h.pages v.addr page_of ub (head_of ua);
  }

  abbrev pub page_then : Page
  page_then = record { next = next; free = head_of v.free; allocated = head_of (ub ++ ua) }

  not_before : All (λ b. b.addr ≢ c.addr) ub
  not_before =
      All-imp (Apart c) (λ b. b.addr ≢ c.addr) (λ b a. ne_of_Apart c b a) ub
        (Apart-before ub c ua used-IsApart)

  pub unlinked_free : IsChain unlinked.blocks v.addr v.free
  unlinked_free =
      link-IsChain_other h.blocks v.addr ub (head_of ua) v.free
        (All-imp (λ d. All (Apart d) v.used) (λ d. All (Apart d) ub)
          (λ d a. All-append_left (Apart d) ub (c ∷ ua) (subst (All (Apart d)) split a)) v.free
          (Apart-parts v.free v.used is.apart))
        is.free_chain

  pub unlinked_used : IsChain unlinked.blocks v.addr (ub ++ ua)
  unlinked_used = link-IsChain_remove h.blocks v.addr ub c ua used-IsApart chain

  pub unlinked_page : unlinked.pages v.addr ≡ some page_then
  unlinked_page = link_page-head h.pages v.addr page_of ub c ua (ap head_of split) is.page_header

  pub some_freed : c.addr ≢ 0
  some_freed = (IsChain-right h.blocks v.addr ub (c ∷ ua) chain).0

  -- The header of the block is as it was.
  pub freed_at : at h.blocks c.addr ≡ some (header_of v.addr c ua)
  freed_at =
      at-some h.blocks c.addr (header_of v.addr c ua) some_freed
        (IsChain-right h.blocks v.addr ub (c ∷ ua) chain).1

  pub unlinked_cell : unlinked.blocks c.addr ≡ some (header_of v.addr c ua)
  unlinked_cell =
      link-other h.blocks v.addr ub (head_of ua) c.addr not_before
      ∙ (IsChain-right h.blocks v.addr ub (c ∷ ua) chain).1

  -- A page far from this one is not touched.
  pub unlinked-IsSamePage :
      (w : PageView) → Far v w → IsSamePage h.pages unlinked.pages h.blocks unlinked.blocks w.addr
  unlinked-IsSamePage w far = record {
    same_header = link_page-other h.pages v.addr page_of ub (head_of ua) w.addr (ground arith);
    same_blocks = λ i low high. link-other h.blocks v.addr ub (head_of ua) i (
        ne_of_Far v w ub i far low high (
          All-append_left (IsInside v.addr) ub (c ∷ ua) (
            subst (All (IsInside v.addr)) split
              (All-append_right (IsInside v.addr) v.free v.used is.inside))));
  }

  -- The place that the loop finds, and the write there.
  module _ (fuel : ℕ) (enough : length ub < fuel) where
    pub unlink_slot :
        find_slot fuel c.addr (page_allocated v.addr) h
        ≡ some (last_slot (page_allocated v.addr) ub)
    unlink_slot =
        find_slot-cell h v.addr fuel (page_allocated v.addr) ub c ua enough not_before
          (rw (read-allocated h v.addr page_of (at-page h next v is))
            (ap (λ cs. some (head_of cs)) split))
          chain

  pub unlink_write : write (last_slot (page_allocated v.addr) ub) (head_of ua) h ≡ some unlinked
  unlink_write =
      write-allocated h v.addr (head_of ua) page_of (at-page h next v is) ub (c ∷ ua) chain
