-- ===== src/Heap/Append.antt =====
-- A freed block is put behind the free ones: the last case of the loop of free in heap.c.
use gapxos.Base.{
  ℕ, ◌≡◌, refl, sym, subst, arith, some, List, [], ◌∷◌, ◌++◌, All, All-append, All-append_left,
  All-append_right, append_assoc, append-nil, ◌∙◌,
}
use gapxos.Heap.{Heap}
use gapxos.Heap.Chain.{Cell, head_of, IsChain, IsChain-right}
use gapxos.Heap.Apart.{IsApart, Apart, Apart-parts_back, IsApart-drop, IsApart-insert}
use gapxos.Heap.Link.{
  link, link_free, link-other, link-IsChain_other, link-IsChain_append, link_free-other,
  link_free-append,
}
use gapxos.Heap.Pages.{PageView, IsPage, IsInside, Far, ne_of_Far, IsSamePage, with_lists}
use gapxos.Heap.Unlink.{
  unlinked, page_then, unlinked_free, unlinked_used, unlinked_page, unlinked_cell,
  unlinked-IsSamePage, some_freed, freed-Apart, freed-IsInside, left-IsApart, left-IsInside,
}

-- The page has the first list as its free blocks and the second one as its allocated ones; nothing
-- is said of what the two lists share.
pub record HasLists {S : Type 0} (next page : ℕ) (free used : List Cell) (h : Heap S) : Type 0 where
  pub lists_header :
      h.pages page ≡ some (record { next = next; free = head_of free; allocated = head_of used })
  pub lists_free : IsChain h.blocks page free
  pub lists_used : IsChain h.blocks page used

module _ {S : Type 0} (h : Heap S) (next : ℕ) (v : PageView) (ub : List Cell) (c : Cell)
    (ua : List Cell) (is : IsPage h.pages h.blocks next v) (split : v.used ≡ ub ++ c ∷ ua) where
  abbrev h1 : Heap S
  h1 = unlinked h next v ub c ua is split

  abbrev pub appended : Heap S
  appended = record h1 {
    blocks = link h1.blocks v.addr v.free c.addr;
    pages = link_free h1.pages v.addr (page_then h next v ub c ua is split) v.free c.addr;
  }

  free-IsApart : IsApart (v.free ++ c ∷ ua)
  free-IsApart =
      let sides = freed-Apart h next v ub c ua is split in
      let rest = left-IsApart h next v ub c ua is split in
      IsApart-insert v.free c ua
        (All-append (Apart c) v.free ua (All-append_left (Apart c) v.free (ub ++ ua) sides)
          (All-append_right (Apart c) ub ua (All-append_right (Apart c) v.free (ub ++ ua) sides)))
        (IsApart-drop v.free ub ua rest)

  tail : IsChain h1.blocks v.addr (c ∷ ua)
  tail = (
    some_freed h next v ub c ua is split,
    unlinked_cell h next v ub c ua is split,
    IsChain-right h1.blocks v.addr ub ua (unlinked_used h next v ub c ua is split),
  )

  -- The blocks that were behind it in the list of allocated blocks are behind it now, too.
  pub appended-HasLists : HasLists next v.addr (v.free ++ c ∷ ua) (ub ++ ua) appended
  appended-HasLists = record {
    lists_header =
        link_free-append h1.pages v.addr (page_then h next v ub c ua is split) v.free c ua refl
          (unlinked_page h next v ub c ua is split);
    lists_free =
        link-IsChain_append h1.blocks v.addr v.free [] c ua free-IsApart
          (subst (IsChain h1.blocks v.addr) (sym (append-nil v.free))
            (unlinked_free h next v ub c ua is split))
          tail;
    lists_used =
        link-IsChain_other h1.blocks v.addr v.free c.addr (ub ++ ua)
          (Apart-parts_back v.free (ub ++ ua) (left-IsApart h next v ub c ua is split))
          (unlinked_used h next v ub c ua is split);
  }

  pub appended-IsSamePage :
      (w : PageView) → Far v w → IsSamePage h.pages appended.pages h.blocks appended.blocks w.addr
  appended-IsSamePage w far =
      let same_page = unlinked-IsSamePage h next v ub c ua is split w far in
      record {
        same_header =
            link_free-other h1.pages v.addr (page_then h next v ub c ua is split) v.free c.addr
              w.addr (ground arith)
            ∙ same_page.same_header;
        same_blocks = λ i low high.
            link-other h1.blocks v.addr v.free c.addr i (
              ne_of_Far v w v.free i far low high
                (All-append_left (IsInside v.addr) v.free v.used is.inside))
            ∙ same_page.same_blocks i low high;
      }

  -- Where no block was behind it, the page is whole.
  module _ (last : ua ≡ []) where
    alone : ub ++ ua ≡ ub
    alone = rw last (append-nil ub)

    lists_then : HasLists next v.addr (v.free ++ c ∷ []) ub appended
    lists_then =
        subst (λ us. HasLists next v.addr (v.free ++ c ∷ []) us appended) alone
          (subst (λ us. HasLists next v.addr (v.free ++ c ∷ us) (ub ++ ua) appended) last
            appended-HasLists)

    IsInside-then : All (IsInside v.addr) (v.free ++ ub)
    IsInside-then =
        subst (λ us. All (IsInside v.addr) (v.free ++ us)) alone
          (left-IsInside h next v ub c ua is split)

    pub appended-IsPage :
        IsPage appended.pages appended.blocks next (with_lists v (v.free ++ c ∷ []) ub)
    appended-IsPage = record {
      some_page = is.some_page;
      page_header = lists_then.lists_header;
      free_chain = lists_then.lists_free;
      used_chain = lists_then.lists_used;
      inside = rw append_assoc (
          All-append (IsInside v.addr) v.free (c ∷ ub)
            (All-append_left (IsInside v.addr) v.free ub IsInside-then)
            (
              freed-IsInside h next v ub c ua is split,
              All-append_right (IsInside v.addr) v.free ub IsInside-then,
            ));
      apart = rw append_assoc (
          IsApart-insert v.free c ub
            (subst (λ us. All (Apart c) (v.free ++ us)) alone
              (freed-Apart h next v ub c ua is split))
            (subst (λ us. IsApart (v.free ++ us)) alone (left-IsApart h next v ub c ua is split)));
    }
