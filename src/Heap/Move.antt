-- ===== src/Heap/Move.antt =====
-- A free block is given out whole: the second branch of malloc in heap.c.
use gapxos.Base.{
  ℕ, ◌+◌, ◌<◌, ◌≡◌, ◌≢◌, refl, sym, ap, subst, arith, some, List, [], ◌∷◌, ◌++◌, All, All-imp,
  All-append, All-append_left, All-append_right, length, append_assoc, append-nil, ◌∙◌,
}
use gapxos.Heap.{
  Page, Heap, page_allocated, page_free, block_next, header, store_block, at, write, find_slot,
  move_block,
}
use gapxos.Heap.Chain.{
  Cell, head_of, header_of, IsChain, IsSame, IsChain-frame, IsChain-right, at-some, last_slot,
  find_slot-end, find_slot-cell,
}
use gapxos.Heap.Apart.{
  IsApart, Apart, Apart-before, Apart-after, Apart-parts, Apart-parts_back, IsApart-left,
  IsApart-right, IsApart-remove, IsApart-snoc, ne_of_Apart,
}
use gapxos.Heap.Link.{
  link, link_page, link_free, link-other, link-IsChain, link-IsChain_other, link-IsChain_remove,
  link_page-other, link_free-other, link_free-head, head_of-snoc, write-allocated, write-free,
}
use gapxos.Heap.Pages.{PageView, IsPage, IsInside, Far, ne_of_Far, IsSamePage}
use gapxos.Heap.Search.{at-page, read-allocated, read-free}

module _ {S : Type 0} (h : Heap S) (next : ℕ) (v : PageView) (fb : List Cell) (c : Cell)
    (fa : List Cell) (is : IsPage h.pages h.blocks next v) (split : v.free ≡ fb ++ c ∷ fa) where
  abbrev pub others : List Cell
  others = fa ++ v.used

  regroup : v.free ++ v.used ≡ fb ++ c ∷ others
  regroup = rw (split, append_assoc) refl

  apart : IsApart (fb ++ c ∷ others)
  apart = subst IsApart regroup is.apart

  inside : All (IsInside v.addr) (fb ++ c ∷ others)
  inside = subst (All (IsInside v.addr)) regroup is.inside

  abbrev pub new_free : List Cell
  new_free = fb ++ fa

  abbrev pub new_used : List Cell
  new_used = v.used ++ c ∷ []

  regroup_new : new_free ++ new_used ≡ (fb ++ others) ++ c ∷ []
  regroup_new = simp append_assoc

  new-IsApart : IsApart (new_free ++ new_used)
  new-IsApart = subst IsApart (sym regroup_new) (
      IsApart-snoc (fb ++ others) c
        (All-append (Apart c) fb others (Apart-before fb c others apart)
          (Apart-after fb c others apart))
        (IsApart-remove fb c others apart))

  new-IsInside : All (IsInside v.addr) (new_free ++ new_used)
  new-IsInside =
      let rest = All-append_right (IsInside v.addr) fb (c ∷ others) inside in
      subst (All (IsInside v.addr)) (sym regroup_new) (
        All-append (IsInside v.addr) (fb ++ others) (c ∷ [])
          (All-append (IsInside v.addr) fb others
            (All-append_left (IsInside v.addr) fb (c ∷ others) inside) rest.1)
          (rest.0, tt))

  chain : IsChain h.blocks v.addr (fb ++ c ∷ fa)
  chain = subst (IsChain h.blocks v.addr) split is.free_chain

  free-IsApart : IsApart (fb ++ c ∷ fa)
  free-IsApart = subst IsApart split (IsApart-left v.free v.used is.apart)

  abbrev pub page_of : Page
  page_of = record { next = next; free = head_of v.free; allocated = head_of v.used }

  -- The heap when the block is out of its list.
  abbrev pub taken : Heap S
  taken = record h {
    blocks = link h.blocks v.addr fb (head_of fa);
    pages = link_free h.pages v.addr page_of fb (head_of fa);
  }

  abbrev pub ended : Heap S
  ended = store_block c.addr (header_of v.addr c []) taken

  abbrev pub page_then : Page
  page_then = record page_of { free = head_of new_free }

  abbrev pub moved : Heap S
  moved = record ended {
    blocks = link ended.blocks v.addr v.used c.addr;
    pages = link_page ended.pages v.addr page_then v.used c.addr;
  }

  -- The allocated blocks are apart from those in front of the cell.
  used_apart : All (λ u. All (Apart u) fb) v.used
  used_apart =
      All-imp (λ u. All (Apart u) v.free) (λ u. All (Apart u) fb)
        (λ u a. All-append_left (Apart u) fb (c ∷ fa) (subst (All (Apart u)) split a)) v.used
        (Apart-parts_back v.free v.used is.apart)

  -- Cells apart from the one that moves keep their headers when its own is written.
  ended-frame :
      (cs : List Cell)
      → All (Apart c) cs
      → IsChain taken.blocks v.addr cs
      → IsChain ended.blocks v.addr cs
  ended-frame cs a was =
      IsChain-frame taken.blocks ended.blocks v.addr cs
        (All-imp (Apart c) (IsSame taken.blocks ended.blocks) (λ d e. ground arith) cs a) was

  ended_free : IsChain ended.blocks v.addr new_free
  ended_free =
      ended-frame new_free
        (All-append (Apart c) fb fa (Apart-before fb c fa free-IsApart)
          (Apart-after fb c fa free-IsApart))
        (link-IsChain_remove h.blocks v.addr fb c fa free-IsApart chain)

  ended_used : IsChain ended.blocks v.addr v.used
  ended_used =
      ended-frame v.used (All-append_right (Apart c) fa v.used (Apart-after fb c others apart))
        (link-IsChain_other h.blocks v.addr fb (head_of fa) v.used used_apart is.used_chain)

  there_then : ended.pages v.addr ≡ some page_then
  there_then = link_free-head h.pages v.addr page_of fb c fa (ap head_of split) is.page_header

  pub moved-IsPage :
      IsPage moved.pages moved.blocks next
        (record { addr = v.addr; free = new_free; used = new_used })
  moved-IsPage = record {
    some_page = is.some_page;
    page_header = rw (head_of-snoc ended.pages v.addr page_then v.used c refl there_then) refl;
    free_chain =
        link-IsChain_other ended.blocks v.addr v.used c.addr new_free
          (All-imp (λ d. All (Apart d) new_used) (λ d. All (Apart d) v.used)
            (λ d a. All-append_left (Apart d) v.used (c ∷ []) a) new_free
            (Apart-parts new_free new_used new-IsApart))
          ended_free;
    used_chain =
        link-IsChain ended.blocks v.addr v.used c
          (IsChain-right h.blocks v.addr fb (c ∷ fa) chain).0 (ground arith)
          (All-imp (Apart c) (λ u. u.addr ≢ c.addr) (λ u a. ne_of_Apart c u a) v.used
            (All-append_right (Apart c) fa v.used (Apart-after fb c others apart)))
          (IsApart-right v.free v.used is.apart) ended_used;
    inside = new-IsInside;
    apart = new-IsApart;
  }

  pub moved-IsSamePage :
      (w : PageView) → Far v w → IsSamePage h.pages moved.pages h.blocks moved.blocks w.addr
  moved-IsSamePage w far = record {
    same_header =
        link_page-other ended.pages v.addr page_then v.used c.addr w.addr (ground arith)
        ∙ link_free-other h.pages v.addr page_of fb (head_of fa) w.addr (ground arith);
    same_blocks = λ i low high.
        let there = All-append_right (IsInside v.addr) fb (c ∷ others) inside in
        link-other ended.blocks v.addr v.used c.addr i (
          ne_of_Far v w v.used i far low high
            (All-append_right (IsInside v.addr) v.free v.used is.inside))
        ∙ (ground (arith, there.0)
            ∙ link-other h.blocks v.addr fb (head_of fa) i (
                ne_of_Far v w fb i far low high
                  (All-append_left (IsInside v.addr) fb (c ∷ others) inside)));
  }

  pub move_block_lem :
      (fuel : ℕ)
      → length v.used < fuel
      → length fb < fuel
      → move_block fuel c.addr (header_of v.addr c fa) h ≡ some (c.addr + header, moved)
  unfolding move_block write
  move_block_lem fuel enough enough' =
      let found = at-page h next v is in
      let parent : find_slot fuel c.addr (page_free v.addr) h
          ≡ some (last_slot (page_free v.addr) fb) =
        find_slot-cell h v.addr fuel (page_free v.addr) fb c fa enough'
          (All-imp (Apart c) (λ b. b.addr ≢ c.addr) (λ b a. ne_of_Apart c b a) fb
            (Apart-before fb c fa free-IsApart))
          (rw (read-free h v.addr page_of found) (ap (λ cs. some (head_of cs)) split)) chain in
      let out = write-free h v.addr (head_of fa) page_of found fb (c ∷ fa) chain in
      let own = IsChain-right h.blocks v.addr fb (c ∷ fa) chain in
      let clear_at : at taken.blocks c.addr ≡ some (header_of v.addr c fa) =
        at-some taken.blocks c.addr (header_of v.addr c fa) own.0 (
          link-other h.blocks v.addr fb (head_of fa) c.addr (
            All-imp (Apart c) (λ b. b.addr ≢ c.addr) (λ b a. ne_of_Apart c b a) fb
              (Apart-before fb c fa free-IsApart))
          ∙ own.1) in
      let clear : write (block_next c.addr) 0 taken ≡ some ended = rw clear_at refl in
      let found_then : at ended.pages v.addr ≡ some page_then =
        at-some ended.pages v.addr page_then is.some_page there_then in
      rw
        (
          parent,
          out,
          clear,
          find_slot-end ended v.addr fuel (page_allocated v.addr) v.used enough
              (read-allocated ended v.addr page_then found_then) ended_used,
          write-allocated ended v.addr c.addr page_then found_then v.used []
              (subst (IsChain ended.blocks v.addr) (sym (append-nil v.used)) ended_used),
        )
        refl
