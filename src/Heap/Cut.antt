-- ===== src/Heap/Cut.antt =====
-- A block is cut from the end of a free one: the first branch of malloc in heap.c.
use gapxos.Base.{
  ℕ, ◌+◌, ◌-◌, ◌<◌, ◌≡◌, ◌≢◌, refl, sym, ap, subst, arith, some, List, [], ◌∷◌, ◌++◌, All, All-imp,
  All-append, All-append_left, All-append_right, length, append_assoc, append-nil, ◌∙◌,
}
use gapxos.Pmm.{u64}
use gapxos.Heap.{Page, Heap, page_allocated, header, store_block, cut_block}
use gapxos.Heap.Chain.{
  Cell, head_of, header_of, IsChain, IsSame, IsChain-frame, IsChain-resize, head_of-resize,
  find_slot-end,
}
use gapxos.Heap.Apart.{
  IsApart, Apart, Apart-before, Apart-after, Apart-parts, IsApart-right, IsApart-replace,
  IsApart-snoc, ne_of_Apart,
}
use gapxos.Heap.Link.{
  link, link_page, link-other, link-IsChain, link-IsChain_other, link_page-other, head_of-snoc,
  write-allocated,
}
use gapxos.Heap.Pages.{PageView, IsPage, IsInside, Far, ne_of_Far, IsSamePage}
use gapxos.Heap.Search.{at-page, read-allocated}

-- The cell that is left, and the one that is given out.
abbrev pub rest_of : ℕ → Cell → Cell
rest_of size c = record { addr = c.addr; length = c.length - (size + header) }

abbrev pub given_of : ℕ → Cell → Cell
given_of size c = record { addr = c.addr + c.length - size; length = size }

module _ {S : Type 0} (h : Heap S) (size next : ℕ) (v : PageView) (fb : List Cell) (c : Cell)
    (fa : List Cell) (is : IsPage h.pages h.blocks next v) (split : v.free ≡ fb ++ c ∷ fa)
    (fits : size + header < c.length) where
  abbrev pub others : List Cell
  others = fa ++ v.used

  -- The cells of the page around the one that is cut.
  regroup : v.free ++ v.used ≡ fb ++ c ∷ others
  regroup = rw (split, append_assoc) refl

  apart : IsApart (fb ++ c ∷ others)
  apart = subst IsApart regroup is.apart

  inside : All (IsInside v.addr) (fb ++ c ∷ others)
  inside = subst (All (IsInside v.addr)) regroup is.inside

  cell-IsInside : IsInside v.addr c
  cell-IsInside = (All-append_right (IsInside v.addr) fb (c ∷ others) inside).0

  -- What is apart from the cell is apart from both pieces.
  pieces : (d : Cell) → Apart c d → Apart (rest_of size c) d × Apart (given_of size c) d
  pieces d a = ground arith

  abbrev sides :
      (e : Cell) → ((d : Cell) → Apart c d → Apart e d) → All (Apart e) fb × All (Apart e) others
  sides e f = (
    All-imp (Apart c) (Apart e) f fb (Apart-before fb c others apart),
    All-imp (Apart c) (Apart e) f others (Apart-after fb c others apart),
  )

  abbrev pub new_free : List Cell
  new_free = fb ++ rest_of size c ∷ fa

  abbrev pub new_used : List Cell
  new_used = v.used ++ given_of size c ∷ []

  regroup_new : new_free ++ new_used ≡ (fb ++ rest_of size c ∷ others) ++ given_of size c ∷ []
  regroup_new = simp append_assoc

  new-IsApart : IsApart (new_free ++ new_used)
  new-IsApart =
      let (rb, ra) = sides (rest_of size c) (λ d a. (pieces d a).0) in
      let (gb, ga) = sides (given_of size c) (λ d a. (pieces d a).1) in
      subst IsApart (sym regroup_new) (
        IsApart-snoc (fb ++ rest_of size c ∷ others) (given_of size c)
          (All-append (Apart (given_of size c)) fb (rest_of size c ∷ others) gb (ground arith, ga))
          (IsApart-replace fb c (rest_of size c) others rb ra apart))

  new-IsInside : All (IsInside v.addr) (new_free ++ new_used)
  new-IsInside = subst (All (IsInside v.addr)) (sym regroup_new) (
      All-append (IsInside v.addr) (fb ++ rest_of size c ∷ others) (given_of size c ∷ [])
        (All-append (IsInside v.addr) fb (rest_of size c ∷ others)
          (All-append_left (IsInside v.addr) fb (c ∷ others) inside)
          (
            omega (arith, cell-IsInside, fits),
            (All-append_right (IsInside v.addr) fb (c ∷ others) inside).1,
          ))
        (omega (arith, cell-IsInside, fits), tt))

  -- The headers behind the two writes that come before the search for the end.
  abbrev pub cut : Heap S
  cut = store_block (given_of size c).addr (header_of v.addr (given_of size c) []) (
      store_block c.addr
        (record { next = head_of fa; pghdr = v.addr; length = (rest_of size c).length }) h)

  IsSame-cut : (d : Cell) → Apart c d → IsSame h.blocks cut.blocks d
  IsSame-cut d a = ground arith

  cut_free : IsChain cut.blocks v.addr new_free
  cut_free =
      IsChain-resize h.blocks cut.blocks v.addr fb c fa (rest_of size c).length
        (All-imp (Apart c) (IsSame h.blocks cut.blocks) IsSame-cut fb
          (Apart-before fb c others apart))
        (All-append_left (IsSame h.blocks cut.blocks) fa v.used (
          All-imp (Apart c) (IsSame h.blocks cut.blocks) IsSame-cut others
            (Apart-after fb c others apart)))
        (ground arith) (subst (IsChain h.blocks v.addr) split is.free_chain)

  cut_used : IsChain cut.blocks v.addr v.used
  cut_used =
      IsChain-frame h.blocks cut.blocks v.addr v.used
        (All-append_right (IsSame h.blocks cut.blocks) fa v.used (
          All-imp (Apart c) (IsSame h.blocks cut.blocks) IsSame-cut others
            (Apart-after fb c others apart)))
        is.used_chain

  abbrev pub page_of : Page
  page_of = record { next = next; free = head_of v.free; allocated = head_of v.used }

  abbrev pub cut_done : Heap S
  cut_done = record cut {
    blocks = link cut.blocks v.addr v.used (given_of size c).addr;
    pages = link_page h.pages v.addr page_of v.used (given_of size c).addr;
  }

  head_new : head_of v.free ≡ head_of new_free
  head_new = ap head_of split ∙ head_of-resize fb c (rest_of size c).length fa

  given_apart : All (λ u. u.addr ≢ (given_of size c).addr) v.used
  given_apart =
      All-imp (Apart (given_of size c)) (λ u. u.addr ≢ (given_of size c).addr)
        (λ u a. ne_of_Apart (given_of size c) u a) v.used
        (All-append_right (Apart (given_of size c)) fa v.used
          (sides (given_of size c) (λ d a. (pieces d a).1)).1)

  pub cut-IsPage :
      IsPage cut_done.pages cut_done.blocks next
        (record { addr = v.addr; free = new_free; used = new_used })
  cut-IsPage = record {
    some_page = is.some_page;
    page_header =
        rw
          (
            head_of-snoc h.pages v.addr page_of v.used (given_of size c) refl is.page_header,
            ← head_new,
          )
          refl;
    free_chain =
        link-IsChain_other cut.blocks v.addr v.used (given_of size c).addr new_free
          (All-imp (λ d. All (Apart d) new_used) (λ d. All (Apart d) v.used)
            (λ d a. All-append_left (Apart d) v.used (given_of size c ∷ []) a) new_free
            (Apart-parts new_free new_used new-IsApart))
          cut_free;
    used_chain =
        link-IsChain cut.blocks v.addr v.used (given_of size c) (omega (arith, cell-IsInside, fits))
          (ground arith) given_apart (IsApart-right v.free v.used is.apart) cut_used;
    inside = new-IsInside;
    apart = new-IsApart;
  }

  -- A page far from this one is not touched.
  pub cut-IsSamePage :
      (w : PageView) → Far v w → IsSamePage h.pages cut_done.pages h.blocks cut_done.blocks w.addr
  cut-IsSamePage w far = record {
    same_header =
        link_page-other h.pages v.addr page_of v.used (given_of size c).addr w.addr (ground arith);
    same_blocks = λ i low high.
        let outside =
          ne_of_Far v w v.used i far low high
            (All-append_right (IsInside v.addr) v.free v.used is.inside) in
        link-other cut.blocks v.addr v.used (given_of size c).addr i outside
        ∙ ground (arith, cell-IsInside, fits);
  }

  -- What the first branch of malloc does.
  pub cut_block_lem :
      (fuel : ℕ)
      → length v.used < fuel
      → cut_block fuel size c.addr (header_of v.addr c fa) h
        ≡ some ((given_of size c).addr + header, cut_done)
  unfolding cut_block
  cut_block_lem fuel enough =
      let low : u64 (size + header) ≡ size + header = omega (arith, cell-IsInside, fits) in
      let there : c.addr + header + (c.length - (size + header)) ≡ (given_of size c).addr =
        omega (arith, fits) in
      let found = at-page h next v is in
      rw
        (
          low,
          there,
          find_slot-end cut v.addr fuel (page_allocated v.addr) v.used enough
              (read-allocated cut v.addr page_of found) cut_used,
          write-allocated cut v.addr (given_of size c).addr page_of found v.used []
              (subst (IsChain cut.blocks v.addr) (sym (append-nil v.used)) cut_used),
        )
        refl
