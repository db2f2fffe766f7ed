-- ===== src/Heap/Link.antt =====
-- A block is put behind the last one of a list.
use gapxos.Base.{
  ℕ, ◌≡◌, ◌≢◌, refl, arith, Option, some, List, [], ◌∷◌, ◌++◌, All, All-imp, All-append_left,
}
use gapxos.Heap.{Block, Page, Heap, Slot, block_next, page_allocated, page_free, at, write, update}
use gapxos.Heap.Chain.{Cell, head_of, header_of, IsChain, IsSame, IsChain-frame, last_slot, at-cell}
use gapxos.Heap.Apart.{IsApart, Apart, ne_of_Apart}

-- The headers of the blocks, and those of the pages, behind the write.
abbrev pub link : (ℕ → Option Block) → ℕ → List Cell → ℕ → ℕ → Option Block
link blocks page [] n = blocks
link blocks page (c ∷ []) n =
    update blocks c.addr (record { next = n; pghdr = page; length = c.length })
link blocks page (c ∷ (d ∷ cs)) n = link blocks page (d ∷ cs) n

abbrev pub link_page : (ℕ → Option Page) → ℕ → Page → List Cell → ℕ → ℕ → Option Page
link_page pages page x [] n = update pages page (record x { allocated = n })
link_page pages page x (c ∷ cs) n = pages

-- The headers of the pages, where the list is that of the free blocks.
abbrev pub link_free : (ℕ → Option Page) → ℕ → Page → List Cell → ℕ → ℕ → Option Page
link_free pages page x [] n = update pages page (record x { free = n })
link_free pages page x (c ∷ cs) n = pages

pub link-other :
    (blocks : ℕ → Option Block) (page : ℕ) (cs : List Cell) (n i : ℕ)
    → All (λ c. c.addr ≢ i) cs
    → link blocks page cs n i ≡ blocks i
link-other blocks page [] n i others = refl
link-other blocks page (c ∷ []) n i others = ground (arith, others.0)
link-other blocks page (c ∷ (d ∷ cs)) n i others = link-other blocks page (d ∷ cs) n i others.1

pub link-IsChain :
    (blocks : ℕ → Option Block) (page : ℕ) (cs : List Cell) (n : Cell)
    → n.addr ≢ 0
    → blocks n.addr ≡ some (header_of page n [])
    → All (λ c. c.addr ≢ n.addr) cs
    → IsApart cs
    → IsChain blocks page cs
    → IsChain (link blocks page cs n.addr) page (cs ++ n ∷ [])
link-IsChain blocks page [] n some_n new others apart chain = (some_n, new, tt)
link-IsChain blocks page (c ∷ []) n some_n new others apart chain =
    (chain.0, ground arith, (some_n, ground (arith, others.0), tt))
link-IsChain blocks page (c ∷ (d ∷ cs)) n some_n new others apart chain =
    let before : All (λ e. e.addr ≢ c.addr) (d ∷ cs) =
      All-imp (Apart c) (λ e. e.addr ≢ c.addr) (λ e a. ne_of_Apart c e a) (d ∷ cs) apart.0 in
    (
      chain.0,
      rw (link-other blocks page (d ∷ cs) n.addr c.addr before) chain.1,
      link-IsChain blocks page (d ∷ cs) n some_n new others.1 apart.1 chain.2,
    )

-- The write behind a cell of any list, and behind the cells of the two lists of a page.
module _ {S : Type 0} (h : Heap S) (page n : ℕ) where
  pub write-cells :
      (s : Slot) (b : Cell) (before after : List Cell)
      → IsChain h.blocks page (b ∷ (before ++ after))
      → write (last_slot s (b ∷ before)) n h
        ≡ some (record h { blocks = link h.blocks page (b ∷ before) n })
  unfolding write
  write-cells s b [] after chain = rw (at-cell h page b after chain) refl
  write-cells s b (d ∷ before) after chain = write-cells (block_next b.addr) d before after chain.2

  module _ (x : Page) (e : at h.pages page ≡ some x) where
    pub write-allocated :
        (before after : List Cell)
        → IsChain h.blocks page (before ++ after)
        → write (last_slot (page_allocated page) before) n h
          ≡ some (record h {
            blocks = link h.blocks page before n;
            pages = link_page h.pages page x before n;
          })
    unfolding write
    write-allocated [] after chain = rw e refl
    write-allocated (b ∷ before) after chain =
        write-cells (page_allocated page) b before after chain

    pub write-free :
        (before after : List Cell)
        → IsChain h.blocks page (before ++ after)
        → write (last_slot (page_free page) before) n h
          ≡ some (record h {
            blocks = link h.blocks page before n;
            pages = link_free h.pages page x before n;
          })
    unfolding write
    write-free [] after chain = rw e refl
    write-free (b ∷ before) after chain = write-cells (page_free page) b before after chain

pub head_of-snoc :
    (pages : ℕ → Option Page) (page : ℕ) (x : Page) (cs : List Cell) (n : Cell)
    → x.allocated ≡ head_of cs
    → pages page ≡ some x
    → link_page pages page x cs n.addr page ≡ some (record x { allocated = head_of (cs ++ n ∷ []) })
head_of-snoc pages page x [] n e there = ground arith
head_of-snoc pages page x (c ∷ cs) n e there = ground (arith, there, e)

pub link_page-other :
    (pages : ℕ → Option Page) (page : ℕ) (x : Page) (cs : List Cell) (n i : ℕ)
    → i ≢ page
    → link_page pages page x cs n i ≡ pages i
link_page-other pages page x [] n i other = ground arith
link_page-other pages page x (c ∷ cs) n i other = refl

-- The cells of another list are not touched by the write.
pub link-IsChain_other :
    (blocks : ℕ → Option Block) (page : ℕ) (cs : List Cell) (n : ℕ) (ds : List Cell)
    → All (λ d. All (Apart d) cs) ds
    → IsChain blocks page ds
    → IsChain (link blocks page cs n) page ds
link-IsChain_other blocks page cs n ds apart chain =
    IsChain-frame blocks (link blocks page cs n) page ds
      (All-imp (λ d. All (Apart d) cs) (IsSame blocks (link blocks page cs n))
        (λ d a.
          link-other blocks page cs n d.addr
            (All-imp (Apart d) (λ c. c.addr ≢ d.addr) (λ c e. ne_of_Apart d c e) cs a))
        ds apart)
      chain

-- The cells in front of a cell are linked to those behind it.
pub link-IsChain_remove :
    (blocks : ℕ → Option Block) (page : ℕ) (before : List Cell) (c : Cell) (after : List Cell)
    → IsApart (before ++ c ∷ after)
    → IsChain blocks page (before ++ c ∷ after)
    → IsChain (link blocks page before (head_of after)) page (before ++ after)
link-IsChain_remove blocks page [] c after apart chain = chain.2
link-IsChain_remove blocks page (b ∷ []) c after apart chain = (
  chain.0,
  ground arith,
  IsChain-frame blocks (link blocks page (b ∷ []) (head_of after)) page after
      (All-imp (Apart b) (IsSame blocks (link blocks page (b ∷ []) (head_of after)))
        (λ d a. ground arith) after apart.0.1)
      chain.2.2,
)
link-IsChain_remove blocks page (b ∷ (d ∷ before)) c after apart chain =
    let others : All (λ e. e.addr ≢ b.addr) (d ∷ before) =
      All-imp (Apart b) (λ e. e.addr ≢ b.addr) (λ e a. ne_of_Apart b e a) (d ∷ before)
        (All-append_left (Apart b) (d ∷ before) (c ∷ after) apart.0) in
    (
      chain.0,
      rw (link-other blocks page (d ∷ before) (head_of after) b.addr others) chain.1,
      link-IsChain_remove blocks page (d ∷ before) c after apart.1 chain.2,
    )

pub link_free-other :
    (pages : ℕ → Option Page) (page : ℕ) (x : Page) (cs : List Cell) (n i : ℕ)
    → i ≢ page
    → link_free pages page x cs n i ≡ pages i
link_free-other pages page x [] n i other = ground arith
link_free-other pages page x (c ∷ cs) n i other = refl

pub link_free-head :
    (pages : ℕ → Option Page) (page : ℕ) (x : Page) (before : List Cell) (c : Cell)
    (after : List Cell)
    → x.free ≡ head_of (before ++ c ∷ after)
    → pages page ≡ some x
    → link_free pages page x before (head_of after) page
      ≡ some (record x { free = head_of (before ++ after) })
link_free-head pages page x [] c after e there = ground arith
link_free-head pages page x (b ∷ before) c after e there = ground (arith, there, e)

pub link_page-head :
    (pages : ℕ → Option Page) (page : ℕ) (x : Page) (before : List Cell) (c : Cell)
    (after : List Cell)
    → x.allocated ≡ head_of (before ++ c ∷ after)
    → pages page ≡ some x
    → link_page pages page x before (head_of after) page
      ≡ some (record x { allocated = head_of (before ++ after) })
link_page-head pages page x [] c after e there = ground arith
link_page-head pages page x (b ∷ before) c after e there = ground (arith, there, e)

-- A cell that has others behind it is put behind the first cells of a list.
pub link-IsChain_append :
    (blocks : ℕ → Option Block) (page : ℕ) (cs us : List Cell) (n : Cell) (ts : List Cell)
    → IsApart (cs ++ n ∷ ts)
    → IsChain blocks page (cs ++ us)
    → IsChain blocks page (n ∷ ts)
    → IsChain (link blocks page cs n.addr) page (cs ++ n ∷ ts)
link-IsChain_append blocks page [] us n ts apart chain tail = tail
link-IsChain_append blocks page (c ∷ []) us n ts apart chain tail = (
  chain.0,
  ground arith,
  IsChain-frame blocks (link blocks page (c ∷ []) n.addr) page (n ∷ ts)
      (All-imp (Apart c) (IsSame blocks (link blocks page (c ∷ []) n.addr)) (λ d a. ground arith)
        (n ∷ ts) apart.0)
      tail,
)
link-IsChain_append blocks page (c ∷ (d ∷ cs)) us n ts apart chain tail =
    let others : All (λ e. e.addr ≢ c.addr) (d ∷ cs) =
      All-imp (Apart c) (λ e. e.addr ≢ c.addr) (λ e a. ne_of_Apart c e a) (d ∷ cs)
        (All-append_left (Apart c) (d ∷ cs) (n ∷ ts) apart.0) in
    (
      chain.0,
      rw (link-other blocks page (d ∷ cs) n.addr c.addr others) chain.1,
      link-IsChain_append blocks page (d ∷ cs) us n ts apart.1 chain.2 tail,
    )

pub link_free-append :
    (pages : ℕ → Option Page) (page : ℕ) (x : Page) (cs : List Cell) (n : Cell) (ts : List Cell)
    → x.free ≡ head_of cs
    → pages page ≡ some x
    → link_free pages page x cs n.addr page ≡ some (record x { free = head_of (cs ++ n ∷ ts) })
link_free-append pages page x [] n ts e there = ground arith
link_free-append pages page x (c ∷ cs) n ts e there = ground (arith, there, e)

pub link_page-append :
    (pages : ℕ → Option Page) (page : ℕ) (x : Page) (cs : List Cell) (n : Cell) (ts : List Cell)
    → x.allocated ≡ head_of (cs ++ ts)
    → pages page ≡ some x
    → link_page pages page x cs n.addr page ≡ some (record x { allocated = head_of (cs ++ n ∷ ts) })
link_page-append pages page x [] n ts e there = ground arith
link_page-append pages page x (c ∷ cs) n ts e there = ground (arith, there, e)
