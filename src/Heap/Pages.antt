-- ===== src/Heap/Pages.antt =====
-- The pages of the heap with their lists of blocks, and what a change in one of them leaves alone.
use gapxos.Base.{
  ℕ, ◌+◌, ◌≤◌, ◌<◌, ◌≡◌, ◌≢◌, refl, subst, arith, Option, some, List, [], ◌∷◌, ◌++◌, All, All-imp,
  All-append, All-append_left, All-append_right, ◌⊎◌, length,
}
use gapxos.Heap.{Block, Page, Heap, header}
use gapxos.Heap.Chain.{Cell, head_of, IsChain, IsSame, IsChain-frame}
use gapxos.Heap.Apart.{IsApart}

-- A page of the heap with its free blocks and its allocated ones, in the order of the lists.
pub record PageView : Type 0 where
  pub addr : ℕ
  pub free : List Cell
  pub used : List Cell

abbrev pub with_lists : PageView → List Cell → List Cell → PageView
with_lists v free used = record { addr = v.addr; free = free; used = used }

abbrev pub head_page : List PageView → ℕ
head_page [] = 0
head_page (v ∷ vs) = v.addr

-- The cell lies in the page, behind its header.
abbrev pub IsInside : ℕ → Cell → Type 0
IsInside p c = (p + header ≤ c.addr) × (c.addr + header + c.length ≤ p + 4096)

pub record IsPage (pages : ℕ → Option Page) (blocks : ℕ → Option Block) (next : ℕ) (v : PageView)
    : Type 0 where
  pub some_page : v.addr ≢ 0
  pub page_header :
      pages v.addr
      ≡ some (record { next = next; free = head_of v.free; allocated = head_of v.used })
  pub free_chain : IsChain blocks v.addr v.free
  pub used_chain : IsChain blocks v.addr v.used
  pub inside : All (IsInside v.addr) (v.free ++ v.used)
  pub apart : IsApart (v.free ++ v.used)

abbrev pub Far : PageView → PageView → Type 0
Far v w = (v.addr + 4096 ≤ w.addr) ⊎ (w.addr + 4096 ≤ v.addr)

abbrev pub IsPages : (ℕ → Option Page) → (ℕ → Option Block) → List PageView → Type 0
IsPages pages blocks [] = Unit {0}
IsPages pages blocks (v ∷ vs) =
    IsPage pages blocks (head_page vs) v × All (Far v) vs × IsPages pages blocks vs

-- An address in a page far away is that of no cell.
pub ne_of_Far :
    (v w : PageView) (cs : List Cell) (i : ℕ)
    → Far v w
    → w.addr ≤ i
    → i < w.addr + 4096
    → All (IsInside v.addr) cs
    → All (λ c. c.addr ≢ i) cs
ne_of_Far v w cs i far low high inside =
    All-imp (IsInside v.addr) (λ c. c.addr ≢ i) (λ c there. ground arith) cs inside

-- The list of pages, its lists of blocks, and nothing that overlaps.
pub record IsHeap {S : Type 0} (vs : List PageView) (h : Heap S) : Type 0 where
  pub root_is : h.heap_root ≡ head_page vs
  pub pages_are : IsPages h.pages h.blocks vs

-- Rounds that are enough for every loop.
abbrev pub rounds_of : List PageView → ℕ
rounds_of [] = 0
rounds_of (v ∷ vs) = length v.free + length v.used + 1 + rounds_of vs

module _ (pages pages' : ℕ → Option Page) (blocks blocks' : ℕ → Option Block) where
  -- Both memories agree on what stands in a page.
  pub record IsSamePage (p : ℕ) : Type 0 where
    pub same_header : pages' p ≡ pages p
    pub same_blocks : (i : ℕ) → p ≤ i → i < p + 4096 → blocks' i ≡ blocks i

  IsSame-inside :
      (p : ℕ) (cs : List Cell) → IsSamePage p → All (IsInside p) cs → All (IsSame blocks blocks') cs
  IsSame-inside p cs same inside =
      All-imp (IsInside p) (IsSame blocks blocks')
        (λ c i. same.same_blocks c.addr (omega (arith, i.0)) (omega (arith, i.1))) cs inside

  pub IsPage-frame :
      (next : ℕ) (v : PageView)
      → IsSamePage v.addr
      → IsPage pages blocks next v
      → IsPage pages' blocks' next v
  IsPage-frame next v same is = record {
    some_page = is.some_page;
    page_header = rw same.same_header is.page_header;
    free_chain =
        IsChain-frame blocks blocks' v.addr v.free
          (IsSame-inside v.addr v.free same
            (All-append_left (IsInside v.addr) v.free v.used is.inside))
          is.free_chain;
    used_chain =
        IsChain-frame blocks blocks' v.addr v.used
          (IsSame-inside v.addr v.used same
            (All-append_right (IsInside v.addr) v.free v.used is.inside))
          is.used_chain;
    inside = is.inside;
    apart = is.apart;
  }

  pub IsPages-frame :
      (vs : List PageView)
      → All (λ w. IsSamePage w.addr) vs
      → IsPages pages blocks vs
      → IsPages pages' blocks' vs
  IsPages-frame [] same are = tt
  IsPages-frame (v ∷ vs) same are =
      (IsPage-frame (head_page vs) v same.0 are.0, are.1, IsPages-frame vs same.1 are.2)

  -- One page changes, the pages far from it do not.
  module _ (v : PageView) (free used : List Cell) (after : List PageView)
      (elsewhere : (w : PageView) → Far v w → IsSamePage w.addr) where
    abbrev changed : PageView
    changed = with_lists v free used

    pub IsPages-change :
        (before : List PageView)
        → IsPage pages' blocks' (head_page after) changed
        → IsPages pages blocks (before ++ v ∷ after)
        → IsPages pages' blocks' (before ++ changed ∷ after)
    IsPages-change [] is are = (
      is,
      are.1,
      IsPages-frame after (All-imp (Far v) (λ w. IsSamePage w.addr) elsewhere after are.1) are.2,
    )
    IsPages-change (b ∷ []) is are = (
      IsPage-frame v.addr b (elsewhere b (ground (arith, are.1.0))) are.0,
      are.1,
      IsPages-change [] is are.2,
    )
    IsPages-change (b ∷ (d ∷ before)) is are =
        let rest = All-append_right (Far b) (d ∷ before) (v ∷ after) are.1 in
        (
          IsPage-frame d.addr b (elsewhere b (ground (arith, rest.0))) are.0,
          All-append (Far b) (d ∷ before) (changed ∷ after)
              (All-append_left (Far b) (d ∷ before) (v ∷ after) are.1) (rest.0, rest.1),
          IsPages-change (d ∷ before) is are.2,
        )

pub IsPages-one :
    (pages : ℕ → Option Page) (blocks : ℕ → Option Block) (before : List PageView) (v : PageView)
    (after : List PageView)
    → IsPages pages blocks (before ++ v ∷ after)
    → IsPage pages blocks (head_page after) v
IsPages-one pages blocks [] v after are = are.0
IsPages-one pages blocks (b ∷ before) v after are = IsPages-one pages blocks before v after are.2

pub head_page-with_lists :
    (before : List PageView) (v : PageView) (after : List PageView) (free used : List Cell)
    → head_page (before ++ v ∷ after) ≡ head_page (before ++ with_lists v free used ∷ after)
head_page-with_lists [] v after free used = refl
head_page-with_lists (b ∷ before) v after free used = refl

-- A cell of a list of free blocks lies in its page.
pub cell-IsInside :
    (v : PageView) (before : List Cell) (c : Cell) (after : List Cell)
    → v.free ≡ before ++ c ∷ after
    → All (IsInside v.addr) (v.free ++ v.used)
    → IsInside v.addr c
cell-IsInside v before c after split inside =
    (All-append_right (IsInside v.addr) before (c ∷ after) (
      subst (All (IsInside v.addr)) split
        (All-append_left (IsInside v.addr) v.free v.used inside))).0
