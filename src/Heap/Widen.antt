-- ===== src/Heap/Widen.antt =====
-- A freed block joins the free one in front of it: the first case of the loop of free in heap.c.
use gapxos.Base.{
  ℕ, ◌+◌, ◌≡◌, refl, ap, subst, arith, List, [], ◌∷◌, ◌++◌, All, All-imp, All-append,
  All-append_left, All-append_right, append_assoc, ◌∙◌,
}
use gapxos.Heap.{Heap, header, store_block}
use gapxos.Heap.Chain.{
  Cell, head_of, header_of, IsChain, IsSame, IsChain-frame, IsChain-resize, head_of-resize,
}
use gapxos.Heap.Apart.{IsApart, Apart, Apart-before, Apart-after, IsApart-replace}
use gapxos.Heap.Pages.{PageView, IsPage, IsInside, Far, IsSamePage, with_lists}
use gapxos.Heap.Unlink.{
  unlinked, unlinked_free, unlinked_used, unlinked_page, unlinked-IsSamePage, freed-Apart,
  freed-IsInside, left-IsApart, left-IsInside,
}

-- Both blocks in one.
abbrev pub wide : Cell → Cell → Cell
wide d c = record { addr = d.addr; length = d.length + (c.length + header) }

module _ {S : Type 0} (h : Heap S) (next : ℕ) (v : PageView) (ub : List Cell) (c : Cell)
    (ua : List Cell) (is : IsPage h.pages h.blocks next v) (split : v.used ≡ ub ++ c ∷ ua)
    (fb : List Cell) (d : Cell) (fa : List Cell) (free_split : v.free ≡ fb ++ d ∷ fa)
    (touches : d.addr + header + d.length ≡ c.addr) where
  abbrev left : List Cell
  left = ub ++ ua

  regroup : v.free ++ left ≡ fb ++ d ∷ (fa ++ left)
  regroup = rw (free_split, append_assoc) refl

  inside : All (IsInside v.addr) (fb ++ d ∷ (fa ++ left))
  inside = subst (All (IsInside v.addr)) regroup (left-IsInside h next v ub c ua is split)

  pub front-IsInside : IsInside v.addr d
  front-IsInside = (All-append_right (IsInside v.addr) fb (d ∷ (fa ++ left)) inside).0

  pub before-IsInside : All (IsInside v.addr) fb
  before-IsInside = All-append_left (IsInside v.addr) fb (d ∷ (fa ++ left)) inside

  apart : IsApart (fb ++ d ∷ (fa ++ left))
  apart = subst IsApart regroup (left-IsApart h next v ub c ua is split)

  freed : All (Apart c) (fb ++ d ∷ (fa ++ left))
  freed = subst (All (Apart c)) regroup (freed-Apart h next v ub c ua is split)

  pub freed_before : All (Apart c) fb
  freed_before = All-append_left (Apart c) fb (d ∷ (fa ++ left)) freed

  pub front_before : All (Apart d) fb
  front_before = Apart-before fb d (fa ++ left) apart

  abbrev pub widened : Heap S
  widened = store_block d.addr (header_of v.addr (wide d c) fa) (unlinked h next v ub c ua is split)

  abbrev pub new_free : List Cell
  new_free = fb ++ wide d c ∷ fa

  wide-Apart : (es : List Cell) → All (Apart c) es → All (Apart d) es → All (Apart (wide d c)) es
  wide-Apart [] ac ad = tt
  wide-Apart (e ∷ es) ac ad = (ground (arith, ac.0, ad.0, touches), wide-Apart es ac.1 ad.1)

  new-IsApart : IsApart (new_free ++ left)
  new-IsApart = rw append_assoc (
      IsApart-replace fb d (wide d c) (fa ++ left) (wide-Apart fb freed_before front_before)
        (wide-Apart (fa ++ left) (All-append_right (Apart c) fb (d ∷ (fa ++ left)) freed).1
          (Apart-after fb d (fa ++ left) apart))
        apart)

  new-IsInside : All (IsInside v.addr) (new_free ++ left)
  new-IsInside =
      let rest = All-append_right (IsInside v.addr) fb (d ∷ (fa ++ left)) inside in
      let end = freed-IsInside h next v ub c ua is split in
      rw append_assoc (
        All-append (IsInside v.addr) fb (wide d c ∷ (fa ++ left))
          (All-append_left (IsInside v.addr) fb (d ∷ (fa ++ left)) inside)
          ((rest.0.0, omega (arith, end.1, touches)), rest.1))

  same :
      (e : Cell) → Apart d e → IsSame (unlinked h next v ub c ua is split).blocks widened.blocks e
  same e a = ground arith

  IsSame-cells :
      (es : List Cell)
      → All (Apart d) es
      → All (IsSame (unlinked h next v ub c ua is split).blocks widened.blocks) es
  IsSame-cells es a =
      All-imp (Apart d) (IsSame (unlinked h next v ub c ua is split).blocks widened.blocks) same es
        a

  pub widened-IsPage : IsPage widened.pages widened.blocks next (with_lists v new_free left)
  widened-IsPage = record {
    some_page = is.some_page;
    page_header =
        rw
          (
            unlinked_page h next v ub c ua is split,
            ap head_of free_split,
            head_of-resize fb d (wide d c).length fa,
          )
          refl;
    free_chain =
        IsChain-resize (unlinked h next v ub c ua is split).blocks widened.blocks v.addr fb d fa
          (wide d c).length (IsSame-cells fb front_before)
          (IsSame-cells fa
            (All-append_left (Apart d) fa left (Apart-after fb d (fa ++ left) apart)))
          (ground arith)
          (subst (IsChain (unlinked h next v ub c ua is split).blocks v.addr) free_split
            (unlinked_free h next v ub c ua is split));
    used_chain =
        IsChain-frame (unlinked h next v ub c ua is split).blocks widened.blocks v.addr left
          (IsSame-cells left
            (All-append_right (Apart d) fa left (Apart-after fb d (fa ++ left) apart)))
          (unlinked_used h next v ub c ua is split);
    inside = new-IsInside;
    apart = new-IsApart;
  }

  pub widened-IsSamePage :
      (w : PageView) → Far v w → IsSamePage h.pages widened.pages h.blocks widened.blocks w.addr
  widened-IsSamePage w far =
      let same_page = unlinked-IsSamePage h next v ub c ua is split w far in
      record {
        same_header = same_page.same_header;
        same_blocks =
            λ i low high. ground (arith, front-IsInside) ∙ same_page.same_blocks i low high;
      }
