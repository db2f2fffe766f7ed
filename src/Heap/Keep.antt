-- ===== src/Heap/Keep.antt =====
-- free of heap.c where the first free block begins behind the one that is freed: the second case of
-- the loop of free.
use gapxos.Base.{
  ℕ, zero, suc, ◌+◌, ◌^◌, ◌<◌, ◌≡◌, ◌≢◌, refl, ap, subst, arith, true, false, some, List, [], ◌∷◌,
  ◌++◌, All, All-imp, All-append_left, All-append_right, ◌==◌, length, length-append, ◌∙◌,
}
use gapxos.Pmm.{u64}
use gapxos.Vmm.Manager.{Machine}
use gapxos.Heap.{Heap, page_allocated, page_free, header, store_block, merge_block, free}
use gapxos.Heap.Chain.{
  Cell, head_of, header_of, IsChain, IsSame, IsChain-frame, IsChain-resize, IsChain-right,
  head_of-resize, at-some, at-cell, last_slot,
}
use gapxos.Heap.Apart.{IsApart, Apart, Apart-parts, IsApart-right}
use gapxos.Heap.Link.{
  link, link_page, link-IsChain_append, link-IsChain_other, link_page-append, write-allocated,
}
use gapxos.Heap.Pages.{
  PageView, head_page, IsPage, IsPages, IsPages-one, IsHeap, IsInside, rounds_of,
}
use gapxos.Heap.Search.{read-free}
use gapxos.Heap.Take.{rounds-place}
use gapxos.Heap.Unlink.{
  unlinked, page_then, unlinked_free, unlinked_used, unlinked_page, unlinked_cell, some_freed,
  freed-IsInside, freed-Apart, left-IsApart,
}
use gapxos.Heap.Widen.{wide}
use gapxos.Heap.Append.{HasLists}
use gapxos.Heap.Free.{Held, given_back, free-merged}

==-ne : (a b : ℕ) → a ≢ b → (a == b) ≡ false
==-ne a b other = ground arith

==-eq : (a b : ℕ) → a ≡ b → (a == b) ≡ true
==-eq a b same = ground arith

module _ {S : Type 0} (h : Heap S) (next : ℕ) (v : PageView) (ub : List Cell) (c : Cell)
    (ua : List Cell) (is : IsPage h.pages h.blocks next v) (split : v.used ≡ ub ++ c ∷ ua)
    (f : Cell) (fa : List Cell) (free_split : v.free ≡ f ∷ fa) where
  abbrev h1 : Heap S
  h1 = unlinked h next v ub c ua is split

  abbrev relinked : Heap S
  relinked = record h1 {
    blocks = link h1.blocks v.addr ub c.addr;
    pages = link_page h1.pages v.addr (page_then h next v ub c ua is split) ub c.addr;
  }

  abbrev pub kept : Heap S
  kept = store_block c.addr (header_of v.addr (wide c f) ua) relinked

  used-IsApart : IsApart (ub ++ c ∷ ua)
  used-IsApart = subst IsApart split (IsApart-right v.free v.used is.apart)

  chain : IsChain relinked.blocks v.addr (ub ++ c ∷ ua)
  chain =
      let all = unlinked_used h next v ub c ua is split in
      link-IsChain_append h1.blocks v.addr ub ua c ua used-IsApart all (
        some_freed h next v ub c ua is split,
        unlinked_cell h next v ub c ua is split,
        IsChain-right h1.blocks v.addr ub ua all,
      )

  same : (e : Cell) → Apart c e → IsSame relinked.blocks kept.blocks e
  same e a = ground arith

  IsSame-cells : (es : List Cell) → All (Apart c) es → All (IsSame relinked.blocks kept.blocks) es
  IsSame-cells es a = All-imp (Apart c) (IsSame relinked.blocks kept.blocks) same es a

  sides : All (Apart c) (v.free ++ (ub ++ ua))
  sides = freed-Apart h next v ub c ua is split

  used_sides : All (Apart c) (ub ++ ua)
  used_sides = All-append_right (Apart c) v.free (ub ++ ua) sides

  free_apart : All (λ f. All (Apart f) ub) v.free
  free_apart =
      All-imp (λ d. All (Apart d) (ub ++ ua)) (λ d. All (Apart d) ub)
        (λ d a. All-append_left (Apart d) ub ua a) v.free
        (Apart-parts v.free (ub ++ ua) (left-IsApart h next v ub c ua is split))

  -- The block is among the allocated ones again, with the length of both; the free ones are as
  -- before.
  pub kept-HasLists : HasLists next v.addr v.free (ub ++ wide c f ∷ ua) kept
  kept-HasLists = record {
    lists_header =
        link_page-append h1.pages v.addr (page_then h next v ub c ua is split) ub c ua refl
          (unlinked_page h next v ub c ua is split)
        ∙ ap (λ n. some (record { next = next; free = head_of v.free; allocated = n }))
            (head_of-resize ub c (wide c f).length ua);
    lists_free =
        IsChain-frame relinked.blocks kept.blocks v.addr v.free
          (IsSame-cells v.free (All-append_left (Apart c) v.free (ub ++ ua) sides))
          (link-IsChain_other h1.blocks v.addr ub c.addr v.free free_apart
            (unlinked_free h next v ub c ua is split));
    lists_used =
        IsChain-resize relinked.blocks kept.blocks v.addr ub c ua (wide c f).length
          (IsSame-cells ub (All-append_left (Apart c) ub ua used_sides))
          (IsSame-cells ua (All-append_right (Apart c) ub ua used_sides)) (ground arith) chain;
  }

  -- The loop stops at the first free block.
  merged :
      (fuel : ℕ)
      → 0 < fuel
      → v.addr + 4096 < 2 ^ 64
      → c.addr + header + c.length ≡ f.addr
      → merge_block fuel c.addr (last_slot (page_allocated v.addr) ub) (page_free v.addr) h1
        ≡ some kept
  unfolding merge_block
  merged zero enough low touches = absurd (omega arith)
  merged (suc fuel) enough low touches =
      let x = page_then h next v ub c ua is split in
      let found =
        at-some h1.pages v.addr x is.some_page (unlinked_page h next v ub c ua is split) in
      let there =
        at-some h1.blocks c.addr (header_of v.addr c ua) (some_freed h next v ub c ua is split)
          (unlinked_cell h next v ub c ua is split) in
      let whole =
        subst (IsChain h1.blocks v.addr) free_split (unlinked_free h next v ub c ua is split) in
      let inside = freed-IsInside h next v ub c ua is split in
      let behind =
        (subst (All (IsInside v.addr)) free_split
          (All-append_left (IsInside v.addr) v.free v.used is.inside)).0 in
      let some_f : (f.addr == 0) ≡ false = ground (arith, whole.0) in
      let front : (u64 (f.addr + header + f.length) == c.addr) ≡ false =
        ==-ne (u64 (f.addr + header + f.length)) c.addr
          (λ e. omega (arith, e, inside.0, behind.1, low, touches)) in
      let here : (u64 (c.addr + header + c.length) == f.addr) ≡ true =
        ==-eq (u64 (c.addr + header + c.length)) f.addr
          (omega (arith, inside.0, behind.1, low, touches)) in
      let again = IsChain-right relinked.blocks v.addr ub (c ∷ ua) chain in
      let again_at = at-some relinked.blocks c.addr (header_of v.addr c ua) again.0 again.1 in
      let sum : u64 (c.length + u64 (f.length + header)) ≡ (wide c f).length =
        omega (arith, inside.0, behind.1, low, touches) in
      rw
        (
          merge_block,
          read-free h1 v.addr x found ∙ ap (λ cs. some (head_of cs)) free_split,
          some_f,
          at-cell h1 v.addr f fa whole,
          there,
          front,
          here,
          write-allocated h1 v.addr c.addr x found ub ua (unlinked_used h next v ub c ua is split),
          again_at,
          sum,
        )
        refl

  kept_back :
      (machine : Machine S) (before : List Cell) (d : Cell) (after : List Cell)
      → given_back machine v.addr (before ++ d ∷ after) kept ≡ some kept
  kept_back machine [] d after = refl
  kept_back machine (b ∷ before) d after = refl

  pub free-kept :
      (machine : Machine S) (fuel : ℕ)
      → length ub < fuel
      → v.addr + 4096 < 2 ^ 64
      → c.addr + header + c.length ≡ f.addr
      → free machine fuel (c.addr + header) h ≡ some kept
  free-kept machine fuel enough low touches =
      let x = record (page_then h next v ub c ua is split) {
        allocated = head_of (ub ++ wide c f ∷ ua);
      } in
      free-merged machine fuel h next v ub c ua is split kept x (ub ++ wide c f ∷ ua) enough
        (merged fuel (omega (arith, enough)) low touches)
        (at-some kept.pages v.addr x is.some_page kept-HasLists.lists_header)
        kept-HasLists.lists_used
      ∙ kept_back machine ub (wide c f) ua

-- On a heap whose lists of headers are whole and whose blocks do not overlap, for an allocated
-- block behind which the first free block of its page begins, in a page that ends within the 64
-- bits of an address, and with more fuel than there are pages and blocks: free does not take the
-- block out of the allocated ones, where it has now the length of both, and leaves the free ones
-- as they are: the two blocks overlap.
pub free-IsKept :
    {S : Type 0}
    → (machine : Machine S) (fuel : ℕ) (h : Heap S) (vs : List PageView) (held : Held vs) (f : Cell)
      (fa : List Cell)
    → IsHeap vs h
    → rounds_of vs < fuel
    → held.page.addr + 4096 < 2 ^ 64
    → held.page.free ≡ f ∷ fa
    → held.cell.addr + header + held.cell.length ≡ f.addr
    → (h' : Heap S) × (free machine fuel (held.cell.addr + header) h ≡ some h')
      × HasLists
          (head_page held.after)
          held.page.addr
          (f ∷ fa)
          (held.used_before ++ wide held.cell f ∷ held.used_after)
          h'
      × (¬ Apart (wide held.cell f) f)
free-IsKept machine fuel h vs held f fa valid enough low free_split touches =
    let v = held.page in
    let next = head_page held.after in
    let are = subst (IsPages h.pages h.blocks) held.pages_split valid.pages_are in
    let is = IsPages-one h.pages h.blocks held.before v held.after are in
    let rounds = rounds-place held.before v held.after in
    let used_fuel : length held.used_before < fuel = omega (
      arith,
      enough,
      rounds,
      ap rounds_of held.pages_split,
      ap (length {0}) held.used_split,
      length-append held.used_before (held.cell ∷ held.used_after),
    ) in
    (
      kept h next v held.used_before held.cell held.used_after is held.used_split f fa free_split,
      free-kept h next v held.used_before held.cell held.used_after is held.used_split f fa
          free_split machine fuel used_fuel low touches,
      subst
          (λ fs. HasLists next v.addr fs (held.used_before ++ wide held.cell f ∷ held.used_after) (
            kept h next v held.used_before held.cell held.used_after is held.used_split f fa
              free_split))
          free_split
          (kept-HasLists h next v held.used_before held.cell held.used_after is held.used_split f fa
            free_split),
      ground (arith, touches),
    )
