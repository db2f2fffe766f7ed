-- ===== src/Heap/Take.antt =====
-- malloc of heap.c behind find_free: a block is taken from the free list that it is in.
use gapxos.Base.{
  ℕ, ◌+◌, ◌≤◌, ◌<◌, ◌≡◌, refl, ap, subst, arith, some, List, [], ◌∷◌, ◌++◌, ltb, inl, inr, ◌⊎◌,
  length, length-append, Bool-cases, ◌∙◌,
}
use gapxos.Pmm.{u64}
use gapxos.Heap.{Heap, header, take_block}
use gapxos.Heap.Chain.{Cell, IsChain, IsChain-right, at-cell}
use gapxos.Heap.Cut
use gapxos.Heap.Cut.{rest_of, given_of}
use gapxos.Heap.Move
use gapxos.Heap.Pages.{
  PageView, head_page, IsPages, IsPages-one, IsPages-change, IsHeap, rounds_of, with_lists,
  head_page-with_lists, cell-IsInside,
}

-- Where a block stands among the pages.
pub record Place (vs : List PageView) : Type 0 where
  pub before : List PageView
  pub page : PageView
  pub after : List PageView
  pub free_before : List Cell
  pub cell : Cell
  pub free_after : List Cell
  pub pages_split : vs ≡ before ++ page ∷ after
  pub free_split : page.free ≡ free_before ++ cell ∷ free_after

-- A cell is given out, with memory of the free block alone; the rest of that block, if there is
-- one, takes its place among the free blocks.
pub record IsTaken (size : ℕ) (vs : List PageView) (place : Place vs) (vs' : List PageView) (r : ℕ)
    : Type 0 where
  pub given : Cell
  pub left : List Cell
  pub address : r ≡ given.addr + header
  pub enough : size ≤ given.length
  pub parts :
      ((left ≡ []) × (given ≡ place.cell) × (place.cell.length ≤ size + header))
      ⊎ ((left ≡ rest_of size place.cell ∷ [])
          × (given ≡ given_of size place.cell)
          × (size + header < place.cell.length))
  pub within :
      (place.cell.addr ≤ given.addr)
      × (given.addr + given.length ≤ place.cell.addr + place.cell.length)
  pub pages_then :
      vs'
      ≡ place.before
        ++ (record {
          addr = place.page.addr;
          free = place.free_before ++ (left ++ place.free_after);
          used = place.page.used ++ given ∷ [];
        })
          ∷ place.after

pub rounds-place :
    (before : List PageView) (v : PageView) (after : List PageView)
    → length v.free + length v.used < rounds_of (before ++ v ∷ after)
rounds-place [] v after = omega arith
rounds-place (b ∷ before) v after = omega (arith, rounds-place before v after)

pub place-pos :
    {S : Type 0}
    → (h : Heap S) (vs : List PageView) (place : Place vs) → IsHeap vs h
    → 0 < place.cell.addr
place-pos h vs place valid =
    let are = subst (IsPages h.pages h.blocks) place.pages_split valid.pages_are in
    let is = IsPages-one h.pages h.blocks place.before place.page place.after are in
    let inside =
      cell-IsInside place.page place.free_before place.cell place.free_after place.free_split
        is.inside in
    omega (arith, inside.0)

module _ {S : Type 0} (fuel size : ℕ) (h : Heap S) (vs : List PageView) where
  pub take_block-IsTaken :
      (place : Place vs)
      → IsHeap vs h
      → rounds_of vs < fuel
      → size ≤ place.cell.length
      → (r : ℕ) × (h' : Heap S) × (vs' : List PageView) × (take_block fuel size place.cell.addr h
          ≡ some (r, h'))
        × IsHeap vs' h'
        × IsTaken size vs place vs' r
  unfolding take_block
  take_block-IsTaken place valid enough_fuel fits =
      let v = place.page in
      let c = place.cell in
      let fb = place.free_before in
      let fa = place.free_after in
      let are = subst (IsPages h.pages h.blocks) place.pages_split valid.pages_are in
      let is = IsPages-one h.pages h.blocks place.before v place.after are in
      let next = head_page place.after in
      let found = at-cell h v.addr c fa (
        IsChain-right h.blocks v.addr fb (c ∷ fa)
          (subst (IsChain h.blocks v.addr) place.free_split is.free_chain)) in
      let inside = cell-IsInside v fb c fa place.free_split is.inside in
      let low : u64 (size + header) ≡ size + header = omega (arith, inside.0, inside.1, fits) in
      let rounds = rounds-place place.before v place.after in
      let total = ap rounds_of place.pages_split in
      let used_fuel : length v.used < fuel = omega (arith, rounds, total) in
      let free_fuel : length fb < fuel =
        omega (arith, rounds, total, ap (length {0}) place.free_split, length-append fb (c ∷ fa)) in
      let root = λ (free used : List Cell).
        valid.root_is
        ∙ (ap head_page place.pages_split
            ∙ head_page-with_lists place.before v place.after free used) in
      elim (Bool-cases (ltb (size + header) c.length)) [
        | inl cuts ↦
            let more : size + header < c.length = ground arith in
            let free = fb ++ rest_of size c ∷ fa in
            let used = v.used ++ given_of size c ∷ [] in
            let h' = Cut.cut_done h size next v fb c fa is place.free_split more in
            (
              (given_of size c).addr + header,
              h',
              place.before ++ with_lists v free used ∷ place.after,
              rw (found, low, cuts)
                  (Cut.cut_block_lem h size next v fb c fa is place.free_split more fuel used_fuel),
              record {
                root_is = root free used;
                pages_are =
                    IsPages-change h.pages h'.pages h.blocks h'.blocks v free used place.after
                      (Cut.cut-IsSamePage h size next v fb c fa is place.free_split more)
                      place.before (Cut.cut-IsPage h size next v fb c fa is place.free_split more)
                      are;
              },
              record {
                given = given_of size c;
                left = rest_of size c ∷ [];
                address = refl;
                enough = omega arith;
                parts = inr (refl, refl, more);
                within = omega (arith, more);
                pages_then = refl;
              },
            )
        | inr whole ↦
            let free = fb ++ fa in
            let used = v.used ++ c ∷ [] in
            let h' = Move.moved h next v fb c fa is place.free_split in
            (
              c.addr + header,
              h',
              place.before ++ with_lists v free used ∷ place.after,
              rw (found, low, whole)
                  (Move.move_block_lem h next v fb c fa is place.free_split fuel used_fuel
                    free_fuel),
              record {
                root_is = root free used;
                pages_are =
                    IsPages-change h.pages h'.pages h.blocks h'.blocks v free used place.after
                      (Move.moved-IsSamePage h next v fb c fa is place.free_split) place.before
                      (Move.moved-IsPage h next v fb c fa is place.free_split) are;
              },
              record {
                given = c;
                left = [];
                address = refl;
                enough = fits;
                parts = inl (refl, refl, ground arith);
                within = omega arith;
                pages_then = refl;
              },
            )
      ]
