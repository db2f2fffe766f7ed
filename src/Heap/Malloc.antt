-- ===== src/Heap/Malloc.antt =====
-- malloc of heap.c as a whole.
use gapxos.Base.{
  ℕ, ◌+◌, ◌≤◌, ◌<◌, ◌≡◌, refl, ap, arith, false, some, List, [], ◌∷◌, ◌++◌, ◌==◌, inl, inr, ◌⊎◌,
}
use gapxos.Vmm.Manager.{Machine}
use gapxos.Heap.{Heap, root, read, header, find_free, malloc}
use gapxos.Heap.Pages.{PageView, IsHeap, rounds_of, head_page}
use gapxos.Heap.Search.{Fit, IsFull, find_page-Searched}
use gapxos.Heap.Take.{Place, IsTaken, place-pos, take_block-IsTaken}
use gapxos.Heap.Grow.{fresh_page, GivesPage, new_page-IsHeap}

abbrev place_of : {size : ℕ} {vs : List PageView} → Fit size vs → Place vs
place_of fit = record {
  before = fit.before;
  page = fit.page;
  after = fit.after;
  free_before = fit.free_before;
  cell = fit.cell;
  free_after = fit.free_after;
  pages_split = fit.pages_split;
  free_split = fit.free_split;
}

abbrev place_fresh : (vs : List PageView) (p : ℕ) → Place (vs ++ fresh_page p ∷ [])
place_fresh vs p = record {
  before = vs;
  page = fresh_page p;
  after = [];
  free_before = [];
  cell = record { addr = p + header; length = 4048 };
  free_after = [];
  pages_split = refl;
  free_split = refl;
}

rounds-fresh : (vs : List PageView) (p : ℕ) → rounds_of (vs ++ fresh_page p ∷ []) ≡ rounds_of vs + 2
rounds-fresh [] p = refl
rounds-fresh (v ∷ vs) p = omega (arith, rounds-fresh vs p)

root_at :
    {S : Type 0} {vs : List PageView} {h : Heap S} → IsHeap vs h → read root h ≡ some (head_page vs)
unfolding read
root_at valid = ap some valid.root_is

module _ {S : Type 0} (machine : Machine S) (fuel size : ℕ) (vs : List PageView) (h : Heap S) where
  -- The pages that a block is taken from: those of the heap, or with a new one where no block of
  -- theirs is long enough.
  abbrev pub IsSource : List PageView → Type 0
  IsSource vs1 =
      (vs1 ≡ vs)
      ⊎ (IsFull size vs × (new : GivesPage machine size vs h) × (vs1 ≡ vs ++ fresh_page new.p ∷ []))

  -- On a heap whose lists of headers are whole and whose blocks do not overlap, for at most 4048
  -- bytes, with more fuel than two rounds and one for each page and block, and with malloc_pages
  -- giving pages that are none of the heap's if no free block is longer than the size: malloc
  -- returns the memory of a block of the size at least, which was part of one free block, of the
  -- heap or of the new page. The block is now the last one of the allocated blocks of its page; all
  -- others are as before, but for the rest of the free block; and the heap is again whole.
  pub malloc-IsTaken :
      size ≤ 4048
      → IsHeap vs h
      → rounds_of vs + 2 < fuel
      → (IsFull size vs → GivesPage machine size vs h)
      → (vs1 : List PageView) × (place : Place vs1) × (r : ℕ) × (h' : Heap S) × (vs' : List
          PageView)
        × IsSource vs1
        × (malloc machine fuel size h ≡ some (r, h'))
        × IsHeap vs' h'
        × IsTaken size vs1 place vs' r
  unfolding malloc find_free
  malloc-IsTaken small valid enough gives =
      elim (find_page-Searched h fuel size root vs (omega (arith, enough)) (root_at valid)
        valid.pages_are) [
          | inl (fit, s, e) ↦
              let some_cell : (fit.cell.addr == 0) ≡ false =
                ground (arith, place-pos h vs (place_of fit) valid) in
              let (r, h', vs', taken, valid', is) =
                take_block-IsTaken fuel size h vs (place_of fit) valid (omega (arith, enough))
                  (omega (arith, fit.fits)) in
              (vs, place_of fit, r, h', vs', inl refl, rw (e, some_cell) taken, valid', is)
          | inr (full, e) ↦
              let new = gives full in
              let (h1, grown, valid1) = new_page-IsHeap machine size vs h new valid in
              let vs1 = vs ++ fresh_page new.p ∷ [] in
              let (r, h', vs', taken, valid', is) =
                take_block-IsTaken fuel size h1 vs1 (place_fresh vs new.p) valid1
                  (omega (arith, enough, rounds-fresh vs new.p)) small in
              (
                vs1,
                place_fresh vs new.p,
                r,
                h',
                vs',
                inr (full, new, refl),
                rw (e, grown) taken,
                valid',
                is,
              )
        ]
