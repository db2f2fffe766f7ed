-- ===== src/Heap/Again.antt =====
-- malloc of heap.c behind find_free, and then free of what it returns.
use gapxos.Base.{
  ℕ, ◌+◌, ◌-◌, ◌^◌, ◌<◌, ◌≡◌, ◌≢◌, refl, sym, ap, subst, arith, some, List, [], ◌∷◌, ◌++◌, All-imp,
  inl, inr, length, length-append, append-nil, ◌∙◌,
}
use gapxos.Vmm.Manager.{Machine}
use gapxos.Heap.{Heap, header, take_block, free}
use gapxos.Heap.Chain.{Cell}
use gapxos.Heap.Pages.{PageView, IsHeap, rounds_of, with_lists}
use gapxos.Heap.Cut.{rest_of, given_of}
use gapxos.Heap.Take.{Place, take_block-IsTaken}
use gapxos.Heap.Merge.{NoneBehind}
use gapxos.Heap.Widen.{wide}
use gapxos.Heap.Free.{Held, given_back, free-IsWidened}

-- The pages when a block of the size is cut from the end of the free one.
abbrev cut_pages : {vs : List PageView} → ℕ → Place vs → List PageView
cut_pages size place =
    place.before
    ++ with_lists place.page (place.free_before ++ rest_of size place.cell ∷ place.free_after)
        (place.page.used ++ given_of size place.cell ∷ [])
      ∷ place.after

abbrev held_of : {vs : List PageView} → (size : ℕ) (place : Place vs) → Held (cut_pages size place)
held_of size place = record {
  before = place.before;
  page =
      with_lists place.page (place.free_before ++ rest_of size place.cell ∷ place.free_after)
        (place.page.used ++ given_of size place.cell ∷ []);
  after = place.after;
  used_before = place.page.used;
  cell = given_of size place.cell;
  used_after = [];
  pages_split = refl;
  used_split = refl;
}

rounds-cut :
    (size : ℕ) (v : PageView) (fb : List Cell) (c : Cell) (fa : List Cell)
    (before after : List PageView)
    → v.free ≡ fb ++ c ∷ fa
    → rounds_of (
        before ++ with_lists v (fb ++ rest_of size c ∷ fa) (v.used ++ given_of size c ∷ []) ∷ after)
      ≡ rounds_of (before ++ v ∷ after) + 1
rounds-cut size v fb c fa [] after split = omega (
  arith,
  ap (length {0}) split,
  length-append fb (c ∷ fa),
  length-append fb (rest_of size c ∷ fa),
  length-append v.used (given_of size c ∷ []),
)
rounds-cut size v fb c fa (b ∷ before) after split =
    omega (arith, rounds-cut size v fb c fa before after split)

-- Both pieces are the block again.
wide-rest_of :
    (size : ℕ) (c : Cell) → size + header < c.length → wide (rest_of size c) (given_of size c) ≡ c
wide-rest_of size c fits =
    let sum : c.length - (size + header) + (size + header) ≡ c.length = omega arith in
    ap (λ n. record { addr = c.addr; length = n }) sum

module _ {S : Type 0} (machine : Machine S) (fuel size : ℕ) (h : Heap S) (vs : List PageView)
    (place : Place vs) where
  same_pages :
      size + header < place.cell.length
      → place.before
          ++ with_lists place.page
              (place.free_before
                ++ wide (rest_of size place.cell) (given_of size place.cell) ∷ place.free_after)
              (place.page.used ++ [])
            ∷ place.after
        ≡ vs
  same_pages more =
      rw (wide-rest_of size place.cell more, append-nil place.page.used, ← place.free_split)
        (sym place.pages_split)

  -- On a heap whose lists of headers are whole and whose blocks do not overlap, for a free block
  -- with more bytes than the size and a header, behind which no earlier free block of its page
  -- begins, in a page that ends within the 64 bits of an address, and with more fuel than one round
  -- and one for each page and block: malloc behind find_free returns an address, and free of this
  -- address gives a whole heap with the very same free and allocated blocks of every page, each
  -- with its address, its length and its place in the list. If the page has no allocated block,
  -- then free has given it to free_pages.
  pub take_block-free :
      IsHeap vs h
      → rounds_of vs + 1 < fuel
      → size + header < place.cell.length
      → place.page.addr + 4096 < 2 ^ 64
      → NoneBehind place.cell place.free_before
      → (r : ℕ) × (h' : Heap S) × (h'' : Heap S) × (take_block fuel size place.cell.addr h
          ≡ some (r, h'))
        × (free machine fuel r h' ≡ given_back machine place.page.addr place.page.used h'')
        × IsHeap vs h''
  take_block-free valid enough more low behind =
      let (r, h', vs', taken, valid', is) =
        take_block-IsTaken fuel size h vs place valid (omega (arith, enough))
          (omega (arith, more)) in
      elim is.parts [
        | inl (_, _, less) ↦ absurd (omega (arith, more, less))
        | inr (left, given, _) ↦
            let explicit : vs' ≡ cut_pages size place = rw (is.pages_then, left, given) refl in
            let (h'', freed, whole) =
              free-IsWidened machine fuel h' (cut_pages size place) (held_of size place)
                place.free_before (rest_of size place.cell) place.free_after
                (subst (λ ws. IsHeap ws h') explicit valid')
                (omega (
                  arith,
                  enough,
                  ap rounds_of place.pages_split,
                  rounds-cut size place.page place.free_before place.cell place.free_after
                      place.before place.after place.free_split,
                ))
                low refl (omega (arith, more))
                (All-imp (λ f. place.cell.addr + header + place.cell.length ≢ f.addr)
                  (λ f. (given_of size place.cell).addr + header + size ≢ f.addr)
                  (λ f a. omega (arith, a, more)) place.free_before behind) in
            (
              r,
              h',
              h'',
              taken,
              subst (λ us. free machine fuel r h' ≡ given_back machine place.page.addr us h'')
                  (append-nil place.page.used)
                  (subst
                    (λ p.
                      free machine fuel p h'
                      ≡ given_back machine place.page.addr (place.page.used ++ []) h'')
                    (sym (is.address ∙ ap (λ g. g.addr + header) given)) freed),
              subst (λ ws. IsHeap ws h'') (same_pages more) whole,
            )
      ]
