-- ===== src/Heap/Search.antt =====
-- The loops of find_free over the pages of the heap.
use gapxos.Base.{
  ℕ, zero, suc, ◌<◌, ◌≡◌, refl, ap, subst, arith, false, Option, some, List, [], ◌∷◌, ◌++◌, All,
  ltb, ◌==◌, inl, inr, ◌⊎◌,
}
use gapxos.Heap.{Page, Heap, Slot, page_next, page_allocated, page_free, at, read, find_page}
use gapxos.Heap.Chain.{Cell, head_of, IsChain, IsChain-right, find_block-Found}
use gapxos.Heap.Pages.{PageView, head_page, IsPage, IsPages, rounds_of}

-- The place that holds the pointer behind the pages.
abbrev pub end_slot : Slot → List PageView → Slot
end_slot s [] = s
end_slot s (v ∷ vs) = end_slot (page_next v.addr) vs

-- A block that is long enough, with what stands around it.
pub record Fit (size : ℕ) (vs : List PageView) : Type 0 where
  pub before : List PageView
  pub page : PageView
  pub after : List PageView
  pub free_before : List Cell
  pub cell : Cell
  pub free_after : List Cell
  pub pages_split : vs ≡ before ++ page ∷ after
  pub free_split : page.free ≡ free_before ++ cell ∷ free_after
  pub fits : size < cell.length

-- No free block is long enough.
abbrev pub IsFull : ℕ → List PageView → Type 0
IsFull size = All (λ v. All (λ c. ltb size c.length ≡ false) v.free)

abbrev pub Searched : ℕ → List PageView → Slot → Option (ℕ × Slot) → Type 0
Searched size vs s r =
    ((fit : Fit size vs) × (s' : Slot) × (r ≡ some (fit.cell.addr, s')))
    ⊎ (IsFull size vs × (r ≡ some (0, end_slot s vs)))

later : {size : ℕ} (v : PageView) (vs : List PageView) → Fit size vs → Fit size (v ∷ vs)
later v vs fit = record {
  before = v ∷ fit.before;
  page = fit.page;
  after = fit.after;
  free_before = fit.free_before;
  cell = fit.cell;
  free_after = fit.free_after;
  pages_split = ap (λ ws. v ∷ ws) fit.pages_split;
  free_split = fit.free_split;
  fits = fit.fits;
}

module _ {S : Type 0} (h : Heap S) where
  pub at-page :
      (next : ℕ) (v : PageView)
      → IsPage h.pages h.blocks next v
      → at h.pages v.addr
        ≡ some (record { next = next; free = head_of v.free; allocated = head_of v.used })
  unfolding at
  at-page next v is =
      let there : (v.addr == 0) ≡ false = ground (arith, is.some_page) in
      rw (there, is.page_header) refl

  pub next_page :
      (next : ℕ) (v : PageView)
      → IsPage h.pages h.blocks next v
      → read (page_next v.addr) h ≡ some next
  unfolding read
  next_page next v is = rw (at-page next v is) refl

  pub read-allocated :
      (p : ℕ) (x : Page) → at h.pages p ≡ some x → read (page_allocated p) h ≡ some x.allocated
  unfolding read
  read-allocated p x e = rw e refl

  pub read-free : (p : ℕ) (x : Page) → at h.pages p ≡ some x → read (page_free p) h ≡ some x.free
  unfolding read
  read-free p x e = rw e refl

  pub find_page-Searched :
      (fuel size : ℕ) (s : Slot) (vs : List PageView)
      → rounds_of vs < fuel
      → read s h ≡ some (head_page vs)
      → IsPages h.pages h.blocks vs
      → Searched size vs s (find_page fuel size s h)
  unfolding find_page later
  find_page-Searched zero size s vs enough e are = absurd (omega arith)
  find_page-Searched (suc fuel) size s [] enough e are = inr (tt, rw (find_page, e) refl)
  find_page-Searched (suc fuel) size s (v ∷ vs) enough e are =
      let is = are.0 in
      let there : (v.addr == 0) ≡ false = ground (arith, is.some_page) in
      elim (find_block-Found h v.addr fuel size v.free (omega arith) is.free_chain) [
        | inl (fb, c, fa, split, fits, r) ↦
            let chain =
              IsChain-right h.blocks v.addr fb (c ∷ fa)
                (subst (IsChain h.blocks v.addr) split is.free_chain) in
            let some_c : (c.addr == 0) ≡ false = ground (arith, chain.0) in
            inl (
              record {
                before = [];
                page = v;
                after = vs;
                free_before = fb;
                cell = c;
                free_after = fa;
                pages_split = refl;
                free_split = split;
                fits = fits;
              },
              s,
              rw (find_page, e, there, at-page (head_page vs) v is, r, some_c) refl,
            )
        | inr (small, r) ↦
            let onward : read (page_next v.addr) h ≡ some (head_page vs) =
              next_page (head_page vs) v is in
            elim (find_page-Searched fuel size (page_next v.addr) vs (omega arith) onward are.2) [
              | inl (fit, s', r') ↦
                  inl (
                    later v vs fit,
                    s',
                    rw (find_page, e, there, at-page (head_page vs) v is, r) r',
                  )
              | inr (full, r') ↦
                  inr ((small, full), rw (find_page, e, there, at-page (head_page vs) v is, r) r')
            ]
      ]
