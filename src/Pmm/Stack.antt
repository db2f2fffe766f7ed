-- ===== src/Pmm/Stack.antt =====
-- pmm_alloc_page and pmm_free_page of pmm.c are the pop and the push of a stack.
use gapxos.Base.{
  ℕ, zero, suc, ◌+◌, ◌-◌, ◌≤◌, ◌≡◌, refl, List, [], ◌∷◌, arith, ap, ap₂, ◌==◌, ◌≢◌, false,
}
use native.Mathlib.Numerals.{add-one}
use native.Mathlib.Decide.{ℕ_discrete}
use gapxos.Pmm.{Pmm, write_cell, pmm_alloc_page, pmm_free_page}

-- The first n cells, the last one on top.
unfoldable pub cells : ℕ → (ℕ → ℕ) → List ℕ
cells zero f = []
cells (suc n) f = f n ∷ cells n f

-- The free pages, the one that is given out next first.
unfoldable pub free_stack : Pmm → List ℕ
free_stack p = cells p.free_index p.free_pages

cells-write_cell : (n i v : ℕ) (f : ℕ → ℕ) → n ≤ i → cells n (write_cell f i v) ≡ cells n f
unfolding cells write_cell
cells-write_cell zero i v f h = refl
cells-write_cell (suc n) i v f h = ground (arith, cells-write_cell n i v f)

cells-pos : (n : ℕ) (f : ℕ → ℕ) → n ≢ 0 → cells n f ≡ f (n - 1) ∷ cells (n - 1) f
unfolding cells
cells-pos zero f h = absurd (h refl)
cells-pos (suc n) f h = let e : suc n - 1 ≡ n = omega arith in rw e

-- Freeing a page pushes it.
pub free_stack-free : (addr : ℕ) (p : Pmm) → free_stack (pmm_free_page addr p) ≡ addr ∷ free_stack p
unfolding free_stack pmm_free_page cells write_cell
free_stack-free addr p = rw add-one (
    ap₂ (λ (a : ℕ) (rest : List ℕ). a ∷ rest) (ground arith)
      (cells-write_cell p.free_index p.free_index addr p.free_pages (omega arith)))

-- The outcomes of an allocation.
pub data Popped (p : Pmm) : ℕ × Pmm → Type 0 where
  empty : {r : ℕ × Pmm} → free_stack p ≡ [] → r ≡ (0, p) → Popped p r
  top :
      {r : ℕ × Pmm}
      → free_stack p ≡ r.0 ∷ free_stack r.1
      → r.1.ranges ≡ p.ranges
      → r.1.ap_low_page ≡ p.ap_low_page
      → Popped p r

-- pmm_alloc_page returns 0 and changes nothing if no page is free, and else takes the top of the
-- stack and leaves all else as it was.
pub pmm_alloc_page-Popped : (p : Pmm) → Popped p (pmm_alloc_page p)
unfolding pmm_alloc_page free_stack cells
pmm_alloc_page-Popped p = elim (ℕ_discrete p.free_index 0) [
  | yes e ↦ empty (ap (λ n. cells n p.free_pages) e) (ground arith)
  | no ne ↦
      let test : (p.free_index == 0) ≡ false = ground arith in
      rw test (top (cells-pos p.free_index p.free_pages ne) refl refl)
]

-- What was freed last is given out first, and the stack is as before.
pub alloc-free :
    (addr : ℕ) (p : Pmm)
    → ((pmm_alloc_page (pmm_free_page addr p)).0 ≡ addr)
      × (free_stack (pmm_alloc_page (pmm_free_page addr p)).1 ≡ free_stack p)
unfolding pmm_alloc_page pmm_free_page free_stack write_cell
alloc-free addr p =
    let test : (p.free_index + 1 == 0) ≡ false = ground arith in
    let same : p.free_index + 1 - 1 ≡ p.free_index = omega arith in
    rw (test, same)
      (ground arith, cells-write_cell p.free_index p.free_index addr p.free_pages (omega arith))
