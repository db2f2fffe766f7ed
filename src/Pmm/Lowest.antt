-- ===== src/Pmm/Lowest.antt =====
-- _get_low_page of pmm.c takes the lowest page out of the array and closes the gap.
use gapxos.Base.{
  ℕ, zero, suc, ◌+◌, ◌-◌, ◌^◌, ◌≤◌, ◌<◌, ◌≡◌, refl, arith, ltb, leb, ◌&&◌, if◌then◌else◌, ap,
  compare-cases, inl, inr, ◌%◌, ◌∙◌,
}
use gapxos.Pmm.{Pmm, write_cell, index_of, lowest_from, shift_from, get_low_page}

abbrev IsLeast : ℕ → ℕ → (ℕ → ℕ) → Type 0
IsLeast lowest n f = (j : ℕ) → j < n → f lowest ≤ f j

-- One round: the index of the lower of two cells is lowest as far as the loop has come.
IsLeast-step :
    (i lowest : ℕ) (f : ℕ → ℕ)
    → IsLeast lowest i f
    → IsLeast (if ltb (f i) (f lowest) then i else lowest) (i + 1) f
IsLeast-step i lowest f h j less = elim (compare-cases j i) [
  | inl (_, before) ↦ ground (arith, h j before)
  | inr (inl (_, same)) ↦ rw same (ground arith)
  | inr (inr (_, after)) ↦ absurd (omega arith)
]

-- Below 2^31 an int holds the index.
index_of-low : (v : ℕ) → v < 2 ^ 31 → index_of v ≡ v
unfolding index_of
index_of-low v low = ground arith

round_eq :
    (i lowest : ℕ) (f : ℕ → ℕ)
    → i < 2 ^ 31
    → lowest < 2 ^ 31
    → (if ltb (f i) (f (index_of lowest)) then i % 2 ^ 32 else lowest)
      ≡ (if ltb (f i) (f lowest) then i else lowest)
round_eq i lowest f low_i low =
    let whole : i % 2 ^ 32 ≡ i = omega arith in rw (index_of-low lowest low, whole) refl

lowest_from-IsLeast :
    (rounds i lowest n : ℕ) (f : ℕ → ℕ)
    → n < 2 ^ 31
    → i + rounds ≡ n
    → lowest < n
    → IsLeast lowest i f
    → (lowest_from rounds i lowest f < n) × IsLeast (lowest_from rounds i lowest f) n f
unfolding lowest_from
lowest_from-IsLeast zero i lowest n f small e low h = (low, λ j less. h j (omega arith))
lowest_from-IsLeast (suc rounds) i lowest n f small e low h =
    rw (round_eq i lowest f (omega arith) (omega arith)) (
      lowest_from-IsLeast rounds (i + 1) (if ltb (f i) (f lowest) then i else lowest) n f small
        (omega arith) (ground arith) (IsLeast-step i lowest f h))

-- The cells behind the gap move down by one, and all others stay.
shift_from_lem :
    (rounds i j : ℕ) (f : ℕ → ℕ)
    → 0 < i
    → i + rounds < 2 ^ 64
    → shift_from rounds i f j
      ≡ (if leb i (j + 1) && ltb (j + 1) (i + rounds) then f (j + 1) else f j)
unfolding shift_from write_cell
shift_from_lem zero i j f pos small = ground arith
shift_from_lem (suc rounds) i j f pos small =
    let back : (i + 2 ^ 64 - 1) % 2 ^ 64 ≡ i - 1 = omega arith in
    rw back (elim (compare-cases (j + 1) i) [
      | inl (_, less) ↦ ground (arith, shift_from_lem rounds (i + 1) j (write_cell f (i - 1) (f i)))
      | inr (inl (_, same)) ↦
          rw same (ground (arith, shift_from_lem rounds (i + 1) j (write_cell f (i - 1) (f i))))
      | inr (inr (_, more)) ↦
          ground (arith, shift_from_lem rounds (i + 1) j (write_cell f (i - 1) (f i)))
    ])

-- The value v is the lowest of the free pages of p, and p' has the others, in their order.
pub record TakesLowest (p : Pmm) (v : ℕ) (p' : Pmm) : Type 0 where
  pub at : ℕ
  pub inside : at < p.free_index
  pub value : v ≡ p.free_pages at
  pub least : (j : ℕ) → j < p.free_index → v ≤ p.free_pages j
  pub before : (j : ℕ) → j < at → p'.free_pages j ≡ p.free_pages j
  pub behind : (j : ℕ) → at ≤ j → j + 1 < p.free_index → p'.free_pages j ≡ p.free_pages (j + 1)
  pub count : p'.free_index + 1 ≡ p.free_index

-- With a free page there and fewer than 2^31 of them, as many as an int can number, _get_low_page
-- returns the lowest one and keeps all others in order.
pub get_low_page-TakesLowest :
    (p : Pmm)
    → 0 < p.free_index
    → p.free_index < 2 ^ 31
    → TakesLowest p (get_low_page p).0 (get_low_page p).1
unfolding get_low_page
get_low_page-TakesLowest p some_page bound =
    let f = p.free_pages in
    let at = lowest_from p.free_index 0 0 f in
    let low =
      lowest_from-IsLeast p.free_index 0 0 p.free_index f bound (omega arith) some_page
        (λ j less. absurd (omega arith)) in
    let whole : (at + 1) % 2 ^ 32 ≡ at + 1 = omega (arith, low.0) in
    let rounds = p.free_index - (at + 1) in
    let here : index_of at ≡ at = index_of-low at (omega (arith, low.0)) in
    let next : index_of ((at + 1) % 2 ^ 32) ≡ at + 1 =
      ap index_of whole ∙ index_of-low (at + 1) (omega (arith, low.0)) in
    rw (here, next)
      record {
        at = at;
        inside = low.0;
        value = refl;
        least = low.1;
        before = λ j less. ground (arith, shift_from_lem rounds (at + 1) j f (omega arith));
        behind =
            λ j le less. ground (arith, shift_from_lem rounds (at + 1) j f (omega arith), low.0);
        count = omega arith;
      }

lowest_from-empty : (n : ℕ) (f : ℕ → ℕ) → n ≡ 0 → lowest_from n 0 0 f ≡ 0
unfolding lowest_from
lowest_from-empty zero f e = refl
lowest_from-empty (suc n) f e = absurd (omega arith)

-- With none, it reads the first cell all the same and leaves an index of 2^64 - 1.
pub get_low_page_underflow :
    (p : Pmm)
    → p.free_index ≡ 0
    → ((get_low_page p).0 ≡ p.free_pages 0) × ((get_low_page p).1.free_index ≡ 2 ^ 64 - 1)
unfolding get_low_page
get_low_page_underflow p none_left =
    let first : index_of (lowest_from p.free_index 0 0 p.free_pages) ≡ 0 =
      ap index_of (lowest_from-empty p.free_index p.free_pages none_left)
      ∙ index_of-low 0 (omega arith) in
    (ap p.free_pages first, omega arith)
