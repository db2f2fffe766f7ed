-- ===== src/Pmm/Fill/Sound.antt =====
-- Every page that pmm_init hands out is usable.
use gapxos.Base.{
  ℕ, zero, suc, ◌+◌, ◌%◌, ◌^◌, ◌≤◌, ◌<◌, ◌≡◌, ◌≢◌, inl, inr, true, false, List, [], ◌∷◌, arith,
  ◌==◌, ltb, ◌&&◌, some, >>=-eq-some, Bool-cases, compare-cases, ltb→lt,
}
use gapxos.Pmm.{
  Pmm, MmapEntry, MemoryRange, write_cell, pmm_free_page, is_unsafe, offer, scan_pages, align_up,
  add_usable, add_range, add_entry, add_entries,
}
use gapxos.Pmm.Usable.{IsInside, IsLow, IsUsable, align_bounds, align_up_aligned}

-- P holds of every page on the stack, and of the page kept for the other processors.
pub record Holds (P : ℕ → Type 0) (p : Pmm) : Type 0 where
  pub stacked : (j : ℕ) → j < p.free_index → P (p.free_pages j)
  pub kept : p.ap_low_page ≢ 0 → P p.ap_low_page

push-Holds :
    (P : ℕ → Type 0) (cur : ℕ) (p : Pmm) → P cur → Holds P p → Holds P (pmm_free_page cur p)
unfolding pmm_free_page write_cell
push-Holds P cur p good h = record {
  stacked = λ j less. elim (compare-cases j p.free_index) [
    | inl (_, before) ↦
        let e : (j == p.free_index) ≡ false = ground arith in rw e (h.stacked j before)
    | inr (inl (_, here)) ↦ let e : (j == p.free_index) ≡ true = ground arith in rw e good
    | inr (inr (_, behind)) ↦ absurd (omega arith)
  ];
  kept = h.kept;
}

offer-Holds :
    (P : ℕ → Type 0) (unsafe : List MemoryRange) (cur : ℕ) (p : Pmm)
    → (is_unsafe cur unsafe ≡ false → P cur)
    → Holds P p
    → Holds P (offer unsafe cur p)
unfolding offer
offer-Holds P unsafe cur p good h = elim (Bool-cases (is_unsafe cur unsafe)) [
  | inl bad ↦ rw bad h
  | inr fine ↦ rw fine (elim (Bool-cases (p.ap_low_page == 0 && ltb cur (2 ^ 20))) [
    | inl low ↦ rw low (record { stacked = h.stacked; kept = λ _. good fine })
    | inr high ↦ rw high (push-Holds P cur p (good fine) h)
  ])
]

-- The pages from cur up to end.
abbrev pub Between : (ℕ → Type 0) → List MemoryRange → ℕ → ℕ → Type 0
Between P unsafe cur end =
    (a : ℕ) → a % 4096 ≡ 0 → cur ≤ a → a < end → is_unsafe a unsafe ≡ false → P a

scan_pages-Holds :
    (P : ℕ → Type 0) (fuel : ℕ) (unsafe : List MemoryRange) (cur end : ℕ) (p : Pmm)
    → cur % 4096 ≡ 0
    → Between P unsafe cur end
    → Holds P p
    → Holds P (scan_pages fuel unsafe cur end p)
unfolding scan_pages
scan_pages-Holds P zero unsafe cur end p aligned good h = h
scan_pages-Holds P (suc fuel) unsafe cur end p aligned good h = elim (Bool-cases (ltb cur end)) [
  | inl more ↦
      rw (more, scan_pages)
        (scan_pages-Holds P fuel unsafe (cur + 4096) end (offer unsafe cur p) (omega arith)
          (λ a al low high. good a al (omega arith) high)
          (offer-Holds P unsafe cur p (good cur aligned (omega arith) (ltb→lt cur end more)) h))
  | inr done ↦ rw (done, scan_pages) h
]

-- Every page of the entries satisfies P, unless it is reserved.
abbrev pub Covers : (ℕ → Type 0) → List MemoryRange → List MmapEntry → Type 0
Covers P unsafe es = (a : ℕ) → IsUsable unsafe es a → P a

add_usable-Holds :
    (P : ℕ → Type 0) (unsafe : List MemoryRange) (entry : MmapEntry) (p : Pmm)
    → entry.base_addr + entry.length + 4096 < 2 ^ 64
    → ((a : ℕ)
        → a % 4096 ≡ 0
        → is_unsafe a unsafe ≡ false
        → entry.base_addr ≤ a
        → a + 4096 ≤ entry.base_addr + entry.length
        → P a)
    → Holds P p
    → Holds P (add_usable unsafe entry p)
unfolding add_usable
add_usable-Holds P unsafe entry p low good h =
    scan_pages-Holds P _ unsafe (align_up entry.base_addr) _ p
      (align_up_aligned entry.base_addr (omega arith))
      (λ a al lower upper fine.
        let bounds = align_bounds entry a low al lower upper in good a al fine bounds.0 bounds.1)
      h

add_entry-Holds :
    (P : ℕ → Type 0) (unsafe : List MemoryRange) (entry : MmapEntry) (p p' : Pmm)
    → entry.base_addr + entry.length + 4096 < 2 ^ 64
    → ((a : ℕ) → a % 4096 ≡ 0 → is_unsafe a unsafe ≡ false → IsInside a entry → P a)
    → add_entry unsafe entry p ≡ some p'
    → Holds P p
    → Holds P p'
unfolding add_entry
add_entry-Holds P unsafe entry p p' low good e h = elim (Bool-cases (entry.type == 1)) [
  | inl usable ↦
      let same : p' ≡ add_usable unsafe entry p = ground arith in
      rw same (
        add_usable-Holds P unsafe entry p low
          (λ a al fine base top. good a al fine (ground arith, base, top)) h)
  | inr other ↦
      let same : p' ≡ add_range entry p = ground arith in
      rw same (record { stacked = h.stacked; kept = h.kept })
]

pub add_entries-Holds :
    (P : ℕ → Type 0) (unsafe : List MemoryRange) (es : List MmapEntry) (p p' : Pmm)
    → IsLow es
    → Covers P unsafe es
    → add_entries unsafe es p ≡ some p'
    → Holds P p
    → Holds P p'
unfolding add_entries
add_entries-Holds P unsafe [] p p' low good e h = let same : p' ≡ p = ground arith in rw same h
add_entries-Holds P unsafe (entry ∷ es) p p' low good e h =
    let (p1, e1, e2) = >>=-eq-some (add_entry unsafe entry p) (λ q. add_entries unsafe es q) e in
    add_entries-Holds P unsafe es p1 p' low.1 (λ a u. good a (u.0, u.1, inr u.2)) e2
      (add_entry-Holds P unsafe entry p p1 low.0 (λ a al fine inside. good a (al, fine, inl inside))
        e1 h)
