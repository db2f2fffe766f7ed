-- ===== src/Pmm/Fill/Complete.antt =====
-- Every usable page is handed out by pmm_init.
use gapxos.Base.{
  ℕ, zero, suc, ◌+◌, ◌-◌, ◌/◌, ◌%◌, ◌^◌, ◌≤◌, ◌<◌, ◌≡◌, ◌≢◌, ◌⊎◌, inl, inr, refl, true, false, List,
  [], ◌∷◌, arith, ◌==◌, ltb, ◌&&◌, some, >>=-eq-some, Bool-cases, compare-cases, sym, subst,
}
use gapxos.Pmm.{
  Pmm, MmapEntry, MemoryRange, write_cell, pmm_free_page, is_unsafe, offer, scan_pages, align_up,
  add_usable, add_range, add_entry, add_entries,
}
use gapxos.Pmm.Usable.{IsInside, IsLow, IsUsable, align_inside, align_up_aligned}

-- The page is on the stack, or it is the one kept for the other processors.
abbrev pub Owned : ℕ → Pmm → Type 0
Owned a p = ((j : ℕ) × (j < p.free_index) × (p.free_pages j ≡ a)) ⊎ (p.ap_low_page ≡ a)

push-keeps : (a cur : ℕ) (p : Pmm) → Owned a p → Owned a (pmm_free_page cur p)
unfolding pmm_free_page write_cell
push-keeps a cur p (inl (j, less, e)) =
    let other : (j == p.free_index) ≡ false = ground arith in inl (j, omega arith, rw other e)
push-keeps a cur p (inr e) = inr e

push-gives : (cur : ℕ) (p : Pmm) → Owned cur (pmm_free_page cur p)
unfolding pmm_free_page write_cell
push-gives cur p = inl (p.free_index, omega arith, ground arith)

offer-keeps :
    (a : ℕ) (unsafe : List MemoryRange) (cur : ℕ) (p : Pmm)
    → a ≢ 0
    → Owned a p
    → Owned a (offer unsafe cur p)
unfolding offer
offer-keeps a unsafe cur p pos h = elim (Bool-cases (is_unsafe cur unsafe)) [
  | inl bad ↦ rw bad h
  | inr fine ↦ rw fine (elim (Bool-cases (p.ap_low_page == 0 && ltb cur (2 ^ 20))) [
    | inl low ↦ rw low (elim h [ inl stacked ↦ inl stacked | inr e ↦ absurd (ground arith) ])
    | inr high ↦ rw high (push-keeps a cur p h)
  ])
]

offer-gives :
    (unsafe : List MemoryRange) (cur : ℕ) (p : Pmm)
    → is_unsafe cur unsafe ≡ false
    → Owned cur (offer unsafe cur p)
unfolding offer
offer-gives unsafe cur p fine =
    rw fine (elim (Bool-cases (p.ap_low_page == 0 && ltb cur (2 ^ 20))) [
      | inl low ↦ rw low (inr refl)
      | inr high ↦ rw high (push-gives cur p)
    ])

scan_pages-keeps :
    (a fuel : ℕ) (unsafe : List MemoryRange) (cur end : ℕ) (p : Pmm)
    → a ≢ 0
    → Owned a p
    → Owned a (scan_pages fuel unsafe cur end p)
unfolding scan_pages
scan_pages-keeps a zero unsafe cur end p pos h = h
scan_pages-keeps a (suc fuel) unsafe cur end p pos h = elim (Bool-cases (ltb cur end)) [
  | inl more ↦
      rw (more, scan_pages)
        (scan_pages-keeps a fuel unsafe (cur + 4096) end (offer unsafe cur p) pos
          (offer-keeps a unsafe cur p pos h))
  | inr done ↦ rw (done, scan_pages) h
]

-- The fuel is enough for every page up to `end`.
scan_pages-gives :
    (a fuel : ℕ) (unsafe : List MemoryRange) (cur end : ℕ) (p : Pmm)
    → a ≢ 0
    → is_unsafe a unsafe ≡ false
    → a % 4096 ≡ 0
    → cur % 4096 ≡ 0
    → cur ≤ a
    → a < end
    → (a - cur) / 4096 < fuel
    → Owned a (scan_pages fuel unsafe cur end p)
unfolding scan_pages
scan_pages-gives a zero unsafe cur end p pos fine al cl low high enough = absurd (omega arith)
scan_pages-gives a (suc fuel) unsafe cur end p pos fine al cl low high enough =
    let more : ltb cur end ≡ true = ground arith in
    elim (compare-cases cur a) [
      | inl (_, before) ↦
          rw (more, scan_pages)
            (scan_pages-gives a fuel unsafe (cur + 4096) end (offer unsafe cur p) pos fine al
              (omega arith) (omega arith) high (omega arith))
      | inr (inl (_, here)) ↦
          rw (more, scan_pages)
            (scan_pages-keeps a fuel unsafe (cur + 4096) end (offer unsafe cur p) pos
              (subst (λ c. Owned a (offer unsafe c p)) (sym here) (offer-gives unsafe a p fine)))
      | inr (inr (_, after)) ↦ absurd (omega arith)
    ]

add_entry-keeps :
    (a : ℕ) (unsafe : List MemoryRange) (entry : MmapEntry) (p p' : Pmm)
    → a ≢ 0
    → add_entry unsafe entry p ≡ some p'
    → Owned a p
    → Owned a p'
unfolding add_entry add_usable
add_entry-keeps a unsafe entry p p' pos e h = elim (Bool-cases (entry.type == 1)) [
  | inl usable ↦
      let same : p' ≡ add_usable unsafe entry p = ground arith in
      rw same (scan_pages-keeps a _ unsafe _ _ p pos h)
  | inr other ↦ let same : p' ≡ add_range entry p = ground arith in rw same h
]

add_entries-keeps :
    (a : ℕ) (unsafe : List MemoryRange) (es : List MmapEntry) (p p' : Pmm)
    → a ≢ 0
    → add_entries unsafe es p ≡ some p'
    → Owned a p
    → Owned a p'
unfolding add_entries
add_entries-keeps a unsafe [] p p' pos e h = let same : p' ≡ p = ground arith in rw same h
add_entries-keeps a unsafe (entry ∷ es) p p' pos e h =
    let (p1, e1, e2) = >>=-eq-some (add_entry unsafe entry p) (λ q. add_entries unsafe es q) e in
    add_entries-keeps a unsafe es p1 p' pos e2 (add_entry-keeps a unsafe entry p p1 pos e1 h)

add_entry-gives :
    (a : ℕ) (unsafe : List MemoryRange) (entry : MmapEntry) (p p' : Pmm)
    → entry.base_addr + entry.length + 4096 < 2 ^ 64
    → a ≢ 0
    → a % 4096 ≡ 0
    → is_unsafe a unsafe ≡ false
    → IsInside a entry
    → add_entry unsafe entry p ≡ some p'
    → Owned a p'
unfolding add_entry add_usable
add_entry-gives a unsafe entry p p' low pos al fine inside e =
    let usable : (entry.type == 1) ≡ true = ground arith in
    let same : p' ≡ add_usable unsafe entry p = ground arith in
    let bounds = align_inside entry a low al inside.1 inside.2 in
    rw same (
      scan_pages-gives a _ unsafe (align_up entry.base_addr) _ p pos fine al
        (align_up_aligned entry.base_addr (omega arith)) bounds.0 bounds.1 (omega arith))

pub add_entries-Owned :
    (a : ℕ) (unsafe : List MemoryRange) (es : List MmapEntry) (p p' : Pmm)
    → IsLow es
    → a ≢ 0
    → IsUsable unsafe es a
    → add_entries unsafe es p ≡ some p'
    → Owned a p'
unfolding add_entries
add_entries-Owned a unsafe [] p p' low pos (al, fine, nowhere) e = elim nowhere [ ]
add_entries-Owned a unsafe (entry ∷ es) p p' low pos (al, fine, inl inside) e =
    let (p1, e1, e2) = >>=-eq-some (add_entry unsafe entry p) (λ q. add_entries unsafe es q) e in
    add_entries-keeps a unsafe es p1 p' pos e2
      (add_entry-gives a unsafe entry p p1 low.0 pos al fine inside e1)
add_entries-Owned a unsafe (entry ∷ es) p p' low pos (al, fine, inr later) e =
    let (p1, e1, e2) = >>=-eq-some (add_entry unsafe entry p) (λ q. add_entries unsafe es q) e in
    add_entries-Owned a unsafe es p1 p' low.1 pos (al, fine, later) e2
