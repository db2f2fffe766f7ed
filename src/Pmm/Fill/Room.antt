-- ===== src/Pmm/Fill/Room.antt =====
-- The array _ranges of pmm.c has room for 32 entries that are no usable memory.
use gapxos.Base.{
  ℕ, ◌+◌, suc, zero, ◌≤◌, ◌<◌, ◌≡◌, refl, List, [], ◌∷◌, arith, ◌==◌, if◌then◌else◌, ltb, none,
  some, length, length-append, Bool-cases, inl, inr, true,
}
use gapxos.Pmm.{
  Pmm, MmapEntry, MemoryRange, pmm_free_page, offer, scan_pages, add_usable, add_range, add_entry,
  add_entries,
}

-- The entries that go into _ranges.
unfoldable pub others : List MmapEntry → ℕ
others [] = 0
others (entry ∷ es) = if entry.type == 1 then others es else suc (others es)

ranges-offer :
    (unsafe : List MemoryRange) (cur : ℕ) (p : Pmm) → (offer unsafe cur p).ranges ≡ p.ranges
unfolding offer pmm_free_page
ranges-offer unsafe cur p = ground arith

ranges-scan_pages :
    (fuel : ℕ) (unsafe : List MemoryRange) (cur end : ℕ) (p : Pmm)
    → (scan_pages fuel unsafe cur end p).ranges ≡ p.ranges
unfolding scan_pages
ranges-scan_pages zero unsafe cur end p = refl
ranges-scan_pages (suc fuel) unsafe cur end p = ground (
  arith,
  ranges-scan_pages fuel unsafe (cur + 4096) end (offer unsafe cur p),
  ranges-offer unsafe cur p,
)

ranges-add_usable :
    (unsafe : List MemoryRange) (entry : MmapEntry) (p : Pmm)
    → (add_usable unsafe entry p).ranges ≡ p.ranges
unfolding add_usable
ranges-add_usable unsafe entry p = ranges-scan_pages _ unsafe _ _ p

length-add_range :
    (entry : MmapEntry) (p : Pmm) → length (add_range entry p).ranges ≡ length p.ranges + 1
length-add_range entry p = length-append p.ranges (_ ∷ [])

-- With room for them all, the loop ends without a write behind the array.
pub add_entries_returns :
    (unsafe : List MemoryRange) (es : List MmapEntry) (p : Pmm)
    → length p.ranges + others es ≤ 32
    → (p' : Pmm) × (add_entries unsafe es p ≡ some p')
unfolding add_entries add_entry others
add_entries_returns unsafe [] p room = (p, refl)
add_entries_returns unsafe (entry ∷ es) p room = elim (Bool-cases (entry.type == 1)) [
  | inl usable ↦ rw usable (
      add_entries_returns unsafe es (add_usable unsafe entry p)
        (rw (ranges-add_usable unsafe entry p) (ground arith)))
  | inr other ↦
      let fits : ltb (length p.ranges) 32 ≡ true = ground arith in
      rw (other, fits)
        (add_entries_returns unsafe es (add_range entry p)
          (ground (arith, length-add_range entry p)))
]

-- With more of them than there is room, it writes behind the array.
pub add_entries_overflow :
    (unsafe : List MemoryRange) (es : List MmapEntry) (p : Pmm)
    → length p.ranges ≤ 32
    → 32 < length p.ranges + others es
    → add_entries unsafe es p ≡ none
unfolding add_entries add_entry others
add_entries_overflow unsafe [] p room many = absurd (omega arith)
add_entries_overflow unsafe (entry ∷ es) p room many = elim (Bool-cases (entry.type == 1)) [
  | inl usable ↦ rw usable (
      add_entries_overflow unsafe es (add_usable unsafe entry p)
        (rw (ranges-add_usable unsafe entry p) room)
        (rw (ranges-add_usable unsafe entry p) (ground arith)))
  | inr other ↦ elim (Bool-cases (ltb (length p.ranges) 32)) [
    | inl fits ↦
        rw (other, fits)
          (add_entries_overflow unsafe es (add_range entry p)
            (ground (arith, length-add_range entry p)) (ground (arith, length-add_range entry p)))
    | inr full ↦ rw (other, full)
  ]
]
