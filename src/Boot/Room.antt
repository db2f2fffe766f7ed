-- ===== src/Boot/Room.antt =====
-- get_stack_size of common_boot.c against what pmm_init of pmm.c pushes.
use gapxos.Base.{
  ℕ, zero, suc, ◌+◌, ◌-◌, ◌*◌, ◌/◌, ◌%◌, ◌^◌, ◌≤◌, ◌<◌, ◌≡◌, List, [], ◌∷◌, some, arith, ◌==◌,
  if◌then◌else◌, Bool-cases, inl, inr, compare-cases, >>=-eq-some,
}
use gapxos.Pmm.{
  Pmm, MmapEntry, MemoryRange, pmm_free_page, offer, scan_pages, add_usable, add_range, add_entry,
  add_entries, align_up, align_down, u64,
}
use gapxos.Pmm.Usable.{IsLow, align_up_aligned}
use gapxos.Boot.{get_stack_size}

-- The whole pages of the usable entries, by their lengths.
unfoldable pub usable_pages : List MmapEntry → ℕ
usable_pages [] = 0
usable_pages (entry ∷ es) =
    if entry.type == 1 then entry.length / 4096 + usable_pages es else usable_pages es

get_stack_size_lem :
    (es : List MmapEntry) (size : ℕ)
    → size + usable_pages es * 8 < 2 ^ 64
    → get_stack_size es size ≡ size + usable_pages es * 8
unfolding get_stack_size usable_pages
get_stack_size_lem [] size fits = omega arith
get_stack_size_lem (entry ∷ es) size fits = elim (Bool-cases (entry.type == 1)) [
  | inl usable ↦
      let whole : size + entry.length / 4096 * 8 + usable_pages es * 8 < 2 ^ 64 = ground arith in
      let same : u64 (size + entry.length / 4096 * 8) ≡ size + entry.length / 4096 * 8 =
        omega arith in
      rw (usable, same)
        (ground (arith, get_stack_size_lem es (size + entry.length / 4096 * 8) whole))
  | inr other ↦ rw other (get_stack_size_lem es size (ground arith))
]

pushes-offer :
    (unsafe : List MemoryRange) (cur : ℕ) (p : Pmm)
    → (offer unsafe cur p).free_index ≤ p.free_index + 1
unfolding offer pmm_free_page
pushes-offer unsafe cur p = ground arith

-- The stack grows by at most the pages between the bounds.
pushes-scan_pages :
    (fuel : ℕ) (unsafe : List MemoryRange) (cur end : ℕ) (p : Pmm)
    → cur % 4096 ≡ 0
    → end % 4096 ≡ 0
    → (scan_pages fuel unsafe cur end p).free_index ≤ p.free_index + (end - cur) / 4096
unfolding scan_pages
pushes-scan_pages zero unsafe cur end p c e = omega arith
pushes-scan_pages (suc fuel) unsafe cur end p c e = elim (compare-cases cur end) [
  | inl (o, more) ↦
      rw (o, scan_pages)
        (ground (
          arith,
          pushes-scan_pages fuel unsafe (cur + 4096) end (offer unsafe cur p) (omega arith) e,
          pushes-offer unsafe cur p,
        ))
  | inr (inl (o, same)) ↦ rw (o, scan_pages) (omega arith)
  | inr (inr (o, past)) ↦ rw (o, scan_pages) (omega arith)
]

align_room :
    (entry : MmapEntry)
    → entry.base_addr + entry.length + 4096 < 2 ^ 64
    → (align_down (u64 (entry.base_addr + entry.length)) - align_up entry.base_addr) / 4096
      ≤ entry.length / 4096
unfolding align_up align_down
align_room entry low = ground arith

align_down_aligned : (a : ℕ) → align_down a % 4096 ≡ 0
unfolding align_down
align_down_aligned a = ground arith

pushes-add_usable :
    (unsafe : List MemoryRange) (entry : MmapEntry) (p : Pmm)
    → entry.base_addr + entry.length + 4096 < 2 ^ 64
    → (add_usable unsafe entry p).free_index ≤ p.free_index + entry.length / 4096
unfolding add_usable
pushes-add_usable unsafe entry p low = omega (
  arith,
  align_room entry low,
  pushes-scan_pages
      ((align_down (u64 (entry.base_addr + entry.length)) - align_up entry.base_addr) / 4096 + 1)
      unsafe (align_up entry.base_addr) (align_down (u64 (entry.base_addr + entry.length))) p
      (align_up_aligned entry.base_addr (omega arith)) (align_down_aligned _),
)

pushes-add_entry :
    (unsafe : List MemoryRange) (entry : MmapEntry) (p p' : Pmm)
    → entry.base_addr + entry.length + 4096 < 2 ^ 64
    → add_entry unsafe entry p ≡ some p'
    → p'.free_index ≤ p.free_index + usable_pages (entry ∷ [])
unfolding add_entry usable_pages
pushes-add_entry unsafe entry p p' low done = elim (Bool-cases (entry.type == 1)) [
  | inl usable ↦
      let same : p' ≡ add_usable unsafe entry p = ground arith in
      rw (same, usable) (omega (arith, pushes-add_usable unsafe entry p low))
  | inr other ↦ let same : p' ≡ add_range entry p = ground arith in rw (same, other) (omega arith)
]

usable_pages-cons :
    (entry : MmapEntry) (es : List MmapEntry)
    → usable_pages (entry ∷ es) ≡ usable_pages (entry ∷ []) + usable_pages es
unfolding usable_pages
usable_pages-cons entry es = ground arith

pushes-add_entries :
    (unsafe : List MemoryRange) (es : List MmapEntry) (p p' : Pmm)
    → IsLow es
    → add_entries unsafe es p ≡ some p'
    → p'.free_index ≤ p.free_index + usable_pages es
unfolding add_entries
pushes-add_entries unsafe [] p p' low done =
    let same : p' ≡ p = ground arith in rw same (omega arith)
pushes-add_entries unsafe (entry ∷ es) p p' low done =
    let (p1, e1, e2) = >>=-eq-some (add_entry unsafe entry p) (λ q. add_entries unsafe es q) done in
    omega (
      arith,
      pushes-add_entries unsafe es p1 p' low.1 e2,
      pushes-add_entry unsafe entry p p1 low.0 e1,
      usable_pages-cons entry es,
    )

-- With a memory map that stays below the last page of the address space, and whose usable entries
-- need fewer than 2^64 bytes of stack: the loop of pmm_init over the map, begun with an empty
-- stack, leaves at most as many addresses on the stack as cells of eight bytes fit into the size
-- that get_stack_size returns for the same map.
pub add_entries-get_stack_size :
    (unsafe : List MemoryRange) (mmap : List MmapEntry) (p p' : Pmm)
    → IsLow mmap
    → usable_pages mmap * 8 < 2 ^ 64
    → p.free_index ≡ 0
    → add_entries unsafe mmap p ≡ some p'
    → p'.free_index * 8 ≤ get_stack_size mmap 0
add_entries-get_stack_size unsafe mmap p p' low fits empty done =
    omega
      (arith, pushes-add_entries unsafe mmap p p' low done, get_stack_size_lem mmap 0 (omega arith))
