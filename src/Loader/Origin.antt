-- ===== src/Loader/Origin.antt =====
-- What find_elf64_phys_origin of loader.c finds.
use gapxos.Base.{
  ℕ, ◌+◌, ◌-◌, ◌%◌, ◌^◌, ◌≤◌, ◌<◌, ◌≡◌, ◌≢◌, refl, arith, Option, none, some, List, [], ◌∷◌, ltb,
  leb, ◌==◌, if◌then◌else◌, inl, inr, ◌⊎◌, Bool-cases, Option-cases, All, subst, sym,
}
use gapxos.Pmm.{MmapEntry, u64}
use gapxos.Loader.{as_int, place_kernel, try_entry, find_elf64_phys_origin}

-- The first page at an address or behind it.
abbrev round_up : ℕ → ℕ
round_up a = a + (4096 - a % 4096) % 4096

place_kernel_lem :
    (size base length : ℕ)
    → base + length < 2 ^ 32
    → round_up base ≤ base + length
    → place_kernel size base length
      ≡ (if leb (round_up base + size) (base + length) then some (round_up base) else none)
unfolding place_kernel
place_kernel_lem size base length low room = ground arith

-- An entry below 2^32 that ends with a page.
abbrev pub IsWhole : MmapEntry → Type 0
IsWhole entry =
    (entry.base_addr + entry.length < 2 ^ 32) × ((entry.base_addr + entry.length) % 4096 ≡ 0)

-- Room of a size in a usable entry, from a page on that is not below min_addr.
abbrev pub IsRoom : ℕ → ℕ → ℕ → MmapEntry → Type 0
IsRoom min_addr size a entry =
    (entry.type ≡ 1)
    × (min_addr ≤ a)
    × (entry.base_addr ≤ a)
    × (a + size ≤ entry.base_addr + entry.length)
    × (a % 4096 ≡ 0)

Verdict : ℕ → ℕ → MmapEntry → Option ℕ → Type 0
Verdict min_addr size entry none = (a : ℕ) → ¬ IsRoom min_addr size a entry
Verdict min_addr size entry (some a) = IsRoom min_addr size a entry

place_kernel-Verdict :
    (min_addr size base length : ℕ) (entry : MmapEntry)
    → entry.type ≡ 1
    → base + length ≡ entry.base_addr + entry.length
    → min_addr ≤ base
    → entry.base_addr ≤ base
    → (base ≡ min_addr) ⊎ (base ≡ entry.base_addr)
    → IsWhole entry
    → Verdict min_addr size entry (place_kernel size base length)
unfolding Verdict
place_kernel-Verdict min_addr size base length entry usable end above inside begins whole =
    let e = place_kernel_lem size base length (omega (arith, end)) (omega (arith, end)) in
    elim (Bool-cases (leb (round_up base + size) (base + length))) [
      | inl fits ↦ rw (e, fits) (ground arith)
      | inr full ↦ rw (e, full) (λ a room. ground arith)
    ]

try_entry-Verdict :
    (min_addr size : ℕ) (entry : MmapEntry)
    → min_addr < 2 ^ 31
    → IsWhole entry
    → Verdict min_addr size entry (try_entry min_addr size entry)
unfolding try_entry Verdict as_int
try_entry-Verdict min_addr size entry small whole = elim (Bool-cases (entry.type == 1)) [
  | inr other ↦ rw other (λ a room. ground arith)
  | inl usable ↦ elim (Bool-cases (ltb entry.base_addr min_addr)) [
    | inr above ↦
        rw (usable, above)
          (place_kernel-Verdict min_addr size entry.base_addr entry.length entry (ground arith) refl
            (ground arith) (omega arith) (inr refl) whole)
    | inl below ↦
        let diff : as_int (min_addr - entry.base_addr) ≡ min_addr - entry.base_addr =
          ground arith in
        elim (Bool-cases (ltb entry.length (min_addr - entry.base_addr))) [
          | inl short ↦ rw (usable, below, diff, short) (λ a room. ground arith)
          | inr long ↦
              let base : u64 (entry.base_addr + (min_addr - entry.base_addr)) ≡ min_addr =
                ground arith in
              rw (usable, below, diff, long, base)
                (place_kernel-Verdict min_addr size min_addr
                  (entry.length - (min_addr - entry.base_addr)) entry (ground arith) (ground arith)
                  (omega arith) (ground arith) (inl refl) whole)
        ]
  ]
]

-- Room in one of the entries.
abbrev pub IsRoomIn : ℕ → ℕ → ℕ → List MmapEntry → Type 0
IsRoomIn min_addr size a [] = ⊥
IsRoomIn min_addr size a (entry ∷ es) = IsRoom min_addr size a entry ⊎ IsRoomIn min_addr size a es

-- What is found: nothing, as no entry has room, or room in one.
abbrev Outcome : ℕ → ℕ → List MmapEntry → ℕ → Type 0
Outcome min_addr size es r =
    ((r ≡ 0) × All (λ entry. (a : ℕ) → ¬ IsRoom min_addr size a entry) es)
    ⊎ ((r ≢ 0) × IsRoomIn min_addr size r es)

-- With an address min_addr that is not 0 and below 2^31, and entries that lie below 2^32 and end
-- with a page: find_elf64_phys_origin either returns 0, and then no usable entry has room of the
-- size from a page at min_addr or behind it; or it returns the address of such a page.
pub find_elf64_phys_origin-IsRoomIn :
    (min_addr size : ℕ) (es : List MmapEntry)
    → 0 < min_addr
    → min_addr < 2 ^ 31
    → All IsWhole es
    → let r = find_elf64_phys_origin min_addr size es in
      ((r ≡ 0) × All (λ entry. (a : ℕ) → ¬ IsRoom min_addr size a entry) es)
      ⊎ ((r ≢ 0) × IsRoomIn min_addr size r es)
unfolding find_elf64_phys_origin Verdict
find_elf64_phys_origin-IsRoomIn min_addr size [] some_min small whole = inl (refl, tt)
find_elf64_phys_origin-IsRoomIn min_addr size (entry ∷ es) some_min small whole =
    let verdict = try_entry-Verdict min_addr size entry small whole.0 in
    let outcome = Outcome min_addr size (entry ∷ es) in
    elim (Option-cases (try_entry min_addr size entry)) [
      | inr (a, found) ↦
          let room : IsRoom min_addr size a entry =
            subst (Verdict min_addr size entry) found verdict in
          let step : find_elf64_phys_origin min_addr size (entry ∷ es) ≡ a =
            rw (find_elf64_phys_origin, found) refl in
          subst outcome (sym step) (inr (omega (arith, room.1), inl room))
      | inl gone ↦
          let full : (a : ℕ) → ¬ IsRoom min_addr size a entry =
            subst (Verdict min_addr size entry) gone verdict in
          let step : find_elf64_phys_origin min_addr size (entry ∷ es)
              ≡ find_elf64_phys_origin min_addr size es =
            rw (find_elf64_phys_origin, gone) refl in
          subst outcome (sym step)
            (elim (find_elf64_phys_origin-IsRoomIn min_addr size es some_min small whole.1) [
              | inl (zeros, rest) ↦ inl (zeros, (full, rest))
              | inr (found, room) ↦ inr (found, inr room)
            ])
    ]
