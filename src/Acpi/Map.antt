-- ===== src/Acpi/Map.antt =====
-- _mmap_table of acpi.c, by the checksum and the length of the table.
use gapxos.Base.{
  ℕ, ◌+◌, ◌-◌, ◌*◌, ◌/◌, ◌%◌, ◌^◌, ◌≤◌, ◌<◌, ◌≡◌, refl, subst, arith, true, false, Option, some,
  ltb, ◌==◌, inl, inr, Bool-cases, ◌>>=◌,
}
use native.Mathlib.Decide.{ℕ_discrete}
use gapxos.Pmm.{u64}
use gapxos.Acpi.{Mapper, length_at, map_again, mmap_table}
use gapxos.Acpi.Read.{word_at, sum_at, Visible, Visible-part, validate_checksum-at}

-- The field length of the table at a physical address.
abbrev pub length_of : (ℕ → ℕ) → ℕ → ℕ
length_of phys p = word_at phys 4 (p + length_at)

-- The bytes of the table add up to 0.
abbrev pub IsRight : (ℕ → ℕ) → ℕ → Type 0
IsRight phys p = sum_at phys (length_of phys p) p 0 ≡ 0

module _ {S : Type 0} (mapper : Mapper S) (phys : ℕ → ℕ) (p v : ℕ) (s1 : S) where
  -- The outcomes for the table at p, behind the first call of map_memory, which gave the address v
  -- and the state s1.
  pub data Mapped : Option (ℕ × S) → Type 0 where
    refused :
        {r : Option (ℕ × S)}
        → ¬ IsRight phys p
        → r ≡ (do s2 ← mapper.free_pages v s1; some (0, s2))
        → Mapped r
    in_place :
        {r : Option (ℕ × S)}
        → IsRight phys p
        → p % 4096 + length_of phys p ≤ 4096
        → r ≡ some (v + p % 4096, s1)
        → Mapped r
    mapped_again :
        {r : Option (ℕ × S)} (n : ℕ)
        → IsRight phys p
        → 4096 < p % 4096 + length_of phys p
        → p % 4096 + length_of phys p ≤ n * 4096
        → n ≤ 4
        → r ≡ (do
          s2 ← mapper.free_pages v s1
          (w, s3) ← mapper.map_memory (p - p % 4096) n s2
          some ((w + p % 4096) % 2 ^ 64, s3))
        → Mapped r

  -- Where map_memory has mapped the two pages from the one with the table on, below the end of the
  -- address space, and the table ends in these pages: _mmap_table gives the pages back and returns
  -- NULL if the bytes of the table do not add up to 0; else it returns the place of the table in
  -- these pages if it ends in the first one; and else gives them back, maps enough pages for the
  -- table, four at most, and returns its place there.
  pub mmap_table-Mapped :
      (s : S)
      → mapper.map_memory (p - p % 4096) 2 s ≡ some (v, s1)
      → Visible mapper phys s1 v (p - p % 4096) 8192
      → v + 8192 ≤ 2 ^ 64
      → p % 4096 + length_of phys p ≤ 8192
      → Mapped (mmap_table mapper p s)
  unfolding mmap_table map_again
  mmap_table-Mapped s gives shown low near =
      let length = length_of phys p in
      let hdr_low : u64 (v + p % 4096) ≡ v + p % 4096 = omega arith in
      let place : p - p % 4096 + p % 4096 ≡ p = omega arith in
      let part = λ (k : ℕ) (fits : p % 4096 + k ≤ 8192).
        subst (λ z. Visible mapper phys s1 (v + p % 4096) z k) place
          (Visible-part mapper phys s1 v (p - p % 4096) 8192 (p % 4096) k fits shown) in
      let (summed, read) =
        validate_checksum-at mapper phys s1 (v + p % 4096) p (part 8 (omega arith))
          (part length near) in
      elim (ℕ_discrete (sum_at phys length p 0) 0) [
        | no wrong ↦
            let bad : (sum_at phys length p 0 == 0) ≡ false = ground (arith, wrong) in
            refused wrong (rw gives (rw hdr_low (rw (summed, bad, read) refl)))
        | yes right ↦
            let good : (sum_at phys length p 0 == 0) ≡ true = ground (arith, right) in
            elim (Bool-cases (ltb (4096 - p % 4096) length)) [
              | inr small ↦
                  in_place right (ground (arith, small))
                    (rw gives (rw hdr_low (rw (summed, good, read, small) refl)))
              | inl large ↦
                  let len = (length + (4096 - length % 4096)) % 2 ^ 32 in
                  mapped_again (len / 4096 + 1) right (ground (arith, large)) (omega (arith, near))
                    (omega (arith, near))
                    (rw gives (rw hdr_low (rw (summed, good, read, large) refl)))
            ]
      ]
