-- ===== src/Boot/Rounds.antt =====
-- The rounds of the loop of check_memory_bounds in common_boot.c.
use gapxos.Base.{
  ℕ, suc, ◌+◌, ◌-◌, ◌^◌, ◌≤◌, ◌<◌, ◌≡◌, subst, some, List, ◌⊎◌, inl, inr, arith, compare-cases,
}
use gapxos.Pmm.{MemoryRange, u64}
use gapxos.Boot.{check_from}
use gapxos.Boot.Area.{IsClear, EndsSome, Hit}
use gapxos.Boot.Block.{IsFree, IsFound}

-- The loop's variables: all bytes from ptr - count to ptr are clear, but for the first of them,
-- where the loop may have jumped to; and no block that is free stands before it.
pub record IsScan (base top req : ℕ) (unsafe : List MemoryRange) (ptr count : ℕ) : Type 0 where
  pub lower : base + count ≤ ptr
  pub wanted : count ≤ req
  pub clear : (x : ℕ) → ptr < x + count → x < ptr → IsClear unsafe x
  pub first : (at : ℕ) → at + count ≡ ptr → (count ≡ 0) ⊎ IsClear unsafe at ⊎ EndsSome at unsafe
  pub least : (at : ℕ) → IsFree base top req unsafe at → ptr ≤ at + count

pub scan-stops :
    (base top req : ℕ) (unsafe : List MemoryRange) (ptr count : ℕ)
    → ptr < top
    → top < 2 ^ 64
    → req ≤ count
    → IsScan base top req unsafe ptr count
    → IsFound base top req unsafe (u64 (ptr + (2 ^ 64 - count)))
scan-stops base top req unsafe ptr count more small enough s =
    let all : count ≡ req = omega (arith, s.wanted) in
    let r : u64 (ptr + (2 ^ 64 - count)) ≡ ptr - count = omega (arith, s.lower) in
    rw r (record {
      lower = omega (arith, s.lower);
      upper = omega (arith, s.lower);
      clear = λ x above below. s.clear x (omega (arith, s.lower)) (omega (arith, s.lower));
      first = elim (s.first (ptr - count) (omega (arith, s.lower))) [
        | inl start ↦ inl (omega arith)
        | inr clear ↦ inr clear
      ];
      least = λ at free. omega (arith, s.least at free);
    })

pub scan-ends :
    (base top req : ℕ) (unsafe : List MemoryRange) (ptr count : ℕ)
    → top ≤ ptr
    → IsScan base top req unsafe ptr count
    → (at : ℕ) → ¬ IsFree base top req unsafe at
scan-ends base top req unsafe ptr count past s at free =
    omega (arith, s.least at free, free.upper, s.wanted)

pub IsScan-steps :
    (base top req : ℕ) (unsafe : List MemoryRange) (ptr count : ℕ)
    → IsClear unsafe ptr
    → count < req
    → IsScan base top req unsafe ptr count
    → IsScan base top req unsafe (ptr + 1) (count + 1)
IsScan-steps base top req unsafe ptr count clear short s = record {
  lower = omega (arith, s.lower);
  wanted = omega arith;
  clear = λ x above below. elim (compare-cases x ptr) [
    | inl (o, l) ↦ s.clear x (omega arith) l
    | inr (inl (o, same)) ↦ rw same clear
    | inr (inr (o, l)) ↦ absurd (omega arith)
  ];
  first = λ at same. elim (s.first at (omega arith)) [
    | inl start ↦ let here : at ≡ ptr = omega arith in inr (inl (rw here clear))
    | inr before ↦ inr before
  ];
  least = λ at free. omega (arith, s.least at free);
}

pub IsScan-jumps :
    (base top req : ℕ) (unsafe : List MemoryRange) (ptr count end : ℕ)
    → Hit unsafe ptr end
    → count < req
    → IsScan base top req unsafe ptr count
    → IsScan base top req unsafe (end + 1) 1
IsScan-jumps base top req unsafe ptr count end hit short s = record {
  lower = omega (arith, s.lower, hit.ahead);
  wanted = omega arith;
  clear = λ x above below. absurd (omega arith);
  first = λ at same. inr (inr (subst (λ z. EndsSome z unsafe) (omega arith) hit.ends));
  least = λ at free. elim (compare-cases at end) [
    | inl (o, l) ↦ absurd (elim (compare-cases at ptr) [
      | inr (inr (q, k)) ↦
          hit.blocked at (omega arith) l (free.clear at (omega arith) (omega arith))
      | inl (q, k) ↦
          hit.blocked ptr (omega arith) hit.ahead
            (free.clear ptr (omega arith) (omega (arith, s.least at free)))
      | inr (inl (q, k)) ↦
          hit.blocked ptr (omega arith) hit.ahead
            (free.clear ptr (omega arith) (omega (arith, s.least at free)))
    ])
    | inr (inl (o, l)) ↦ omega arith
    | inr (inr (o, l)) ↦ omega arith
  ];
}

pub u64_small : (x : ℕ) → x < 2 ^ 64 → u64 x ≡ x
u64_small x small = omega arith

pub check_from-stop :
    (fuel top req : ℕ) (unsafe : List MemoryRange) (ptr count : ℕ)
    → ptr < top
    → req ≤ count
    → check_from (suc fuel) top req unsafe ptr count ≡ some (u64 (ptr + (2 ^ 64 - count)))
unfolding check_from
check_from-stop fuel top req unsafe ptr count more enough = ground arith

pub check_from-end :
    (fuel top req : ℕ) (unsafe : List MemoryRange) (ptr count : ℕ)
    → top ≤ ptr
    → check_from (suc fuel) top req unsafe ptr count ≡ some 0
unfolding check_from
check_from-end fuel top req unsafe ptr count past = ground arith
