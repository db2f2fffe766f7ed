-- ===== src/Boot/Bounds.antt =====
-- check_memory_bounds of common_boot.c returns the first block that is clear of the given areas.
use gapxos.Base.{
  ℕ, zero, suc, ◌+◌, ◌-◌, ◌^◌, ◌≤◌, ◌<◌, ◌≡◌, refl, subst, true, some, List, [], ◌∷◌, inl, inr,
  arith, leb, compare-cases, Bool-cases, Option-cases, All,
}
use gapxos.Pmm.{MemoryRange, u64, is_in_range}
use gapxos.Boot.{area_end, check_from, check_memory_bounds}
use gapxos.Boot.Area.{IsLowEnd, area_end-none, area_end-Hit}
use gapxos.Boot.Block.{IsFree, Outcome}
use gapxos.Boot.Rounds.{
  IsScan, scan-stops, scan-ends, IsScan-steps, IsScan-jumps, u64_small, check_from-stop,
  check_from-end,
}

-- With fuel for every byte that is left, the loop comes to one of its returns.
scan-Outcome :
    (fuel base top req : ℕ) (unsafe : List MemoryRange) (ptr count : ℕ)
    → top < 2 ^ 64
    → All IsLowEnd unsafe
    → top < ptr + fuel
    → 0 < fuel
    → IsScan base top req unsafe ptr count
    → (r : ℕ) × (check_from fuel top req unsafe ptr count ≡ some r) × Outcome base top req unsafe r
unfolding check_from
scan-Outcome zero base top req unsafe ptr count small low many some_left s = absurd (omega arith)
scan-Outcome (suc fuel) base top req unsafe ptr count small low many some_left s =
    elim (compare-cases ptr top) [
      | inl (o, more) ↦ elim (Bool-cases (leb req count)) [
        | inl enough ↦ (
          _,
          check_from-stop fuel top req unsafe ptr count more (ground arith),
          inl (scan-stops base top req unsafe ptr count more small (ground arith) s),
        )
        | inr less ↦
            let short : count < req = ground arith in
            elim (Option-cases (area_end ptr unsafe)) [
              | inl e ↦
                  let step : IsScan base top req unsafe (u64 (ptr + 1)) (u64 (count + 1)) =
                    rw
                      (
                        u64_small (ptr + 1) (omega arith),
                        u64_small (count + 1) (omega (arith, s.lower)),
                      )
                      (IsScan-steps base top req unsafe ptr count (area_end-none ptr unsafe e) short
                        s) in
                  let next : u64 (ptr + 1) ≡ ptr + 1 = u64_small (ptr + 1) (omega arith) in
                  rw (o, less, e, check_from)
                    (scan-Outcome fuel base top req unsafe (u64 (ptr + 1)) (u64 (count + 1)) small
                      low (rw next (omega arith)) (omega arith) step)
              | inr (end, e) ↦
                  let hit = area_end-Hit ptr end unsafe low e in
                  let next : u64 (end + 1) ≡ end + 1 = u64_small (end + 1) hit.low in
                  let jump : IsScan base top req unsafe (u64 (end + 1)) 1 =
                    rw next (IsScan-jumps base top req unsafe ptr count end hit short s) in
                  rw (o, less, e, check_from)
                    (scan-Outcome fuel base top req unsafe (u64 (end + 1)) 1 small low
                      (rw next (omega (arith, hit.ahead))) (omega arith) jump)
            ]
      ]
      | inr past ↦
          let done : top ≤ ptr = ground arith in
          (
            0,
            check_from-end fuel top req unsafe ptr count done,
            inr (refl, scan-ends base top req unsafe ptr count done s),
          )
    ]

-- For a block of memory and areas that end before the last byte of the address space:
-- check_memory_bounds returns. It returns a block of req_size bytes inside the given one, at
-- whose end at least one byte is left; no byte of it lies behind the first byte of an area and
-- before the area's end, but perhaps the first one, and that only if an area ends there; and no
-- block that is clear altogether stands before it. Or it returns 0, and there is no clear block.
pub check_memory_bounds-Outcome :
    (base len req_size : ℕ) (unsafe : List MemoryRange)
    → base + len < 2 ^ 64
    → All IsLowEnd unsafe
    → (r : ℕ) × (check_memory_bounds base len req_size unsafe ≡ some r)
      × Outcome base (base + len) req_size unsafe r
unfolding check_memory_bounds
check_memory_bounds-Outcome base len req unsafe small low = rw (u64_small (base + len) small) (
    scan-Outcome (len + 1) base (base + len) req unsafe base 0 small low (omega arith) (omega arith)
      (record {
        lower = omega arith;
        wanted = omega arith;
        clear = λ x above below. absurd (omega arith);
        first = λ at same. inl refl;
        least = λ at free. omega (arith, free.lower);
      }))

-- An area whose first byte is the last one of the first block of the wanted size does not keep
-- check_memory_bounds from returning that block, though pmm_init takes that byte for reserved.
pub check_memory_bounds_overlap :
    (base len req_size end : ℕ)
    → base + len < 2 ^ 64
    → req_size < len
    → 0 < req_size
    → base + req_size ≤ end
    → end + 1 < 2 ^ 64
    → (check_memory_bounds base len req_size
          (record { start = base + req_size - 1; end = end } ∷ [])
        ≡ some base)
      × (is_in_range (base + req_size - 1) (record { start = base + req_size - 1; end = end })
          ≡ true)
unfolding is_in_range
check_memory_bounds_overlap base len req end small room some_bytes behind low =
    let area : MemoryRange = record { start = base + req - 1; end = end } in
    let (r, e, outcome) = check_memory_bounds-Outcome base len req (area ∷ []) small (low, tt) in
    let free : IsFree base (base + len) req (area ∷ []) base = record {
      lower = omega arith;
      upper = omega arith;
      clear = λ x above below. (λ w. omega (arith, w.0), tt);
    } in
    let same : r ≡ base = elim outcome [
      | inl found ↦ omega (arith, found.lower, found.least base free)
      | inr nowhere ↦ absurd (nowhere.1 base free)
    ] in
    (subst (λ z. check_memory_bounds base len req (area ∷ []) ≡ some z) same e, ground arith)
