-- ===== src/Boot/Area.antt =====
-- The areas that check_memory_bounds of common_boot.c keeps clear of, and its loop over them.
use gapxos.Base.{
  ℕ, ◌+◌, ◌^◌, ◌≤◌, ◌<◌, ◌≡◌, sym, true, false, none, some, List, [], ◌∷◌, ◌⊎◌, inl, inr, arith,
  ltb, ◌&&◌, compare-cases, All,
}
use gapxos.Pmm.{MemoryRange}
use gapxos.Boot.{area_end}

-- The address lies behind the first byte of the area and before its end.
abbrev pub IsWithin : ℕ → MemoryRange → Type 0
IsWithin x area = (area.start < x) × (x < area.end)

abbrev pub IsClear : List MemoryRange → ℕ → Type 0
IsClear unsafe x = All (λ area. ¬ IsWithin x area) unsafe

-- One of the areas ends at the address.
abbrev pub EndsSome : ℕ → List MemoryRange → Type 0
EndsSome x [] = ⊥
EndsSome x (area ∷ areas) = (x ≡ area.end) ⊎ EndsSome x areas

-- No area ends at the last byte of the address space.
abbrev pub IsLowEnd : MemoryRange → Type 0
IsLowEnd area = area.end + 1 < 2 ^ 64

-- What a hit of the inner loop says of the address it jumps to.
pub record Hit (unsafe : List MemoryRange) (ptr end : ℕ) : Type 0 where
  pub ahead : ptr < end
  pub low : end + 1 < 2 ^ 64
  pub ends : EndsSome end unsafe
  pub blocked : (x : ℕ) → ptr ≤ x → x < end → ¬ IsClear unsafe x

IsWithin-cases :
    (ptr : ℕ) (area : MemoryRange)
    → ((ltb area.start ptr && ltb ptr area.end ≡ true) × IsWithin ptr area)
      ⊎ ((ltb area.start ptr && ltb ptr area.end ≡ false) × (¬ IsWithin ptr area))
IsWithin-cases ptr area = elim (compare-cases area.start ptr) [
  | inl (o, l) ↦ elim (compare-cases ptr area.end) [
    | inl (q, k) ↦ inl (ground arith, (l, k))
    | inr (inl (q, k)) ↦ inr (ground arith, λ w. omega (arith, w.1))
    | inr (inr (q, k)) ↦ inr (ground arith, λ w. omega (arith, w.1))
  ]
  | inr (inl (o, l)) ↦ inr (ground arith, λ w. omega (arith, w.0))
  | inr (inr (o, l)) ↦ inr (ground arith, λ w. omega (arith, w.0))
]

pub area_end-none : (ptr : ℕ) (us : List MemoryRange) → area_end ptr us ≡ none → IsClear us ptr
unfolding area_end
area_end-none ptr [] h = tt
area_end-none ptr (area ∷ us) h = elim (IsWithin-cases ptr area) [
  | inl (hit, w) ↦ ground arith
  | inr (miss, out) ↦ (out, area_end-none ptr us (ground arith))
]

pub area_end-Hit :
    (ptr end : ℕ) (us : List MemoryRange)
    → All IsLowEnd us
    → area_end ptr us ≡ some end
    → Hit us ptr end
unfolding area_end
area_end-Hit ptr end [] low h = ground arith
area_end-Hit ptr end (area ∷ us) low h = elim (IsWithin-cases ptr area) [
  | inl (hit, w) ↦
      let same : end ≡ area.end = ground arith in
      record {
        ahead = rw same (w.1);
        low = rw same (low.0);
        ends = inl same;
        blocked = λ x above below clear. clear.0 (omega (arith, w.0), rw (sym same) below);
      }
  | inr (miss, out) ↦
      let rest = area_end-Hit ptr end us low.1 (ground arith) in
      record {
        ahead = rest.ahead;
        low = rest.low;
        ends = inr rest.ends;
        blocked = λ x above below clear. rest.blocked x above below clear.1;
      }
]
