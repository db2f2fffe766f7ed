-- ===== src/Heap/Merge.antt =====
-- The loop of free in heap.c over the free list.
use gapxos.Base.{
  ℕ, zero, suc, ◌+◌, ◌^◌, ◌<◌, ◌≡◌, ◌≢◌, refl, arith, true, false, some, List, [], ◌∷◌, ◌++◌, All,
  ◌==◌, length,
}
use gapxos.Pmm.{u64}
use gapxos.Heap.{Heap, Slot, block_next, header, at, read, write, store_block, merge_block}
use gapxos.Heap.Apart.{Apart}
use gapxos.Heap.Pages.{IsInside}
use gapxos.Heap.Chain.{Cell, head_of, header_of, IsChain, last_slot, at-cell, read-next}

-- Neither of the two blocks begins where the other ends.
abbrev pub NotNext : Cell → Cell → Type 0
NotNext c d =
    (u64 (d.addr + header + d.length) ≢ c.addr) × (u64 (c.addr + header + c.length) ≢ d.addr)

-- None of the blocks begins where the cell ends.
abbrev pub NoneBehind : Cell → List Cell → Type 0
NoneBehind c = All (λ f. c.addr + header + c.length ≢ f.addr)

pub NotNext-front :
    (p : ℕ) (c d : Cell) (fs : List Cell)
    → p + 4096 < 2 ^ 64
    → IsInside p c
    → d.addr + header + d.length ≡ c.addr
    → All (IsInside p) fs
    → All (Apart d) fs
    → NoneBehind c fs
    → All (NotNext c) fs
NotNext-front p c d [] low inside touches ins apart behind = tt
NotNext-front p c d (f ∷ fs) low inside touches ins apart behind = (
  (ground (arith, inside, touches, ins.0, apart.0), ground (arith, inside, ins.0, behind.0)),
  NotNext-front p c d fs low inside touches ins.1 apart.1 behind.1,
)

module _ {S : Type 0} (h : Heap S) (page : ℕ) (c : Cell) (cs : List Cell)
    (there : at h.blocks c.addr ≡ some (header_of page c cs)) where
  -- No free block is beside it: it is put behind the last one.
  pub merge_block-last :
      (fuel : ℕ) (parent s : Slot) (fs : List Cell)
      → length fs < fuel
      → All (NotNext c) fs
      → read s h ≡ some (head_of fs)
      → IsChain h.blocks page fs
      → merge_block fuel c.addr parent s h ≡ write (last_slot s fs) c.addr h
  unfolding merge_block
  merge_block-last zero parent s fs enough beside e chain = absurd (omega arith)
  merge_block-last (suc fuel) parent s [] enough beside e chain = rw (merge_block, e) refl
  merge_block-last (suc fuel) parent s (f ∷ fs) enough beside e chain =
      let some_f : (f.addr == 0) ≡ false = ground arith in
      let before : (u64 (f.addr + header + f.length) == c.addr) ≡ false =
        ground (arith, beside.0) in
      let behind : (u64 (c.addr + header + c.length) == f.addr) ≡ false =
        ground (arith, beside.0) in
      rw (merge_block, e, some_f, at-cell h page f fs chain, there, before, behind)
        (merge_block-last fuel s (block_next f.addr) fs (omega arith) beside.1
          (read-next h page f fs chain) chain.2)

  -- A free block ends where it begins: this one is widened.
  pub merge_block-wider :
      (fuel : ℕ) (parent s : Slot) (before : List Cell) (d : Cell) (after : List Cell)
      → length before < fuel
      → All (NotNext c) before
      → u64 (d.addr + header + d.length) ≡ c.addr
      → read s h ≡ some (head_of (before ++ d ∷ after))
      → IsChain h.blocks page (before ++ d ∷ after)
      → merge_block fuel c.addr parent s h
        ≡ some (
            store_block d.addr
              (record (header_of page d after) {
                length = u64 (d.length + u64 (c.length + header));
              })
              h)
  unfolding merge_block
  merge_block-wider zero parent s before d after enough beside next e chain = absurd (omega arith)
  merge_block-wider (suc fuel) parent s [] d after enough beside next e chain =
      let some_d : (d.addr == 0) ≡ false = ground arith in
      let here : (u64 (d.addr + header + d.length) == c.addr) ≡ true = ground arith in
      rw (merge_block, e, some_d, at-cell h page d after chain, there, here) refl
  merge_block-wider (suc fuel) parent s (f ∷ before) d after enough beside next e chain =
      let rest = before ++ d ∷ after in
      let some_f : (f.addr == 0) ≡ false = ground arith in
      let front : (u64 (f.addr + header + f.length) == c.addr) ≡ false = ground (arith, beside.0) in
      let behind : (u64 (c.addr + header + c.length) == f.addr) ≡ false =
        ground (arith, beside.0) in
      rw (merge_block, e, some_f, at-cell h page f rest chain, there, front, behind)
        (merge_block-wider fuel s (block_next f.addr) before d after (omega arith) beside.1 next
          (read-next h page f rest chain) chain.2)

-- Neither the block in front of the cell nor the one behind it is among the blocks.
abbrev pub NoneBeside : Cell → List Cell → Type 0
NoneBeside c =
    All (λ f. (f.addr + header + f.length ≢ c.addr) × (c.addr + header + c.length ≢ f.addr))

pub NotNext-beside :
    (p : ℕ) (c : Cell) (fs : List Cell)
    → p + 4096 < 2 ^ 64
    → IsInside p c
    → All (IsInside p) fs
    → NoneBeside c fs
    → All (NotNext c) fs
NotNext-beside p c [] low inside ins beside = tt
NotNext-beside p c (f ∷ fs) low inside ins beside = (
  (ground (arith, inside, ins.0, beside.0), ground (arith, inside, ins.0, beside.0)),
  NotNext-beside p c fs low inside ins.1 beside.1,
)
