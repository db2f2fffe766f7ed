-- ===== src/Heap/Chain.antt =====
-- The lists of blocks of heap.c, as chains of headers that stand for a list of cells.
use gapxos.Base.{
  ℕ, zero, suc, ◌<◌, ◌≡◌, ◌≢◌, refl, arith, true, false, Option, some, List, [], ◌∷◌, ◌++◌, length,
  All, ltb, ◌==◌, inl, inr, ◌⊎◌, Bool-cases,
}
use gapxos.Heap.{Block, Heap, Slot, block_next, at, read, find_block, find_slot}

-- A block: the address of its header, and its length.
pub record Cell : Type 0 where
  pub addr : ℕ
  pub length : ℕ

abbrev pub head_of : List Cell → ℕ
head_of [] = 0
head_of (c ∷ cs) = c.addr

-- The header of a cell of a page, with the cells that follow.
abbrev pub header_of : ℕ → Cell → List Cell → Block
header_of page c cs = record { next = head_of cs; pghdr = page; length = c.length }

abbrev pub IsChain : (ℕ → Option Block) → ℕ → List Cell → Type 0
IsChain blocks page [] = Unit {0}
IsChain blocks page (c ∷ cs) =
    (c.addr ≢ 0) × (blocks c.addr ≡ some (header_of page c cs)) × IsChain blocks page cs

-- The headers of two heaps agree at a cell.
abbrev pub IsSame : (ℕ → Option Block) → (ℕ → Option Block) → Cell → Type 0
IsSame blocks blocks' c = blocks' c.addr ≡ blocks c.addr

pub IsChain-frame :
    (blocks blocks' : ℕ → Option Block) (page : ℕ) (cs : List Cell)
    → All (IsSame blocks blocks') cs
    → IsChain blocks page cs
    → IsChain blocks' page cs
IsChain-frame blocks blocks' page [] same chain = tt
IsChain-frame blocks blocks' page (c ∷ cs) same chain =
    (chain.0, rw same.0 chain.1, IsChain-frame blocks blocks' page cs same.1 chain.2)

-- A cell gets another length.
pub IsChain-resize :
    (blocks blocks' : ℕ → Option Block) (page : ℕ) (before : List Cell) (c : Cell)
    (after : List Cell) (n : ℕ)
    → All (IsSame blocks blocks') before
    → All (IsSame blocks blocks') after
    → blocks' c.addr ≡ some (record { next = head_of after; pghdr = page; length = n })
    → IsChain blocks page (before ++ c ∷ after)
    → IsChain blocks' page (before ++ record { addr = c.addr; length = n } ∷ after)
IsChain-resize blocks blocks' page [] c after n sb sa e chain =
    (chain.0, e, IsChain-frame blocks blocks' page after sa chain.2)
IsChain-resize blocks blocks' page (b ∷ []) c after n sb sa e chain =
    (chain.0, rw sb.0 chain.1, IsChain-resize blocks blocks' page [] c after n tt sa e chain.2)
IsChain-resize blocks blocks' page (b ∷ (d ∷ before)) c after n sb sa e chain = (
  chain.0,
  rw sb.0 chain.1,
  IsChain-resize blocks blocks' page (d ∷ before) c after n sb.1 sa e chain.2,
)

pub head_of-resize :
    (before : List Cell) (c : Cell) (n : ℕ) (after : List Cell)
    → head_of (before ++ c ∷ after)
      ≡ head_of (before ++ record { addr = c.addr; length = n } ∷ after)
head_of-resize [] c n after = refl
head_of-resize (b ∷ before) c n after = refl

pub IsChain-right :
    (blocks : ℕ → Option Block) (page : ℕ) (before after : List Cell)
    → IsChain blocks page (before ++ after)
    → IsChain blocks page after
IsChain-right blocks page [] after chain = chain
IsChain-right blocks page (b ∷ before) after chain = IsChain-right blocks page before after chain.2

-- The place that holds the pointer behind the cells.
abbrev pub last_slot : Slot → List Cell → Slot
last_slot s [] = s
last_slot s (c ∷ cs) = last_slot (block_next c.addr) cs

pub at-some :
    {A : Type 0} (f : ℕ → Option A) (p : ℕ) (x : A) → p ≢ 0 → f p ≡ some x → at f p ≡ some x
unfolding at
at-some f p x some_p e = let there : (p == 0) ≡ false = ground arith in rw (there, e) refl

module _ {S : Type 0} (h : Heap S) (page : ℕ) where
  pub at-cell :
      (c : Cell) (cs : List Cell)
      → IsChain h.blocks page (c ∷ cs)
      → at h.blocks c.addr ≡ some (header_of page c cs)
  unfolding at
  at-cell c cs chain = let there : (c.addr == 0) ≡ false = ground arith in rw (there, chain.1) refl

  pub read-next :
      (c : Cell) (cs : List Cell)
      → IsChain h.blocks page (c ∷ cs)
      → read (block_next c.addr) h ≡ some (head_of cs)
  unfolding read
  read-next c cs chain = rw (at-cell c cs chain) refl

  -- The loop for the end of a list.
  pub find_slot-end :
      (fuel : ℕ) (s : Slot) (cs : List Cell)
      → length cs < fuel
      → read s h ≡ some (head_of cs)
      → IsChain h.blocks page cs
      → find_slot fuel 0 s h ≡ some (last_slot s cs)
  unfolding find_slot
  find_slot-end zero s cs enough e chain = absurd (omega arith)
  find_slot-end (suc fuel) s [] enough e chain = rw (find_slot, e) refl
  find_slot-end (suc fuel) s (c ∷ cs) enough e chain =
      let there : (c.addr == 0) ≡ false = ground arith in
      rw (find_slot, e, there, there)
        (find_slot-end fuel (block_next c.addr) cs (omega arith) (read-next c cs chain) chain.2)

  -- The loop for a block of a list.
  pub find_slot-cell :
      (fuel : ℕ) (s : Slot) (before : List Cell) (c : Cell) (after : List Cell)
      → length before < fuel
      → All (λ b. b.addr ≢ c.addr) before
      → read s h ≡ some (head_of (before ++ c ∷ after))
      → IsChain h.blocks page (before ++ c ∷ after)
      → find_slot fuel c.addr s h ≡ some (last_slot s before)
  unfolding find_slot
  find_slot-cell zero s before c after enough others e chain = absurd (omega arith)
  find_slot-cell (suc fuel) s [] c after enough others e chain =
      let here : (c.addr == c.addr) ≡ true = ground arith in rw (find_slot, e, here) refl
  find_slot-cell (suc fuel) s (b ∷ before) c after enough others e chain =
      let there : (b.addr == 0) ≡ false = ground arith in
      let other : (b.addr == c.addr) ≡ false = ground (arith, others.0) in
      rw (find_slot, e, other, there)
        (find_slot-cell fuel (block_next b.addr) before c after (omega arith) others.1
          (read-next b (before ++ c ∷ after) chain) chain.2)

  -- The search in one list.
  abbrev pub Found : ℕ → List Cell → Option ℕ → Type 0
  Found size cs r =
      ((before : List Cell) × (c : Cell) × (after : List Cell) × (cs ≡ before ++ c ∷ after)
        × (size < c.length)
        × (r ≡ some c.addr))
      ⊎ (All (λ c. ltb size c.length ≡ false) cs × (r ≡ some 0))

  pub find_block-Found :
      (fuel size : ℕ) (cs : List Cell)
      → length cs < fuel
      → IsChain h.blocks page cs
      → Found size cs (find_block fuel size (head_of cs) h)
  unfolding find_block
  find_block-Found zero size cs enough chain = absurd (omega arith)
  find_block-Found (suc fuel) size [] enough chain = inr (tt, refl)
  find_block-Found (suc fuel) size (c ∷ cs) enough chain =
      let there : (c.addr == 0) ≡ false = ground arith in
      elim (Bool-cases (ltb size c.length)) [
        | inl fits ↦
            inl
              ([], c, cs, refl, ground arith, rw (find_block, there, at-cell c cs chain, fits) refl)
        | inr small ↦
            let step = find_block-Found fuel size cs (omega arith) chain.2 in
            elim step [
              | inl (before, d, after, e, fits, r) ↦ inl (
                c ∷ before,
                d,
                after,
                rw e refl,
                fits,
                rw (find_block, there, at-cell c cs chain, small) r,
              )
              | inr (all, r) ↦
                  inr ((small, all), rw (find_block, there, at-cell c cs chain, small) r)
            ]
      ]
