-- ===== src/Base/Bytes.antt =====
-- Little-endian words in a memory of bytes, and bytes that stand in it in order.
use Prim.Native.Nat.{ℕ, ◌+◌, ◌*◌, ◌/◌, ◌%◌, ◌^◌, ◌<◌, zero, suc}
use mathlib.Core.Path.{◌≡◌, subst}
use mathlib.Core.Option.{some}
use native.Mathlib.Omega.{arith}
use gapxos.Base.Lists.{get_elem?, length}
use mathlib.Core.List.{List, [], ◌∷◌, ◌++◌}

abbrev pub load16 : (ℕ → ℕ) → ℕ → ℕ
load16 memory a = memory a + 2 ^ 8 * memory (a + 1)

abbrev pub load32 : (ℕ → ℕ) → ℕ → ℕ
load32 memory a = load16 memory a + 2 ^ 16 * load16 memory (a + 2)

abbrev pub load64 : (ℕ → ℕ) → ℕ → ℕ
load64 memory a = load32 memory a + 2 ^ 32 * load32 memory (a + 4)

abbrev pub bytes16 : ℕ → List ℕ
bytes16 v = v % 2 ^ 8 ∷ v / 2 ^ 8 % 2 ^ 8 ∷ []

abbrev pub bytes32 : ℕ → List ℕ
bytes32 v = v % 2 ^ 8 ∷ v / 2 ^ 8 % 2 ^ 8 ∷ v / 2 ^ 16 % 2 ^ 8 ∷ v / 2 ^ 24 % 2 ^ 8 ∷ []

-- The bytes stand in memory from the address on.
abbrev pub Stored : (ℕ → ℕ) → ℕ → List ℕ → Type 0
Stored memory a [] = Unit {0}
Stored memory a (b ∷ bs) = (memory a ≡ b) × Stored memory (a + 1) bs

pub Stored-get_elem? :
    (memory : ℕ → ℕ) (a : ℕ) (bs : List ℕ) (k b : ℕ)
    → Stored memory a bs
    → get_elem? bs k ≡ some b
    → memory (a + k) ≡ b
Stored-get_elem? memory a [] k b h e = ground arith
Stored-get_elem? memory a (x ∷ xs) zero b h e =
    let here : a + 0 ≡ a = omega arith in rw here (ground arith)
Stored-get_elem? memory a (x ∷ xs) (suc k) b h e =
    let shifted : a + suc k ≡ a + 1 + k = omega arith in
    rw shifted (Stored-get_elem? memory (a + 1) xs k b h.1 e)

pub Stored-append_left :
    (memory : ℕ → ℕ) (a : ℕ) (xs ys : List ℕ) → Stored memory a (xs ++ ys) → Stored memory a xs
Stored-append_left memory a [] ys h = tt
Stored-append_left memory a (x ∷ xs) ys h = (h.0, Stored-append_left memory (a + 1) xs ys h.1)

pub Stored-append_right :
    (memory : ℕ → ℕ) (a : ℕ) (xs ys : List ℕ)
    → Stored memory a (xs ++ ys)
    → Stored memory (a + length xs) ys
Stored-append_right memory a [] ys h = let here : a + 0 ≡ a = omega arith in rw here h
Stored-append_right memory a (x ∷ xs) ys h =
    let shifted : a + suc (length xs) ≡ a + 1 + length xs = omega arith in
    rw shifted (Stored-append_right memory (a + 1) xs ys h.1)

-- Words whose bytes stand at an offset.
module _ (memory : ℕ → ℕ) (a k v : ℕ) (bs : List ℕ) (stored : Stored memory a bs) where
  abbrev IsByte : ℕ → ℕ → Type 0
  IsByte i b = get_elem? bs i ≡ some b

  at : (i b : ℕ) → IsByte (k + i) b → memory (a + k + i) ≡ b
  at i b e =
      let moved : a + k + i ≡ a + (k + i) = omega arith in
      rw moved (Stored-get_elem? memory a bs (k + i) b stored e)

  pub load16-Stored :
      v < 2 ^ 16
      → IsByte (k + 0) (v % 2 ^ 8)
      → IsByte (k + 1) (v / 2 ^ 8 % 2 ^ 8)
      → load16 memory (a + k) ≡ v
  load16-Stored small e0 e1 =
      let b0 = at 0 (v % 2 ^ 8) e0 in
      let b1 = at 1 (v / 2 ^ 8 % 2 ^ 8) e1 in
      let here : a + k + 0 ≡ a + k = omega arith in
      let c0 = subst (λ z. memory z ≡ v % 2 ^ 8) here b0 in omega (arith, c0, b1)

  pub load32-Stored :
      v < 2 ^ 32
      → IsByte (k + 0) (v % 2 ^ 8)
      → IsByte (k + 1) (v / 2 ^ 8 % 2 ^ 8)
      → IsByte (k + 2) (v / 2 ^ 16 % 2 ^ 8)
      → IsByte (k + 3) (v / 2 ^ 24 % 2 ^ 8)
      → load32 memory (a + k) ≡ v
  load32-Stored small e0 e1 e2 e3 =
      let here : a + k + 0 ≡ a + k = omega arith in
      let third : a + k + 3 ≡ a + k + 2 + 1 = omega arith in
      let c0 = subst (λ z. memory z ≡ v % 2 ^ 8) here (at 0 (v % 2 ^ 8) e0) in
      let c1 = at 1 (v / 2 ^ 8 % 2 ^ 8) e1 in
      let c2 = at 2 (v / 2 ^ 16 % 2 ^ 8) e2 in
      let c3 = subst (λ z. memory z ≡ v / 2 ^ 24 % 2 ^ 8) third (at 3 (v / 2 ^ 24 % 2 ^ 8) e3) in
      omega (arith, c0, c1, c2, c3)
