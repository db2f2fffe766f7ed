-- ===== src/Gdt/Descriptor.antt =====
-- The encoding of a descriptor in gdt.c.
use gapxos.Base.{
  ℕ, zero, suc, ◌+◌, ◌*◌, ◌/◌, ◌%◌, ◌^◌, ◌<◌, ◌≡◌, refl, Bool, true, false, ltb, ◌==◌,
  if◌then◌else◌, List, [], ◌∷◌, arith, compare-cases, inl, inr,
}
use Prim.Native.Nat.{bit_or}
use gapxos.Gdt.{GdtEntry, is_refused, stored_limit, flags_byte, descriptor}

-- How the processor reads a descriptor of eight bytes.
unfoldable pub base_of : List ℕ → ℕ
base_of (b0 ∷ b1 ∷ b2 ∷ b3 ∷ b4 ∷ b5 ∷ b6 ∷ b7 ∷ []) = b2 + 2 ^ 8 * b3 + 2 ^ 16 * b4 + 2 ^ 24 * b7
base_of _ = 0

unfoldable pub limit_of : List ℕ → ℕ
limit_of (b0 ∷ b1 ∷ b2 ∷ b3 ∷ b4 ∷ b5 ∷ b6 ∷ b7 ∷ []) =
    let field = b0 + 2 ^ 8 * b1 + 2 ^ 16 * (b6 % 16) in
    if b6 / 2 ^ 7 % 2 == 1 then field * 4096 + 4095 else field
limit_of _ = 0

unfoldable pub type_of : List ℕ → ℕ
type_of (b0 ∷ b1 ∷ b2 ∷ b3 ∷ b4 ∷ b5 ∷ rest) = b5
type_of _ = 0

unfoldable pub is_long : List ℕ → Bool
is_long (b0 ∷ b1 ∷ b2 ∷ b3 ∷ b4 ∷ b5 ∷ b6 ∷ rest) = b6 / 2 ^ 5 % 2 == 1
is_long _ = false

-- A test of the nibbles under a bound, by evaluation.
holds_under : (ℕ → Bool) → ℕ → Bool
holds_under test zero = true
holds_under test (suc top) = if test top then holds_under test top else false

holds_under_lem :
    (test : ℕ → Bool) (bound nibble : ℕ)
    → nibble < bound
    → holds_under test bound ≡ true
    → test nibble ≡ true
unfolding holds_under
holds_under_lem test zero nibble below done = absurd (omega arith)
holds_under_lem test (suc top) nibble below done = elim (compare-cases nibble top) [
  | inl (o, further) ↦ holds_under_lem test top nibble further (ground arith)
  | inr (inl (o, same)) ↦ rw same (ground arith)
  | inr (inr (o, past)) ↦ absurd (omega arith)
]

==-eq : (a b : ℕ) → (a == b) ≡ true → a ≡ b
==-eq a b h = ground arith

-- The upper bits and the nibble of the limit do not overlap.
abbrev top_bits : Bool → Bool → ℕ
top_bits code_64 paged =
    let mode = if code_64 then 0x20 else 0x00 in if paged then bit_or mode 0x80 else mode

abbrev top_sum : Bool → Bool → ℕ
top_sum code_64 paged = (if code_64 then 0x20 else 0x00) + (if paged then 0x80 else 0x00)

bit_or-top_bits :
    (code_64 paged : Bool) (n : ℕ)
    → n < 16
    → bit_or (top_bits code_64 paged) n ≡ top_sum code_64 paged + n
unfolding holds_under
bit_or-top_bits true true n less =
    ==-eq _ _ (holds_under_lem (λ m. bit_or 0xa0 m == 0xa0 + m) 16 n less refl)
bit_or-top_bits true false n less =
    ==-eq _ _ (holds_under_lem (λ m. bit_or 0x20 m == 0x20 + m) 16 n less refl)
bit_or-top_bits false true n less =
    ==-eq _ _ (holds_under_lem (λ m. bit_or 0x80 m == 0x80 + m) 16 n less refl)
bit_or-top_bits false false n less =
    ==-eq _ _ (holds_under_lem (λ m. bit_or 0 m == 0 + m) 16 n less refl)

flags_byte_lem :
    (e : GdtEntry) (code_64 : Bool)
    → flags_byte e code_64
      ≡ top_sum code_64 (ltb 65536 e.limit) + stored_limit e.limit / 2 ^ 16 % 16
unfolding flags_byte
flags_byte_lem e code_64 =
    bit_or-top_bits code_64 (ltb 65536 e.limit) (stored_limit e.limit / 2 ^ 16 % 16) (omega arith)

-- The parts of the sum.
flag_bits :
    (code_64 paged : Bool) (n : ℕ)
    → n < 16
    → (((top_sum code_64 paged + n) / 2 ^ 7 % 2 == 1) ≡ paged)
      × ((top_sum code_64 paged + n) % 16 ≡ n)
      × (((top_sum code_64 paged + n) / 2 ^ 5 % 2 == 1) ≡ code_64)
flag_bits true true n less = (ground arith, omega arith, ground arith)
flag_bits true false n less = (ground arith, omega arith, ground arith)
flag_bits false true n less = (ground arith, omega arith, ground arith)
flag_bits false false n less = (ground arith, omega arith, ground arith)

flags_byte_bits :
    (e : GdtEntry) (code_64 : Bool)
    → ((flags_byte e code_64 / 2 ^ 7 % 2 == 1) ≡ ltb 65536 e.limit)
      × (flags_byte e code_64 % 16 ≡ stored_limit e.limit / 2 ^ 16 % 16)
      × ((flags_byte e code_64 / 2 ^ 5 % 2 == 1) ≡ code_64)
flags_byte_bits e code_64 =
    rw (flags_byte_lem e code_64)
      (flag_bits code_64 (ltb 65536 e.limit) (stored_limit e.limit / 2 ^ 16 % 16) (omega arith))

limit_back :
    (e : GdtEntry)
    → is_refused e ≡ false
    → e.limit < 2 ^ 32
    → (if ltb 65536 e.limit
        then (stored_limit e.limit % 2 ^ 8
              + 2 ^ 8 * (stored_limit e.limit / 2 ^ 8 % 2 ^ 8)
              + 2 ^ 16 * (stored_limit e.limit / 2 ^ 16 % 16))
            * 4096
          + 4095
        else stored_limit e.limit % 2 ^ 8
          + 2 ^ 8 * (stored_limit e.limit / 2 ^ 8 % 2 ^ 8)
          + 2 ^ 16 * (stored_limit e.limit / 2 ^ 16 % 16))
      ≡ e.limit
unfolding is_refused stored_limit
limit_back e ok low = ground arith

-- An entry that is not refused, with a base, a limit below 2^32: the processor reads back the
-- base, the limit, the type and the mark of 64-bit code.
pub descriptor-reads :
    (e : GdtEntry) (code_64 : Bool)
    → is_refused e ≡ false
    → e.base < 2 ^ 32
    → e.limit < 2 ^ 32
    → (base_of (descriptor e code_64) ≡ e.base)
      × (limit_of (descriptor e code_64) ≡ e.limit)
      × (type_of (descriptor e code_64) ≡ e.type)
      × (is_long (descriptor e code_64) ≡ code_64)
unfolding descriptor base_of limit_of type_of is_long
descriptor-reads e code_64 ok low_base low_limit =
    let (paged, nibble, long) = flags_byte_bits e code_64 in
    (omega arith, rw (paged, nibble) (limit_back e ok low_limit), refl, long)
