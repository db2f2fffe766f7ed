-- ===== src/Base/Bits.antt =====
-- The native `bit_or` at variables, digit by digit.
use Prim.Native.Nat.{
  ℕ, zero, suc, ◌+◌, ◌*◌, ◌/◌, ◌%◌, ◌^◌, ◌≤◌, ◌<◌, max, digits, bit_or, bit_or-bitwise,
}
use mathlib.Core.Path.{◌≡◌, refl, ◌∙◌, ap, sym}
use native.Mathlib.Omega.{arith}
use native.Mathlib.Nat.{mul-add-mod_self_left, mod-eq_of_lt, mod-lt, pow-suc}

abbrev or_digits : ℕ → ℕ → ℕ → ℕ
or_digits rounds a b = digits (λ rest. rest) max rounds a b

-- Any count of rounds that reaches the first number gives the same digits.
or_digits-rounds : (r q a b : ℕ) → a ≤ r → a ≤ q → or_digits r a b ≡ or_digits q a b
or_digits-rounds zero zero a b h k = refl
or_digits-rounds zero (suc q) zero b h k = refl
or_digits-rounds zero (suc q) (suc a) b h k = absurd (omega arith)
or_digits-rounds (suc r) zero zero b h k = refl
or_digits-rounds (suc r) zero (suc a) b h k = absurd (omega arith)
or_digits-rounds (suc r) (suc q) zero b h k = refl
or_digits-rounds (suc r) (suc q) (suc a) b h k =
    ap (λ t. t * 2 + max (suc a % 2) (b % 2))
      (or_digits-rounds r q (suc a / 2) (b / 2) (omega arith) (omega arith))

pub zero-bit_or : (b : ℕ) → bit_or 0 b ≡ b
zero-bit_or b = bit_or-bitwise 0 b

pub bit_or_digit : (a b : ℕ) → bit_or a b ≡ bit_or (a / 2) (b / 2) * 2 + max (a % 2) (b % 2)
bit_or_digit zero b = omega (arith, zero-bit_or b, zero-bit_or (b / 2))
bit_or_digit (suc a) b = omega (
  arith,
  bit_or-bitwise (suc a) b,
  bit_or-bitwise (suc a / 2) (b / 2),
  or_digits-rounds a (suc a / 2) (suc a / 2) (b / 2) (omega arith) (omega arith),
)

pub bit_or_half : (a b : ℕ) → bit_or a b / 2 ≡ bit_or (a / 2) (b / 2)
bit_or_half a b = omega (arith, bit_or_digit a b)

pub bit_or_odd : (a b : ℕ) → bit_or a b % 2 ≡ max (a % 2) (b % 2)
bit_or_odd a b = omega (arith, bit_or_digit a b)

bit_or-zero_rounds : (r a : ℕ) → a ≤ r → bit_or a 0 ≡ a
bit_or-zero_rounds r zero h = zero-bit_or 0
bit_or-zero_rounds zero (suc a) h = absurd (omega arith)
bit_or-zero_rounds (suc r) (suc a) h =
    omega (arith, bit_or_digit (suc a) 0, bit_or-zero_rounds r (suc a / 2) (omega arith))

pub bit_or-zero : (a : ℕ) → bit_or a 0 ≡ a
bit_or-zero a = bit_or-zero_rounds a a (omega arith)

-- The number without its lowest digits.
abbrev pub halve : ℕ → ℕ → ℕ
halve zero a = a
halve (suc k) a = halve k (a / 2)

pub halve-bit_or : (k a b : ℕ) → halve k (bit_or a b) ≡ bit_or (halve k a) (halve k b)
halve-bit_or zero a b = refl
halve-bit_or (suc k) a b = ap (halve k) (bit_or_half a b) ∙ halve-bit_or k (a / 2) (b / 2)

halve-12 : (a : ℕ) → halve 12 a ≡ a / 2 ^ 12
halve-12 a = omega arith

-- Flags below a page do not reach its number.
pub bit_or_page : (a b : ℕ) → b < 2 ^ 12 → bit_or a b / 2 ^ 12 ≡ a / 2 ^ 12
bit_or_page a b small =
    let none_left : halve 12 b ≡ 0 = omega arith in
    omega (arith, halve-bit_or 12 a b, ap (bit_or (halve 12 a)) none_left, bit_or-zero (halve 12 a))

twice-mod : (m x r : ℕ) → 0 < m → r < 2 → (x * 2 + r) % (m * 2) ≡ x % m * 2 + r
twice-mod m x r some_m bit =
    let split : x * 2 + r ≡ m * 2 * (x / m) + (x % m * 2 + r) = grind arith in
    rw split (
      mul-add-mod_self_left (m * 2) (x / m) (x % m * 2 + r)
      ∙ mod-eq_of_lt (omega (arith, mod-lt x some_m)))

pow-pos : (k : ℕ) → 0 < 2 ^ k
pow-pos zero = omega arith
pow-pos (suc k) = omega (arith, pow-suc 2 k, pow-pos k)

twice-mod_half : (m x : ℕ) → 0 < m → x % (m * 2) ≡ x / 2 % m * 2 + x % 2
twice-mod_half m x some_m =
    let digits_of : x ≡ x / 2 * 2 + x % 2 = omega arith in
    ap (λ z. z % (m * 2)) digits_of ∙ twice-mod m (x / 2) (x % 2) some_m (omega arith)

-- High flags do not reach the digits below them.
pub bit_or_low : (k a b : ℕ) → b % 2 ^ k ≡ 0 → bit_or a b % 2 ^ k ≡ a % 2 ^ k
bit_or_low zero a b high = omega arith
bit_or_low (suc k) a b high =
    let some_m : 0 < 2 ^ k = pow-pos k in
    let power : 2 ^ suc k ≡ 2 ^ k * 2 = pow-suc 2 k in
    let b_digits = ap (λ z. b % z) (sym power) in
    let zeros : b / 2 % 2 ^ k * 2 + b % 2 ≡ 0 =
      sym (twice-mod_half (2 ^ k) b some_m) ∙ (b_digits ∙ high) in
    let rest = bit_or_low k (a / 2) (b / 2) (omega arith) in
    let odd = bit_or_odd a b in
    rw power (
      omega (
        arith,
        twice-mod_half (2 ^ k) (bit_or a b) some_m,
        twice-mod_half (2 ^ k) a some_m,
        ap (λ z. z % 2 ^ k) (bit_or_half a b),
        rest,
        odd,
        zeros,
      ))
