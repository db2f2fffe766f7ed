-- ===== src/Boot/Multiboot/Parse.antt =====
-- interpret_multiboot of main.c on the bytes of tags.
use gapxos.Base.{
  ℕ, zero, suc, ◌+◌, ◌*◌, ◌/◌, ◌^◌, ◌<◌, ◌≡◌, refl, sym, ◌∙◌, ap, subst, false, ◌==◌, some, List,
  [], ◌∷◌, ◌++◌, length, length-append, All, arith, load32, bytes32, Stored, Stored-get_elem?,
  Stored-append_left, Stored-append_right, load32-Stored, Bool-cases, inl, inr,
}
use native.Mathlib.Nat.{div-eq_of_lt-le}
use gapxos.Boot.Multiboot.{MbInfo, interpret_tag, padded, interpret_tags, interpret_multiboot}
use gapxos.Boot.Multiboot.Encoding.{
  Tag, memory_map, framebuffer, old_rsdp, new_rsdp, other, type_of, body_of, padding, zeros,
  size_of, encode, encode_all, IsBody, IsTag, apply_tag, apply_all,
}

-- The number of entries, from a size that counts the 16 bytes in front of them.
count_of : (n size : ℕ) → 16 < size → (16 + n * size) / size ≡ n
count_of n size big =
    let distributes : (n + 1) * size ≡ n * size + size = omega arith in
    div-eq_of_lt-le size (omega arith) (omega (arith, distributes))

length-zeros : (n : ℕ) → length (zeros n) ≡ n
unfolding zeros
length-zeros zero = refl
length-zeros (suc n) = ap suc (length-zeros n)

length-encode : (t : Tag) → length (encode t) ≡ size_of t + padding (size_of t)
unfolding encode
length-encode t =
    let e = length-append (body_of t) (zeros (padding (size_of t))) in
    omega (arith, e, length-zeros (padding (size_of t)))

padded-eq : (size : ℕ) → size + 8 < 2 ^ 32 → 4 * (padded size / 4) ≡ size + padding size
unfolding padded
padded-eq size small = ground arith

type_of-low : (t : Tag) → IsBody t → type_of t < 2 ^ 32
type_of-low (memory_map entry_size version count entries) fits = omega arith
type_of-low (framebuffer low high pitch width height depth kind colors) fits = omega arith
type_of-low (old_rsdp bytes) fits = omega arith
type_of-low (new_rsdp bytes) fits = omega arith
type_of-low (other type bytes) fits = fits.1

type_of-nonzero : (t : Tag) → IsBody t → (type_of t == 0) ≡ false
type_of-nonzero (memory_map entry_size version count entries) fits = refl
type_of-nonzero (framebuffer low high pitch width height depth kind colors) fits = refl
type_of-nonzero (old_rsdp bytes) fits = refl
type_of-nonzero (new_rsdp bytes) fits = refl
type_of-nonzero (other type bytes) fits = ground arith

module _ (memory : ℕ → ℕ) where
  interpret_tag-encode :
      (a : ℕ) (t : Tag) (info : MbInfo)
      → IsBody t
      → Stored memory (a + 8) (body_of t)
      → interpret_tag memory (type_of t) (size_of t) (a + 8) info ≡ some (apply_tag a t info)
  unfolding interpret_tag apply_tag
  interpret_tag-encode a (memory_map entry_size version count entries) info fits st =
      let bs = body_of (memory_map entry_size version count entries) in
      let here : a + 8 + 0 ≡ a + 8 = omega arith in
      let e =
        subst (λ z. load32 memory z ≡ entry_size) here
          (load32-Stored memory (a + 8) 0 entry_size bs st fits.1 refl refl refl refl) in
      let some_size : (entry_size == 0) ≡ false = ground arith in
      let sum : size_of (memory_map entry_size version count entries) ≡ 16 + count * entry_size =
        omega (arith, fits.2) in
      let next : a + 8 + 8 ≡ a + 16 = omega arith in
      let quotient = count_of count entry_size fits.0 in rw (e, some_size, sum, quotient, next) refl
  interpret_tag-encode a (framebuffer low high pitch width height depth kind colors) info fits st =
      let bs = body_of (framebuffer low high pitch width height depth kind colors) in
      let here : a + 8 + 0 ≡ a + 8 = omega arith in
      let lower =
        subst (λ z. load32 memory z ≡ low) here
          (load32-Stored memory (a + 8) 0 low bs st fits.0 refl refl refl refl) in
      let upper = load32-Stored memory (a + 8) 4 high bs st fits.1 refl refl refl refl in
      let w = load32-Stored memory (a + 8) 12 width bs st fits.2 refl refl refl refl in
      let h = load32-Stored memory (a + 8) 16 height bs st fits.3 refl refl refl refl in
      let k = Stored-get_elem? memory (a + 8) bs 21 kind st refl in
      elim (Bool-cases (kind == 2)) [
        | inl text ↦ rw (k, text, lower, upper, w, h) refl
        | inr graphics ↦ rw (k, graphics) refl
      ]
  interpret_tag-encode a (old_rsdp bytes) info fits st = refl
  interpret_tag-encode a (new_rsdp bytes) info fits st = refl
  interpret_tag-encode a (other type bytes) info fits st = ground arith

  -- What stands at a tag and behind it.
  type_at : (a : ℕ) (t : Tag) → IsTag t → Stored memory a (encode t) → load32 memory a ≡ type_of t
  unfolding encode
  type_at a t fits st =
      let here : a + 0 ≡ a = omega arith in
      subst (λ z. load32 memory z ≡ type_of t) here
        (load32-Stored memory a 0 (type_of t) (encode t) st (type_of-low t fits.1) refl refl refl
          refl)

  size_at :
      (a : ℕ) (t : Tag) → IsTag t → Stored memory a (encode t) → load32 memory (a + 4) ≡ size_of t
  unfolding encode
  size_at a t fits st =
      load32-Stored memory a 4 (size_of t) (encode t) st (omega (arith, fits.0)) refl refl refl refl

  pub body_at : (a : ℕ) (t : Tag) → Stored memory a (encode t) → Stored memory (a + 8) (body_of t)
  unfolding encode
  body_at a t st =
      let sizes =
        Stored-append_right memory a (bytes32 (type_of t))
          (bytes32 (size_of t) ++ (body_of t ++ zeros (padding (size_of t)))) st in
      let bodies =
        Stored-append_right memory (a + 4) (bytes32 (size_of t))
          (body_of t ++ zeros (padding (size_of t))) sizes in
      let moved : a + 4 + 4 ≡ a + 8 = omega arith in
      Stored-append_left memory (a + 8) (body_of t) (zeros (padding (size_of t)))
        (subst (λ z. Stored memory z (body_of t ++ zeros (padding (size_of t)))) moved bodies)

  interpret_tags-end :
      (fuel a : ℕ) (info : MbInfo)
      → Stored memory a (encode_all [])
      → interpret_tags memory (suc fuel) a info ≡ some info
  unfolding interpret_tags encode_all
  interpret_tags-end fuel a info st =
      let here : a + 0 ≡ a = omega arith in
      let e =
        subst (λ z. load32 memory z ≡ 0) here
          (load32-Stored memory a 0 0 (bytes32 0 ++ bytes32 8) st (omega arith) refl refl refl
            refl) in
      rw (e, interpret_tags) refl

  interpret_tags-step :
      (fuel a : ℕ) (t : Tag) (info : MbInfo)
      → IsTag t
      → Stored memory a (encode t)
      → interpret_tags memory (suc fuel) a info
        ≡ interpret_tags memory fuel (a + length (encode t)) (apply_tag a t info)
  unfolding interpret_tags
  interpret_tags-step fuel a t info fits st =
      let more : (type_of t == 0) ≡ false = type_of-nonzero t fits.1 in
      let next : 4 * (padded (size_of t) / 4) ≡ length (encode t) =
        padded-eq (size_of t) fits.0 ∙ sym (length-encode t) in
      rw
        (
          type_at a t fits st,
          more,
          type_at a t fits st,
          size_at a t fits st,
          interpret_tag-encode a t info fits.1 (body_at a t st),
          size_at a t fits st,
          next,
          interpret_tags,
        )
        refl

  interpret_tags-encode_all :
      (ts : List Tag) (fuel a : ℕ) (info : MbInfo)
      → All IsTag ts
      → Stored memory a (encode_all ts)
      → length ts < fuel
      → interpret_tags memory fuel a info ≡ some (apply_all a ts info)
  unfolding encode_all apply_all
  interpret_tags-encode_all ts zero a info fits st enough = absurd (omega arith)
  interpret_tags-encode_all [] (suc fuel) a info fits st enough = interpret_tags-end fuel a info st
  interpret_tags-encode_all (t ∷ ts) (suc fuel) a info fits st enough =
      let first = Stored-append_left memory a (encode t) (encode_all ts) st in
      let rest = Stored-append_right memory a (encode t) (encode_all ts) st in
      interpret_tags-step fuel a t info fits.0 first
      ∙ interpret_tags-encode_all ts fuel (a + length (encode t)) (apply_tag a t info) fits.1 rest
          (omega arith)

-- For boot information whose bytes behind the first eight are tags with their fields in range,
-- ended by the tag of type 0, and fuel above their number: interpret_multiboot returns, and has
-- taken from each tag what it says, in their order.
pub interpret_multiboot-encode_all :
    (memory : ℕ → ℕ) (fuel mb : ℕ) (ts : List Tag) (info : MbInfo)
    → All IsTag ts
    → Stored memory (mb + 8) (encode_all ts)
    → length ts < fuel
    → interpret_multiboot memory fuel mb info ≡ some (apply_all (mb + 8) ts info)
interpret_multiboot-encode_all memory fuel mb ts info fits st enough =
    interpret_tags-encode_all memory ts fuel (mb + 8) info fits st enough
