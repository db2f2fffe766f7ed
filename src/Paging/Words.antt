-- ===== src/Paging/Words.antt =====
-- The word that set_page of paging.c writes: what the processor reads in it.
use gapxos.Base.{
  ℕ, ◌%◌, ◌^◌, ◌<◌, ◌≡◌, refl, ◌∙◌, Bool, true, false, arith, ◌==◌, if◌then◌else◌, bit_or_odd,
  bit_or_page, bit_or_low,
}
use Prim.Native.Nat.{bit_or}
use gapxos.Vmm.Manager.{PageFlags}
use gapxos.Paging.{is_present, frame_of, table_flags, page_word}

if_small : (b : Bool) (x y : ℕ) → x < 2 ^ 12 → y < 2 ^ 12 → (if b then x else y) < 2 ^ 12
if_small true x y hx hy = hx
if_small false x y hx hy = hy

if_even : (b : Bool) (x y : ℕ) → x % 2 ≡ 0 → y % 2 ≡ 0 → (if b then x else y) % 2 ≡ 0
if_even true x y hx hy = hx
if_even false x y hx hy = hy

bit_or_small : (x y : ℕ) → x < 2 ^ 12 → y < 2 ^ 12 → bit_or x y < 2 ^ 12
bit_or_small x y hx hy = omega (arith, bit_or_page x y hy)

pub table_flags_small : (flags : PageFlags) → table_flags flags < 2 ^ 12
unfolding table_flags
table_flags_small flags =
    bit_or_small _ _
      (bit_or_small _ _
        (bit_or_small _ _ (if_small flags.present 1 0 (omega arith) (omega arith))
          (if_small flags.write 2 0 (omega arith) (omega arith)))
        (if_small flags.kernel (2 ^ 8) 4 (omega arith) (omega arith)))
      (if_small flags.usable (2 ^ 9) 0 (omega arith) (omega arith))

if_high : (b : Bool) → (if b then 0 else 2 ^ 63) % 2 ^ 48 ≡ 0
if_high true = omega arith
if_high false = omega arith

bit_or_even : (x y : ℕ) → y % 2 ≡ 0 → bit_or x y % 2 ≡ x % 2
bit_or_even x y even = omega (arith, bit_or_odd x y)

bit_of : (b : Bool) (w : ℕ) → w % 2 ≡ (if b then 1 else 0) % 2 → (w % 2 == 1) ≡ b
bit_of true w e = ground arith
bit_of false w e = ground arith

-- The page word is present exactly if the flag says so.
pub is_present-page_word :
    (paddr : ℕ) (flags : PageFlags) → is_present (page_word paddr flags) ≡ flags.present
unfolding is_present page_word table_flags frame_of
is_present-page_word paddr flags =
    let p : ℕ = if flags.present then 1 else 0 in
    let pw = bit_or p (if flags.write then 2 else 0) in
    let pwk = bit_or pw (if flags.kernel then 2 ^ 8 else 4) in
    let tf = bit_or pwk (if flags.usable then 2 ^ 9 else 0) in
    let nx : ℕ = if flags.exec then 0 else 2 ^ 63 in
    let frame = frame_of paddr in
    bit_of flags.present (page_word paddr flags) (
      bit_or_even (bit_or frame tf) nx (if_even flags.exec 0 (2 ^ 63) refl refl)
      ∙ (omega (arith, bit_or_odd frame tf)
          ∙ (bit_or_even pwk (if flags.usable then 2 ^ 9 else 0)
                (if_even flags.usable (2 ^ 9) 0 refl refl)
              ∙ (bit_or_even pw (if flags.kernel then 2 ^ 8 else 4)
                    (if_even flags.kernel (2 ^ 8) 4 refl refl)
                  ∙ bit_or_even p (if flags.write then 2 else 0)
                      (if_even flags.write 2 0 refl refl)))))

-- And it leads to the physical page.
pub frame_of-page_word :
    (paddr : ℕ) (flags : PageFlags) → frame_of (page_word paddr flags) ≡ frame_of paddr
unfolding frame_of page_word
frame_of-page_word paddr flags =
    let nx : ℕ = if flags.exec then 0 else 2 ^ 63 in
    omega (
      arith,
      bit_or_low 48 (bit_or (frame_of paddr) (table_flags flags)) nx (if_high flags.exec),
      bit_or_page (frame_of paddr) (table_flags flags) (table_flags_small flags),
    )
