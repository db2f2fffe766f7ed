-- ===== src/Boot/Multiboot/Encoding.antt =====
-- The tags of the boot loader, as bytes and as what they say.
use gapxos.Base.{
  ℕ, zero, suc, ◌+◌, ◌-◌, ◌*◌, ◌%◌, ◌^◌, ◌<◌, ◌≡◌, ◌≢◌, List, [], ◌∷◌, ◌++◌, length, ◌==◌,
  if◌then◌else◌, bytes32,
}
use gapxos.Boot.Multiboot.{MbInfo, take_rsdp}

pub data Tag : Type 0 where
  memory_map : (entry_size version count : ℕ) (entries : List ℕ) → Tag
  framebuffer : (low high pitch width height depth kind : ℕ) (colors : List ℕ) → Tag
  old_rsdp : (bytes : List ℕ) → Tag
  new_rsdp : (bytes : List ℕ) → Tag
  other : (type : ℕ) (bytes : List ℕ) → Tag

abbrev pub type_of : Tag → ℕ
type_of (memory_map entry_size version count entries) = 6
type_of (framebuffer low high pitch width height depth kind colors) = 8
type_of (old_rsdp bytes) = 14
type_of (new_rsdp bytes) = 15
type_of (other type bytes) = type

abbrev pub body_of : Tag → List ℕ
body_of (memory_map entry_size version count entries) =
    bytes32 entry_size ++ (bytes32 version ++ entries)
body_of (framebuffer low high pitch width height depth kind colors) =
    bytes32 low
    ++ (bytes32 high
        ++ (bytes32 pitch ++ (bytes32 width ++ (bytes32 height ++ (depth ∷ kind ∷ colors)))))
body_of (old_rsdp bytes) = bytes
body_of (new_rsdp bytes) = bytes
body_of (other type bytes) = bytes

-- The bytes up to the next address that is a multiple of 8.
abbrev pub padding : ℕ → ℕ
padding size = (8 - size % 8) % 8

unfoldable pub zeros : ℕ → List ℕ
zeros zero = []
zeros (suc n) = 0 ∷ zeros n

abbrev pub size_of : Tag → ℕ
size_of t = 8 + length (body_of t)

unfoldable pub encode : Tag → List ℕ
encode t =
    bytes32 (type_of t) ++ (bytes32 (size_of t) ++ (body_of t ++ zeros (padding (size_of t))))

-- The tags, and the one of type 0 that ends them.
unfoldable pub encode_all : List Tag → List ℕ
encode_all [] = bytes32 0 ++ bytes32 8
encode_all (t ∷ ts) = encode t ++ encode_all ts

-- The fields fit their words; a memory map is made of entries of the size it gives, which is more
-- than 16; and a tag of another type is neither the end nor one of the four.
abbrev pub IsBody : Tag → Type 0
IsBody (memory_map entry_size version count entries) =
    (16 < entry_size) × (entry_size < 2 ^ 32) × (length entries ≡ count * entry_size)
IsBody (framebuffer low high pitch width height depth kind colors) =
    (low < 2 ^ 32) × (high < 2 ^ 32) × (width < 2 ^ 32) × (height < 2 ^ 32)
IsBody (old_rsdp bytes) = Unit {0}
IsBody (new_rsdp bytes) = Unit {0}
IsBody (other type bytes) =
    (0 < type) × (type < 2 ^ 32) × (type ≢ 6) × (type ≢ 8) × (type ≢ 14) × (type ≢ 15)

abbrev pub IsTag : Tag → Type 0
IsTag t = (size_of t + 8 < 2 ^ 32) × IsBody t

-- What a tag at an address says.
unfoldable pub apply_tag : ℕ → Tag → MbInfo → MbInfo
apply_tag a (memory_map entry_size version count entries) info = record info {
  mmap = record { count = count; map = a + 16 };
}
apply_tag a (framebuffer low high pitch width height depth kind colors) info =
    if kind == 2
    then record info { text = record { ptr = low + 2 ^ 32 * high; width = width; height = height } }
    else info
apply_tag a (old_rsdp bytes) info = take_rsdp 1 (a + 8) info
apply_tag a (new_rsdp bytes) info = take_rsdp 2 (a + 8) info
apply_tag a (other type bytes) info = info

unfoldable pub apply_all : ℕ → List Tag → MbInfo → MbInfo
apply_all a [] info = info
apply_all a (t ∷ ts) info = apply_all (a + length (encode t)) ts (apply_tag a t info)
