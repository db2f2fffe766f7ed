-- ===== src/Boot/Multiboot/Root.antt =====
-- Which root pointer of ACPI the walk over the tags chooses.
use gapxos.Base.{
  ℕ, ◌+◌, ◌≡◌, refl, ◌∙◌, ap, sym, Option, none, some, List, [], ◌∷◌, length, arith, All, Stored,
  ◌<◌, ltb, if◌then◌else◌, Bool, true, false, Bool-cases, ◌==◌, inl, inr,
}
use gapxos.Boot.Multiboot.{AcpiInfo, MbInfo, no_info, take_rsdp, interpret_multiboot}
use gapxos.Boot.Multiboot.Parse.{interpret_multiboot-encode_all}
use gapxos.Boot.Multiboot.Encoding.{
  Tag, memory_map, framebuffer, old_rsdp, new_rsdp, other, encode, encode_all, IsTag, apply_tag,
  apply_all,
}

abbrev pub is_new : Tag → Bool
is_new (memory_map entry_size version count entries) = false
is_new (framebuffer low high pitch width height depth kind colors) = false
is_new (old_rsdp bytes) = false
is_new (new_rsdp bytes) = true
is_new (other type bytes) = false

abbrev pub is_old : Tag → Bool
is_old (memory_map entry_size version count entries) = false
is_old (framebuffer low high pitch width height depth kind colors) = false
is_old (old_rsdp bytes) = true
is_old (new_rsdp bytes) = false
is_old (other type bytes) = false

-- The contents of the first tag of a kind, from the address where the tags begin.
unfoldable pub first : (Tag → Bool) → ℕ → List Tag → Option ℕ
first is a [] = none
first is a (t ∷ ts) = if is t then some (a + 8) else first is (a + length (encode t)) ts

-- What the tags leave of a root pointer that is known before them.
abbrev pub or_known : ℕ → AcpiInfo → Option ℕ → AcpiInfo
or_known version known none = known
or_known version known (some rsdp) = record { version = version; rsdp = rsdp }

-- The first one of version 2, else what was known, else the first one of version 1.
unfoldable pub newest : ℕ → List Tag → AcpiInfo → AcpiInfo
newest a ts known =
    let old = if ltb known.version 1 then or_known 1 known (first is_old a ts) else known in
    if ltb known.version 2 then or_known 2 old (first is_new a ts) else known

-- A tag changes the root pointer that is known if it has a newer one.
abbrev take : ℕ → Tag → AcpiInfo → AcpiInfo
take a t known =
    if is_new t
    then if ltb known.version 2 then record { version = 2; rsdp = a + 8 } else known
    else if is_old t
    then if ltb known.version 1 then record { version = 1; rsdp = a + 8 } else known
    else known

take_rsdp-acpi :
    (version rsdp : ℕ) (info : MbInfo)
    → (take_rsdp version rsdp info).acpi ≡ (
        if ltb info.acpi.version version
        then record { version = version; rsdp = rsdp }
        else info.acpi)
unfolding take_rsdp
take_rsdp-acpi version rsdp info = ground arith

apply_tag-acpi : (a : ℕ) (t : Tag) (info : MbInfo) → (apply_tag a t info).acpi ≡ take a t info.acpi
unfolding apply_tag
apply_tag-acpi a (memory_map entry_size version count entries) info = refl
apply_tag-acpi a (framebuffer low high pitch width height depth kind colors) info =
    elim (Bool-cases (kind == 2)) [ inl text ↦ rw text refl | inr graphics ↦ rw graphics refl ]
apply_tag-acpi a (old_rsdp bytes) info = take_rsdp-acpi 1 (a + 8) info
apply_tag-acpi a (new_rsdp bytes) info = take_rsdp-acpi 2 (a + 8) info
apply_tag-acpi a (other type bytes) info = refl

newest-take :
    (a : ℕ) (t : Tag) (ts : List Tag) (known : AcpiInfo)
    → newest (a + length (encode t)) ts (take a t known) ≡ newest a (t ∷ ts) known
unfolding newest first
newest-take a (memory_map entry_size version count entries) ts known = refl
newest-take a (framebuffer low high pitch width height depth kind colors) ts known = refl
newest-take a (old_rsdp bytes) ts known = elim (Bool-cases (ltb known.version 1)) [
  | inl unknown ↦
      let older : ltb known.version 2 ≡ true = ground arith in rw (unknown, newest, older) refl
  | inr old ↦
      rw (old, newest, old)
        (elim (Bool-cases (ltb known.version 2)) [
          | inl older ↦ rw older refl
          | inr newer ↦ rw newer refl
        ])
]
newest-take a (new_rsdp bytes) ts known = elim (Bool-cases (ltb known.version 2)) [
  | inl older ↦ rw (older, newest) refl
  | inr newer ↦ rw (newer, newest, newer) refl
]
newest-take a (other type bytes) ts known = refl

newest-none : (a : ℕ) (known : AcpiInfo) → newest a [] known ≡ known
unfolding newest first
newest-none a known = ground arith

pub apply_all-acpi :
    (a : ℕ) (ts : List Tag) (info : MbInfo) → (apply_all a ts info).acpi ≡ newest a ts info.acpi
unfolding apply_all
apply_all-acpi a [] info = sym (newest-none a info.acpi)
apply_all-acpi a (t ∷ ts) info =
    apply_all-acpi (a + length (encode t)) ts (apply_tag a t info)
    ∙ (ap (newest (a + length (encode t)) ts) (apply_tag-acpi a t info)
        ∙ newest-take a t ts info.acpi)

-- For boot information that is made of tags with their fields in range, ended by the tag of type
-- 0, and fuel above their number: interpret_multiboot returns from an empty mb_info, and the root
-- pointer that it has found is the contents of the first tag of type 15; without one, of the first
-- tag of type 14; and without either there is none, and the version is 0.
pub interpret_multiboot-newest :
    (memory : ℕ → ℕ) (fuel mb : ℕ) (ts : List Tag)
    → All IsTag ts
    → Stored memory (mb + 8) (encode_all ts)
    → length ts < fuel
    → (info : MbInfo) × (interpret_multiboot memory fuel mb no_info ≡ some info)
      × (info.acpi
          ≡ or_known 2
              (or_known 1 (record { version = 0; rsdp = 0 }) (first is_old (mb + 8) ts))
              (first is_new (mb + 8) ts))
unfolding newest
interpret_multiboot-newest memory fuel mb ts fits st enough = (
  apply_all (mb + 8) ts no_info,
  interpret_multiboot-encode_all memory fuel mb ts no_info fits st enough,
  apply_all-acpi (mb + 8) ts no_info,
)
