-- ===== src/Examples/Multiboot.antt =====
-- kernel_main on boot information of three tags.
use gapxos.Base.{
  ℕ, ◌-◌, ◌≡◌, refl, some, none, Option, List, [], ◌∷◌, length, get_elem?, arith, Stored,
}
use gapxos.Pmm.{Pmm, MmapEntry}
use gapxos.Boot.Multiboot.{
  MbInfo, no_info, interpret_tag, interpret_tags, interpret_multiboot, padded, take_rsdp,
}
use gapxos.Boot.Multiboot.Encoding.{
  Tag, memory_map, framebuffer, old_rsdp, encode, encode_all, zeros, apply_tag, apply_all,
}
use gapxos.Boot.Multiboot.Parse.{interpret_multiboot-encode_all}
use gapxos.Boot.Multiboot.Entries.{encode_entries}
use gapxos.Boot.Multiboot.Root.{first, interpret_multiboot-newest}
use gapxos.Boot.Multiboot.Start.{sum_of, encode_rsdp}

abbrev root : List ℕ
root =
    82 ∷ 83 ∷ 68 ∷ 32 ∷ 80 ∷ 84 ∷ 82 ∷ 32 ∷ 15 ∷ 71 ∷ 65 ∷ 80 ∷ 88 ∷ 79 ∷ 83 ∷ 0 ∷ 0 ∷ 255 ∷ 1 ∷ 0
    ∷ []

well_formed : encode_rsdp 71 65 80 88 79 83 0 0x1ff00 ≡ root
unfolding sum_of
well_formed = refl

abbrev entry : List ℕ
entry =
    0 ∷ 0 ∷ 16 ∷ 0 ∷ 0 ∷ 0 ∷ 0 ∷ 0 ∷ 0 ∷ 0 ∷ 64 ∷ 0 ∷ 0 ∷ 0 ∷ 0 ∷ 0 ∷ 1 ∷ 0 ∷ 0 ∷ 0 ∷ 0 ∷ 0 ∷ 0 ∷ 0
    ∷ []

-- A text screen, a root pointer and a memory map with one entry.
abbrev tags : List Tag
tags = framebuffer 0xb8000 0 160 80 25 16 2 [] ∷ old_rsdp root ∷ memory_map 24 0 1 entry ∷ []

abbrev bytes : List ℕ
bytes =
    8 ∷ 0 ∷ 0 ∷ 0 ∷ 30 ∷ 0 ∷ 0 ∷ 0 ∷ 0 ∷ 128 ∷ 11 ∷ 0 ∷ 0 ∷ 0 ∷ 0 ∷ 0 ∷ 160 ∷ 0 ∷ 0 ∷ 0 ∷ 80 ∷ 0 ∷ 0
    ∷ 0 ∷ 25 ∷ 0 ∷ 0 ∷ 0 ∷ 16 ∷ 2 ∷ 0 ∷ 0 ∷ 14 ∷ 0 ∷ 0 ∷ 0 ∷ 28 ∷ 0 ∷ 0 ∷ 0 ∷ 82 ∷ 83 ∷ 68 ∷ 32 ∷ 80
    ∷ 84 ∷ 82 ∷ 32 ∷ 15 ∷ 71 ∷ 65 ∷ 80 ∷ 88 ∷ 79 ∷ 83 ∷ 0 ∷ 0 ∷ 255 ∷ 1 ∷ 0 ∷ 0 ∷ 0 ∷ 0 ∷ 0 ∷ 6 ∷ 0
    ∷ 0 ∷ 0 ∷ 40 ∷ 0 ∷ 0 ∷ 0 ∷ 24 ∷ 0 ∷ 0 ∷ 0 ∷ 0 ∷ 0 ∷ 0 ∷ 0 ∷ 0 ∷ 0 ∷ 16 ∷ 0 ∷ 0 ∷ 0 ∷ 0 ∷ 0 ∷ 0
    ∷ 0 ∷ 64 ∷ 0 ∷ 0 ∷ 0 ∷ 0 ∷ 0 ∷ 1 ∷ 0 ∷ 0 ∷ 0 ∷ 0 ∷ 0 ∷ 0 ∷ 0 ∷ 0 ∷ 0 ∷ 0 ∷ 0 ∷ 8 ∷ 0 ∷ 0 ∷ 0
    ∷ []

same_bytes : encode_all tags ≡ bytes
unfolding encode_all encode zeros
same_bytes = refl

abbrev byte_of : Option ℕ → ℕ
byte_of none = 0
byte_of (some b) = b

-- The information stands at 0x1000.
abbrev memory : ℕ → ℕ
memory a = byte_of (get_elem? bytes (a - 0x1008))

abbrev found : MbInfo
found = record {
  mmap = record { count = 1; map = 0x1058 };
  acpi = record { version = 1; rsdp = 0x1030 };
  text = record { ptr = 0xb8000; width = 80; height = 25 };
}

walked : interpret_multiboot memory 4 0x1000 no_info ≡ some found
unfolding interpret_tags interpret_tag padded take_rsdp
walked = refl

applied : apply_all 0x1008 tags no_info ≡ found
unfolding apply_all apply_tag encode zeros take_rsdp
applied = refl

stored : Stored memory 0x1008 (encode_all tags)
unfolding encode_all encode zeros
stored = omega arith

interpret_multiboot-encode_all_example :
    interpret_multiboot memory 4 0x1000 no_info ≡ some (apply_all 0x1008 tags no_info)
interpret_multiboot-encode_all_example =
    interpret_multiboot-encode_all memory 4 0x1000 tags no_info (omega arith) stored (omega arith)

interpret_multiboot-newest_example :
    (info : MbInfo) × (interpret_multiboot memory 4 0x1000 no_info ≡ some info)
    × (info.acpi ≡ record { version = 1; rsdp = 0x1030 })
unfolding first encode zeros
interpret_multiboot-newest_example =
    interpret_multiboot-newest memory 4 0x1000 tags (omega arith) stored (omega arith)

abbrev blank : Pmm
blank = record { free_pages = λ j. 0; free_index = 0; ranges = []; ap_low_page = 0 }

abbrev ram : List MmapEntry
ram = record { base_addr = 0x100000; length = 0x400000; type = 1 } ∷ []

as_entries : encode_entries ram ≡ entry
unfolding encode_entries
as_entries = refl

abbrev first_two : List Tag
first_two = framebuffer 0xb8000 0 160 80 25 16 2 [] ∷ old_rsdp root ∷ []
