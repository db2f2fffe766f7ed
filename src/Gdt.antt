-- ===== src/Gdt.antt =====
-- The global descriptor table: kernel/system/gdt/gdt.c. malloc and free of the heap are the
-- interface Host, which Gdt/Kernel fills by those of Heap; the file's variables are a record. The
-- bytes of the blocks are a memory of their own, as the headers are in Heap.
pub mod Descriptor
pub mod Kernel
pub mod Memory
pub mod Table
pub mod Init
pub mod Tss
use gapxos.Base.{
  ℕ, zero, suc, ◌+◌, ◌-◌, ◌*◌, ◌/◌, ◌%◌, ◌^◌, Bool, true, false, not, ◌&&◌, ltb, ◌==◌,
  if◌then◌else◌, List, [], ◌∷◌, Option, some, ◌>>=◌,
}
use Prim.Native.Nat.{bit_or}
use gapxos.Pmm.{u64, write_cell}

-- struct _gdt_entry
pub record GdtEntry : Type 0 where
  pub base : ℕ
  pub limit : ℕ
  pub type : ℕ

-- _gdt_base, _gdt_entries, _gdt_allocated_size, _kern_code_seg and _user_code_seg
pub record Gdt : Type 0 where
  pub base : ℕ
  pub entries : ℕ
  pub allocated_size : ℕ
  pub kern_code_seg : ℕ
  pub user_code_seg : ℕ

-- malloc and free, on a state of the heap; `none` is a fault.
pub record Host (H : Type 0) : Type 0 where
  pub malloc : ℕ → H → Option (ℕ × H)
  pub free : ℕ → H → Option H

-- The register of the processor, with the segment of the running code: what _reload_gdt sets.
pub record Loaded : Type 0 where
  pub base : ℕ
  pub limit : ℕ
  pub code : ℕ

pub record World (H : Type 0) : Type 0 where
  pub heap : H
  pub bytes : ℕ → ℕ
  pub loaded : Loaded

-- The limit has 16 bits.
abbrev pub reload_gdt : ℕ → ℕ → ℕ → Loaded
reload_gdt base limit code = record { base = base; limit = limit % 2 ^ 16; code = code }

-- memcpy copies byte by byte, from the first one on.
unfoldable pub memcpy : ℕ → ℕ → ℕ → (ℕ → ℕ) → ℕ → ℕ
memcpy dst src zero f = f
memcpy dst src (suc n) f = memcpy (dst + 1) (src + 1) n (write_cell f dst (f src))

-- The test for a limit that has no encoding.
unfoldable pub is_refused : GdtEntry → Bool
is_refused e = ltb 65536 e.limit && not (e.limit % 2 ^ 12 == 0xFFF)

-- e.limit, in pages if it is large.
unfoldable pub stored_limit : ℕ → ℕ
stored_limit limit = if ltb 65536 limit then limit / 2 ^ 12 else limit

-- What target[6] holds in the end.
unfoldable pub flags_byte : GdtEntry → Bool → ℕ
flags_byte e code_64 =
    let mode = if code_64 then 0x20 else 0x00 in
    let pages = if ltb 65536 e.limit then bit_or mode 0x80 else mode in
    bit_or pages (stored_limit e.limit / 2 ^ 16 % 2 ^ 4)

-- The bytes target[0] to target[7].
unfoldable pub descriptor : GdtEntry → Bool → List ℕ
descriptor e code_64 =
    stored_limit e.limit % 2 ^ 8
    ∷ stored_limit e.limit / 2 ^ 8 % 2 ^ 8
    ∷ e.base % 2 ^ 8
    ∷ e.base / 2 ^ 8 % 2 ^ 8
    ∷ e.base / 2 ^ 16 % 2 ^ 8
    ∷ e.type
    ∷ flags_byte e code_64
    ∷ e.base / 2 ^ 24 % 2 ^ 8
    ∷ []

-- The bytes of a pointer in memory.
abbrev pub word_bytes : ℕ → List ℕ
word_bytes w =
    w % 2 ^ 8
    ∷ w / 2 ^ 8 % 2 ^ 8
    ∷ w / 2 ^ 16 % 2 ^ 8
    ∷ w / 2 ^ 24 % 2 ^ 8
    ∷ w / 2 ^ 32 % 2 ^ 8
    ∷ w / 2 ^ 40 % 2 ^ 8
    ∷ w / 2 ^ 48 % 2 ^ 8
    ∷ w / 2 ^ 56 % 2 ^ 8
    ∷ []

abbrev pub tss_entry : ℕ → GdtEntry
tss_entry tss = record { base = tss; limit = 104 - 1; type = 0b10001001 }

unfoldable pub write_bytes : ℕ → List ℕ → (ℕ → ℕ) → ℕ → ℕ
write_bytes target [] f = f
write_bytes target (b ∷ bs) f = write_bytes (target + 1) bs (write_cell f target b)

module _ {H : Type 0} (host : Host H) where
  -- The branch for a full table; _gdt_entries has the new entry counted.
  unfoldable pub grow : Gdt → World H → Option (Gdt × World H)
  grow g w =
      let size = u64 (g.allocated_size * 2) in
      do
        (new_gdt, h) ← host.malloc size w.heap
        let copied = memcpy new_gdt g.base (size / 2) w.bytes
        let loaded = reload_gdt new_gdt (g.entries * 8) g.kern_code_seg
        h' ← host.free g.base h
        some (
          record g { base = new_gdt; allocated_size = size },
          record { heap = h'; bytes = copied; loaded = loaded },
        )

  unfoldable pub place : Gdt → World H → Option (Gdt × World H)
  place g w =
      let counted = record g { entries = g.entries + 1 } in
      if g.allocated_size / 8 == g.entries then grow counted w else some (counted, w)

  unfoldable pub add_entry : GdtEntry → Bool → Gdt → World H → Option (ℕ × Gdt × World H)
  add_entry e code_64 g w = if is_refused e then some (0, g, w) else (do
    (g', w') ← place g w
    let target = g'.base + 8 * (g'.entries - 1)
    some (
      (g'.entries - 1) * 8,
      g',
      record w' { bytes = write_bytes target (descriptor e code_64) w'.bytes },
    ))

  -- One of the five calls of _add_entry, all with a base and a limit of 0.
  unfoldable pub add_segment : ℕ → Bool → Gdt → World H → Option (ℕ × Gdt × World H)
  add_segment type code_64 = add_entry (record { base = 0; limit = 0; type = type }) code_64

  unfoldable pub gdt_init : Gdt → World H → Option (Gdt × World H)
  gdt_init g w = do
    (base, h) ← host.malloc g.allocated_size w.heap
    (_, g1, w1) ← add_segment 0 false (record g { base = base }) (record w { heap = h })
    (_, g2, w2) ← add_segment 0b10010010 false g1 w1
    (kern, g3, w3) ← add_segment 0b10011010 true g2 w2
    (_, g4, w4) ← add_segment 0b11110010 false (record g3 { kern_code_seg = kern }) w3
    (user, g5, w5) ← add_segment 0b11111010 true g4 w4
    let g6 = record g5 { user_code_seg = user }
    some (g6, record w5 { loaded = reload_gdt g6.base (g6.entries * 8) g6.kern_code_seg })

  -- A struct _tss has 104 bytes, with rsp0 at 4 and iopb_offset at 102.
  unfoldable pub gdt_add_tss : ℕ → Gdt → World H → Option (ℕ × Gdt × World H)
  gdt_add_tss int_stack g w = do
    (tss, h) ← host.malloc 104 w.heap
    let stacked = write_bytes (tss + 4) (word_bytes int_stack) w.bytes
    let filled = write_bytes (tss + 102) (104 ∷ 0 ∷ []) stacked
    add_entry (tss_entry tss) false g (record w { heap = h; bytes = filled })

-- What gdt_get_info stores through its three pointers.
unfoldable pub gdt_get_info : Gdt → ℕ × ℕ × ℕ
gdt_get_info g = (g.entries * 8 % 2 ^ 16, g.base, g.kern_code_seg % 2 ^ 16)
