-- ===== src/Boot/Multiboot/Entries.antt =====
-- The entries of a memory map, as bytes in a tag and as kernel_main of main.c reads them.
use gapxos.Base.{
  ℕ, ◌+◌, ◌/◌, ◌%◌, ◌^◌, ◌<◌, ◌≡◌, refl, ◌∙◌, subst, Bool, true, false, Bool-cases, inl, inr, ltb,
  ◌==◌, List, [], ◌∷◌, ◌++◌, length, All, arith, bytes32, load32, load64, Stored,
  Stored-append_left, Stored-append_right, load32-Stored,
}
use gapxos.Pmm.{MmapEntry}
use gapxos.Boot.Multiboot.{MbInfo, take_rsdp, read_map}
use gapxos.Boot.Multiboot.Encoding.{
  Tag, memory_map, framebuffer, old_rsdp, new_rsdp, other, encode, encode_all, apply_tag, apply_all,
}
use gapxos.Boot.Multiboot.Parse.{body_at}

abbrev pub bytes64 : ℕ → List ℕ
bytes64 v = bytes32 (v % 2 ^ 32) ++ bytes32 (v / 2 ^ 32)

-- The 24 bytes of an entry, the last four of which are reserved.
abbrev pub encode_entry : MmapEntry → List ℕ
encode_entry e = bytes64 e.base_addr ++ (bytes64 e.length ++ (bytes32 e.type ++ bytes32 0))

unfoldable pub encode_entries : List MmapEntry → List ℕ
encode_entries [] = []
encode_entries (e ∷ es) = encode_entry e ++ encode_entries es

-- The fields fit their words.
abbrev pub IsEntry : MmapEntry → Type 0
IsEntry e = (e.base_addr < 2 ^ 64) × (e.length < 2 ^ 64) × (e.type < 2 ^ 32)

-- The tag of a memory map with these entries.
abbrev pub map_tag : ℕ → List MmapEntry → Tag
map_tag version es = memory_map 24 version (length es) (encode_entries es)

abbrev pub is_map : Tag → Bool
is_map (memory_map entry_size version count entries) = true
is_map (framebuffer low high pitch width height depth kind colors) = false
is_map (old_rsdp bytes) = false
is_map (new_rsdp bytes) = false
is_map (other type bytes) = false

abbrev pub IsNoMap : Tag → Type 0
IsNoMap t = is_map t ≡ false

-- The address behind tags that begin at an address.
unfoldable pub behind : ℕ → List Tag → ℕ
behind a [] = a
behind a (t ∷ ts) = behind (a + length (encode t)) ts

module _ (memory : ℕ → ℕ) where
  load64-Stored :
      (a k v : ℕ) (bs : List ℕ)
      → Stored memory a bs
      → v < 2 ^ 64
      → load32 memory (a + k) ≡ v % 2 ^ 32
      → load32 memory (a + (k + 4)) ≡ v / 2 ^ 32
      → load64 memory (a + k) ≡ v
  load64-Stored a k v bs st small low high =
      let there : a + (k + 4) ≡ a + k + 4 = omega arith in
      let upper = subst (λ z. load32 memory z ≡ v / 2 ^ 32) there high in omega (arith, low, upper)

  read_entry :
      (a : ℕ) (e : MmapEntry)
      → IsEntry e
      → Stored memory a (encode_entry e)
      → (load64 memory a ≡ e.base_addr)
        × (load64 memory (a + 8) ≡ e.length)
        × (load32 memory (a + 16) ≡ e.type)
  read_entry a e fits st =
      let bs = encode_entry e in
      let here : a + 0 ≡ a = omega arith in
      let base =
        load64-Stored a 0 e.base_addr bs st fits.0
          (load32-Stored memory a 0 (e.base_addr % 2 ^ 32) bs st (omega arith) refl refl refl refl)
          (load32-Stored memory a 4 (e.base_addr / 2 ^ 32) bs st (omega (arith, fits.0)) refl refl
            refl refl) in
      (
        subst (λ z. load64 memory z ≡ e.base_addr) here base,
        load64-Stored a 8 e.length bs st fits.1
            (load32-Stored memory a 8 (e.length % 2 ^ 32) bs st (omega arith) refl refl refl refl)
            (load32-Stored memory a 12 (e.length / 2 ^ 32) bs st (omega (arith, fits.1)) refl refl
              refl refl),
        load32-Stored memory a 16 e.type bs st fits.2 refl refl refl refl,
      )

  -- The entries are read back.
  pub read_map-encode_entries :
      (es : List MmapEntry) (a : ℕ)
      → All IsEntry es
      → Stored memory a (encode_entries es)
      → read_map memory (length es) a ≡ es
  unfolding read_map encode_entries
  read_map-encode_entries [] a fits st = refl
  read_map-encode_entries (e ∷ es) a fits st =
      let (base, size, type) =
        read_entry a e fits.0
          (Stored-append_left memory a (encode_entry e) (encode_entries es) st) in
      let rest =
        read_map-encode_entries es (a + 24) fits.1
          (Stored-append_right memory a (encode_entry e) (encode_entries es) st) in
      rw (base, size, type, rest) refl

  Stored-behind :
      (before ts : List Tag) (a : ℕ)
      → Stored memory a (encode_all (before ++ ts))
      → Stored memory (behind a before) (encode_all ts)
  unfolding behind encode_all
  Stored-behind [] ts a st = st
  Stored-behind (t ∷ before) ts a st =
      Stored-behind before ts (a + length (encode t))
        (Stored-append_right memory a (encode t) (encode_all (before ++ ts)) st)

  -- The entries of a map in the middle of the tags stand 16 bytes behind the tags before it.
  pub entries-Stored :
      (before after : List Tag) (version a : ℕ) (es : List MmapEntry)
      → Stored memory a (encode_all (before ++ map_tag version es ∷ after))
      → Stored memory (behind a before + 16) (encode_entries es)
  unfolding encode_all
  entries-Stored before after version a es st =
      let b = behind a before in
      let t = map_tag version es in
      let tags = Stored-behind before (t ∷ after) a st in
      let body =
        body_at memory b t (Stored-append_left memory b (encode t) (encode_all after) tags) in
      let moved : b + 8 + 8 ≡ b + 16 = omega arith in
      subst (λ z. Stored memory z (encode_entries es)) moved
        (Stored-append_right memory (b + 8) (bytes32 24 ++ bytes32 version) (encode_entries es)
          body)

apply_tag-IsNoMap :
    (a : ℕ) (t : Tag) (info : MbInfo) → IsNoMap t → (apply_tag a t info).mmap ≡ info.mmap
unfolding apply_tag take_rsdp
apply_tag-IsNoMap a (memory_map entry_size version count entries) info none_here = ground arith
apply_tag-IsNoMap a (framebuffer low high pitch width height depth kind colors) info none_here =
    elim (Bool-cases (kind == 2)) [ inl text ↦ rw text refl | inr graphics ↦ rw graphics refl ]
apply_tag-IsNoMap a (old_rsdp bytes) info none_here = elim (Bool-cases (ltb info.acpi.version 1)) [
  | inl older ↦ rw older refl
  | inr newer ↦ rw newer refl
]
apply_tag-IsNoMap a (new_rsdp bytes) info none_here = elim (Bool-cases (ltb info.acpi.version 2)) [
  | inl older ↦ rw older refl
  | inr newer ↦ rw newer refl
]
apply_tag-IsNoMap a (other type bytes) info none_here = refl

apply_all-IsNoMap :
    (a : ℕ) (ts : List Tag) (info : MbInfo)
    → All IsNoMap ts
    → (apply_all a ts info).mmap ≡ info.mmap
unfolding apply_all
apply_all-IsNoMap a [] info none_here = refl
apply_all-IsNoMap a (t ∷ ts) info none_here =
    apply_all-IsNoMap (a + length (encode t)) ts (apply_tag a t info) none_here.1
    ∙ apply_tag-IsNoMap a t info none_here.0

-- The last memory map among the tags is the one that is kept.
pub apply_all-map_tag :
    (before after : List Tag) (version a : ℕ) (es : List MmapEntry) (info : MbInfo)
    → All IsNoMap after
    → (apply_all a (before ++ map_tag version es ∷ after) info).mmap
      ≡ record { count = length es; map = behind a before + 16 }
unfolding apply_all behind apply_tag
apply_all-map_tag [] after version a es info none_here =
    apply_all-IsNoMap (a + length (encode (map_tag version es))) after _ none_here
apply_all-map_tag (t ∷ before) after version a es info none_here =
    apply_all-map_tag before after version (a + length (encode t)) es (apply_tag a t info) none_here
