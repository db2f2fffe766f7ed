-- ===== src/Cpu/Payload.antt =====
-- What cpu_init_ap_payload of cpu.c leaves in memory for another processor.
use gapxos.Base.{
  ℕ, zero, suc, ◌+◌, ◌-◌, ◌*◌, ◌/◌, ◌^◌, ◌≤◌, ◌<◌, ◌≡◌, refl, ◌∙◌, subst, sym, arith, some,
  get_elem?, List, [], ◌∷◌, ◌++◌, length, All, inl, ◌⊎◌, ◌==◌, if◌then◌else◌, bytes16, bytes32,
  load16, load32, Stored, load32-Stored, true, false,
}
use gapxos.Pmm.{Pmm, pmm_free_page}

abbrev pub bytes64 : ℕ → List ℕ
bytes64 v = bytes32 v ++ bytes32 (v / 2 ^ 32)

-- Bytes written from an address on.
unfoldable pub store_bytes : (ℕ → ℕ) → ℕ → List ℕ → ℕ → ℕ
store_bytes memory a [] = memory
store_bytes memory a (b ∷ bs) = store_bytes (λ i. if i == a then b else memory i) (a + 1) bs

-- A store: its address and its bytes.
abbrev pub Write : Type 0
Write = ℕ × List ℕ

unfoldable pub write_all : (ℕ → ℕ) → List Write → ℕ → ℕ
write_all memory [] = memory
write_all memory (w ∷ ws) = write_all (store_bytes memory w.0 w.1) ws

-- The stores of cpu_init_ap_payload in their order, through the map of physical memory: for the
-- payload, the register cr3, pmm_ap_low_page and the address of _ap_entry_point.
abbrev pub payload_writes : List ℕ → ℕ → ℕ → ℕ → List Write
payload_writes payload pml4t location entry_point =
    let payload_data = location + length payload in
    let payload_gdt = payload_data + 31 in
    (location, payload)
    ∷ (location + 1, bytes16 payload_data)
    ∷ (payload_gdt, bytes64 0x000100000000ffff)
    ∷ (payload_gdt + 8, bytes64 0x0000920000000000)
    ∷ (payload_gdt + 16, bytes64 0x00af9a000000ffff)
    ∷ (payload_data, bytes32 pml4t)
    ∷ (payload_data + 10, bytes16 location)
    ∷ (payload_data + 14, bytes64 entry_point)
    ∷ (payload_data + 6, bytes32 payload_gdt)
    ∷ (payload_data + 4, bytes16 23)
    ∷ (payload_data + 12, bytes16 16)
    ∷ (payload_data + 22, 0 ∷ [])
    ∷ []

unfoldable pub cpu_init_ap_payload : List ℕ → ℕ → ℕ → ℕ → (ℕ → ℕ) → ℕ → ℕ
cpu_init_ap_payload payload pml4t location entry_point memory =
    write_all memory (payload_writes payload pml4t location entry_point)

abbrev pub cpu_free_ap_payload : Pmm → Pmm
cpu_free_ap_payload p = pmm_free_page p.ap_low_page p

store_bytes-other :
    (bs : List ℕ) (memory : ℕ → ℕ) (a i : ℕ)
    → (i < a) ⊎ (a + length bs ≤ i)
    → store_bytes memory a bs i ≡ memory i
unfolding store_bytes
store_bytes-other [] memory a i apart = refl
store_bytes-other (b ∷ bs) memory a i apart =
    let other : (i == a) ≡ false = ground arith in
    let rest =
      store_bytes-other bs (λ j. if j == a then b else memory j) (a + 1) i (ground arith) in
    rest ∙ rw other refl

store_bytes-Stored : (bs : List ℕ) (memory : ℕ → ℕ) (a : ℕ) → Stored (store_bytes memory a bs) a bs
unfolding store_bytes
store_bytes-Stored [] memory a = tt
store_bytes-Stored (b ∷ bs) memory a =
    let here : (a == a) ≡ true = ground arith in
    (
      store_bytes-other bs (λ j. if j == a then b else memory j) (a + 1) a (inl (omega arith))
          ∙ rw here refl,
      store_bytes-Stored bs (λ j. if j == a then b else memory j) (a + 1),
    )

-- Bytes that another store does not reach.
abbrev IsApart : ℕ → List ℕ → Write → Type 0
IsApart a bs w = (a + length bs ≤ w.0) ⊎ (w.0 + length w.1 ≤ a)

Stored-store_bytes :
    (bs : List ℕ) (memory : ℕ → ℕ) (a : ℕ) (w : Write)
    → IsApart a bs w
    → Stored memory a bs
    → Stored (store_bytes memory w.0 w.1) a bs
Stored-store_bytes [] memory a w apart st = tt
Stored-store_bytes (b ∷ bs) memory a w apart st = (
  store_bytes-other w.1 memory w.0 a (ground arith) ∙ st.0,
  Stored-store_bytes bs memory (a + 1) w (ground arith) st.1,
)

Stored-write_all :
    (ws : List Write) (bs : List ℕ) (memory : ℕ → ℕ) (a : ℕ)
    → All (IsApart a bs) ws
    → Stored memory a bs
    → Stored (write_all memory ws) a bs
unfolding write_all
Stored-write_all [] bs memory a apart st = st
Stored-write_all (w ∷ ws) bs memory a apart st =
    Stored-write_all ws bs (store_bytes memory w.0 w.1) a apart.1
      (Stored-store_bytes bs memory a w apart.0 st)

-- The stores behind the one with a number.
abbrev behind : ℕ → List Write → List Write
behind k [] = []
behind zero (w ∷ ws) = ws
behind (suc k) (w ∷ ws) = behind k ws

-- A store stands in memory in the end if no later one reaches its bytes.
written :
    (ws : List Write) (k : ℕ) (w : Write) (memory : ℕ → ℕ)
    → get_elem? ws k ≡ some w
    → All (IsApart w.0 w.1) (behind k ws)
    → Stored (write_all memory ws) w.0 w.1
unfolding write_all
written [] k w memory e apart = ground arith
written (v ∷ ws) zero w memory e apart =
    let same : v ≡ w = ground arith in
    subst (λ z. Stored (write_all (store_bytes memory v.0 v.1) ws) z.0 z.1) same
      (Stored-write_all ws v.1 (store_bytes memory v.0 v.1) v.0
        (subst (λ z. All (IsApart z.0 z.1) ws) (sym same) apart)
        (store_bytes-Stored v.1 memory v.0))
written (v ∷ ws) (suc k) w memory e apart = written ws k w (store_bytes memory v.0 v.1) e apart

write_all-other :
    (ws : List Write) (memory : ℕ → ℕ) (i : ℕ)
    → All (λ w. (i < w.0) ⊎ (w.0 + length w.1 ≤ i)) ws
    → write_all memory ws i ≡ memory i
unfolding write_all
write_all-other [] memory i apart = refl
write_all-other (w ∷ ws) memory i apart =
    write_all-other ws (store_bytes memory w.0 w.1) i apart.1
    ∙ store_bytes-other w.1 memory w.0 i apart.0

-- What the processor reads: in the payload, in the struct ap_data and in the table behind it.
pub record IsLoaded (payload_data pml4t location entry_point : ℕ) (memory : ℕ → ℕ) : Type 0 where
  pub data_address : load16 memory (location + 1) ≡ payload_data
  pub pml4t_is : Stored memory payload_data (bytes32 pml4t)
  pub limit : load16 memory (payload_data + 4) ≡ 3 * 8 - 1
  pub base : load32 memory (payload_data + 6) ≡ payload_data + 31
  pub start : load16 memory (payload_data + 10) ≡ location
  pub selector : load16 memory (payload_data + 12) ≡ 2 * 8
  pub entry_is : Stored memory (payload_data + 14) (bytes64 entry_point)
  pub waiting : memory (payload_data + 22) ≡ 0
  pub code : Stored memory (payload_data + 31 + 2 * 8) (bytes64 0x00af9a000000ffff)

module _ (payload : List ℕ) (pml4t location entry_point : ℕ) (memory : ℕ → ℕ) where
  abbrev ws : List Write
  ws = payload_writes payload pml4t location entry_point

  abbrev done : ℕ → ℕ
  done = cpu_init_ap_payload payload pml4t location entry_point memory

  stored :
      (k : ℕ) (w : Write)
      → get_elem? ws k ≡ some w
      → All (IsApart w.0 w.1) (behind k ws)
      → Stored done w.0 w.1
  unfolding cpu_init_ap_payload
  stored k w e apart = written ws k w memory e apart

  loaded16 : (a v : ℕ) → v < 2 ^ 16 → Stored done a (bytes16 v) → load16 done a ≡ v
  loaded16 a v small st = omega (arith, st.0, st.1)

  loaded32 : (a v : ℕ) → v < 2 ^ 32 → Stored done a (bytes32 v) → load32 done a ≡ v
  loaded32 a v small st =
      let here : a + 0 ≡ a = omega arith in
      subst (λ z. load32 done z ≡ v) here
        (load32-Stored done a 0 v (bytes32 v) st small refl refl refl refl)

  -- With a payload of three bytes at least that ends below 2^16: cpu_init_ap_payload leaves in it
  -- the address of the struct ap_data behind it. There the processor finds the page tables, the
  -- address and the last byte of a table of three descriptors, the selector of its code segment,
  -- where it is, where to go on, and a flag that is clear; and no byte in front of the payload or
  -- behind that table has changed.
  pub cpu_init_ap_payload-IsLoaded :
      3 ≤ length payload
      → location + length payload < 2 ^ 16
      → IsLoaded (location + length payload) pml4t location entry_point done
        × ((i : ℕ) → (i < location) ⊎ (location + length payload + 55 ≤ i) → done i ≡ memory i)
  unfolding cpu_init_ap_payload
  cpu_init_ap_payload-IsLoaded long low =
      let at = location + length payload in
      (
        record {
          data_address =
              loaded16 (location + 1) at low
                (stored 1 (location + 1, bytes16 at) refl (ground arith));
          pml4t_is = stored 5 (at, bytes32 pml4t) refl (ground arith);
          limit =
              loaded16 (at + 4) 23 (omega arith)
                (stored 9 (at + 4, bytes16 23) refl (ground arith));
          base =
              loaded32 (at + 6) (at + 31) (omega arith)
                (stored 8 (at + 6, bytes32 (at + 31)) refl (ground arith));
          start =
              loaded16 (at + 10) location (omega arith)
                (stored 6 (at + 10, bytes16 location) refl (ground arith));
          selector =
              loaded16 (at + 12) 16 (omega arith)
                (stored 10 (at + 12, bytes16 16) refl (ground arith));
          entry_is = stored 7 (at + 14, bytes64 entry_point) refl (ground arith);
          waiting = (stored 11 (at + 22, 0 ∷ []) refl (ground arith)).0;
          code = stored 4 (at + 31 + 16, bytes64 0x00af9a000000ffff) refl (ground arith);
        },
        λ i outside. write_all-other ws memory i (ground arith),
      )
