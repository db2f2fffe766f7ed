-- ===== src/Apic/Encoding.antt =====
-- The entries of the table that apic.c parses, as bytes and as what they ask for.
use gapxos.Base.{ℕ, ◌+◌, ◌*◌, ◌^◌, ◌<◌, ◌≢◌, List, [], ◌∷◌, ◌++◌, length, bytes16, bytes32}
use gapxos.Apic.{
  mode_legacy_apic, mode_x2apic, Lapic, ApicInfo, register_lapic, register_ioapic, register_iso,
  register_nmi_source, set_lapic_nmi_lint,
}

pub data Entry : Type 0 where
  legacy_lapic : (uid id flags : ℕ) → Entry
  x2apic_lapic : (uid id flags : ℕ) → Entry
  io_controller : (id addr gsi_base : ℕ) → Entry
  source_override : (bus irq gsi flags : ℕ) → Entry
  nmi_line : (flags gsi : ℕ) → Entry
  legacy_nmi : (uid flags lint_no : ℕ) → Entry
  x2apic_nmi : (uid flags lint_no : ℕ) → Entry
  lapic_address : (low high : ℕ) → Entry
  other : (kind : ℕ) (body : List ℕ) → Entry

-- The bytes behind the first two, with the kind.
abbrev pub kind_of : Entry → ℕ
kind_of (legacy_lapic uid id flags) = 0
kind_of (x2apic_lapic uid id flags) = 9
kind_of (io_controller id addr gsi_base) = 1
kind_of (source_override bus irq gsi flags) = 2
kind_of (nmi_line flags gsi) = 3
kind_of (legacy_nmi uid flags lint_no) = 4
kind_of (x2apic_nmi uid flags lint_no) = 10
kind_of (lapic_address low high) = 5
kind_of (other kind body) = kind

abbrev pub body_of : Entry → List ℕ
body_of (legacy_lapic uid id flags) = uid ∷ id ∷ bytes32 flags
body_of (x2apic_lapic uid id flags) = 0 ∷ 0 ∷ (bytes32 uid ++ (bytes32 id ++ bytes32 flags))
body_of (io_controller id addr gsi_base) = id ∷ 0 ∷ (bytes32 addr ++ bytes32 gsi_base)
body_of (source_override bus irq gsi flags) = bus ∷ irq ∷ (bytes32 gsi ++ bytes16 flags)
body_of (nmi_line flags gsi) = bytes16 flags ++ bytes32 gsi
body_of (legacy_nmi uid flags lint_no) = uid ∷ (bytes16 flags ++ (lint_no ∷ []))
body_of (x2apic_nmi uid flags lint_no) =
    bytes16 flags ++ (bytes32 uid ++ (lint_no ∷ 0 ∷ 0 ∷ 0 ∷ []))
body_of (lapic_address low high) = 0 ∷ 0 ∷ (bytes32 low ++ bytes32 high)
body_of (other kind body) = body

unfoldable pub encode : Entry → List ℕ
encode e = kind_of e ∷ (length (body_of e) + 2) ∷ body_of e

unfoldable pub encode_all : List Entry → List ℕ
encode_all [] = []
encode_all (e ∷ es) = encode e ++ encode_all es

-- The fields fit their words, and an entry of another kind is of none of the eight.
abbrev pub IsEntry : Entry → Type 0
IsEntry (legacy_lapic uid id flags) = flags < 2 ^ 32
IsEntry (x2apic_lapic uid id flags) = (uid < 2 ^ 32) × (id < 2 ^ 32) × (flags < 2 ^ 32)
IsEntry (io_controller id addr gsi_base) = (addr < 2 ^ 32) × (gsi_base < 2 ^ 32)
IsEntry (source_override bus irq gsi flags) = (gsi < 2 ^ 32) × (flags < 2 ^ 16)
IsEntry (nmi_line flags gsi) = (flags < 2 ^ 16) × (gsi < 2 ^ 32)
IsEntry (legacy_nmi uid flags lint_no) = flags < 2 ^ 16
IsEntry (x2apic_nmi uid flags lint_no) = (uid < 2 ^ 32) × (flags < 2 ^ 16)
IsEntry (lapic_address low high) = (low < 2 ^ 32) × (high < 2 ^ 32)
IsEntry (other kind body) = (5 < kind) × (kind ≢ 9) × (kind ≢ 10)

module _ (fresh : List Lapic → Lapic) (redirections : ℕ → ℕ) where
  -- What an entry asks for.
  unfoldable pub apply_entry : Entry → ApicInfo → ApicInfo
  apply_entry (legacy_lapic uid id flags) =
      register_lapic fresh redirections uid id flags mode_legacy_apic
  apply_entry (x2apic_lapic uid id flags) =
      register_lapic fresh redirections uid id flags mode_x2apic
  apply_entry (io_controller id addr gsi_base) = register_ioapic fresh redirections id addr gsi_base
  apply_entry (source_override bus irq gsi flags) = register_iso fresh redirections irq gsi flags
  apply_entry (nmi_line flags gsi) = register_nmi_source fresh redirections flags gsi
  apply_entry (legacy_nmi uid flags lint_no) =
      set_lapic_nmi_lint fresh redirections uid flags lint_no
  apply_entry (x2apic_nmi uid flags lint_no) =
      set_lapic_nmi_lint fresh redirections uid flags lint_no
  apply_entry (lapic_address low high) = λ s. record s { lapic_addr = low + 2 ^ 32 * high }
  apply_entry (other kind body) = λ s. s

  unfoldable pub apply_all : List Entry → ApicInfo → ApicInfo
  apply_all [] s = s
  apply_all (e ∷ es) s = apply_all es (apply_entry e s)
