-- ===== src/Apic.antt =====
-- The interrupt controllers that firmware describes: the first half of
-- kernel/system/apic/apic.c. The linked lists are lists, with the node in front that was made
-- last; memory is a function from addresses to bytes.
pub mod Encoding
pub mod Parse
pub mod Nodes
pub mod Processors
pub mod Settled
use gapxos.Base.{
  ℕ, zero, suc, ◌+◌, ◌/◌, ◌%◌, ◌^◌, Bool, true, false, Option, none, some, List, [], ◌∷◌, map, ltb,
  ◌==◌, if◌then◌else◌, load16, load32, load64,
}

-- enum apic_lapic_mode
pub data LapicMode : Type 0 where
  mode_legacy_apic mode_x2apic : LapicMode

-- The member nmi of struct apic_lapic, and global_nmi_lint.
pub record Nmi : Type 0 where
  pub present : Bool
  pub lint : ℕ
  pub polarity : ℕ
  pub trigger_mode : ℕ

-- struct apic_lapic
pub record Lapic : Type 0 where
  pub proc_uid : ℕ
  pub lapic_id : ℕ
  pub mode : LapicMode
  pub enabled : ℕ
  pub online_capable : ℕ
  pub nmi : Nmi

-- struct apic_io_apic
pub record IoApic : Type 0 where
  pub id : ℕ
  pub gdi_count : ℕ
  pub paddr : ℕ
  pub gsi_base : ℕ

-- struct apic_irq_map
pub record IrqMap : Type 0 where
  pub gsi : ℕ
  pub irq : ℕ
  pub polarity : ℕ
  pub trigger_mode : ℕ

-- struct apic_nmi_source
pub record NmiSource : Type 0 where
  pub gsi : ℕ
  pub polarity : ℕ
  pub trigger_mode : ℕ

-- apic_info and global_nmi_lint
pub record ApicInfo : Type 0 where
  pub lapic : List Lapic
  pub io_apic : List IoApic
  pub irq_gsi_map : List IrqMap
  pub nmi_source : List NmiSource
  pub lapic_addr : ℕ
  pub global_nmi_lint : Nmi

-- The bit fields of a struct _local_apic_flags and of a struct _mps_inti_flags.
abbrev pub enabled_bit : ℕ → ℕ
enabled_bit flags = flags % 2

abbrev pub online_bit : ℕ → ℕ
online_bit flags = flags / 2 % 2

abbrev pub polarity_bits : ℕ → ℕ
polarity_bits flags = flags % 4

abbrev pub trigger_bits : ℕ → ℕ
trigger_bits flags = flags / 4 % 4

-- The loops over the list for a processor: `none` when they come to its end.
unfoldable pub update_lapic : ℕ → (Lapic → Lapic) → List Lapic → Option (List Lapic)
update_lapic uid f [] = none
update_lapic uid f (x ∷ xs) =
    if x.proc_uid == uid
    then some (f x ∷ xs)
    else elim (update_lapic uid f xs) [ none ↦ none | some ys ↦ some (x ∷ ys) ]

-- The assignments to a node that _register_lapic makes in both branches.
abbrev pub set_lapic : ℕ → ℕ → LapicMode → Lapic → Lapic
set_lapic apic_id flags mode x = record x {
  lapic_id = apic_id;
  mode = mode;
  enabled = enabled_bit flags;
  online_capable = online_bit flags;
}

abbrev pub lint_of : ℕ → ℕ → Nmi
lint_of flags lint_no = record {
  present = true;
  lint = lint_no % 2;
  polarity = polarity_bits flags;
  trigger_mode = trigger_bits flags;
}

abbrev pub set_nmi : Nmi → Lapic → Lapic
set_nmi nmi x = record x { nmi = nmi }

-- What malloc leaves in a node that nothing is written to, by the nodes there are; and the word
-- at vaddr[4] of the input/output controller at an address, after 1 is written to vaddr[0].
module _ (fresh : List Lapic → Lapic) (redirections : ℕ → ℕ) where
  unfoldable pub register_lapic : ℕ → ℕ → ℕ → LapicMode → ApicInfo → ApicInfo
  register_lapic proc_uid apic_id flags mode s =
      elim (update_lapic proc_uid (set_lapic apic_id flags mode) s.lapic) [
        | some xs ↦ record s { lapic = xs }
        | none ↦
            let new = fresh s.lapic in
            record s {
              lapic =
                  set_lapic apic_id flags mode
                    (record new { proc_uid = proc_uid; nmi = record new.nmi { present = false } })
                  ∷ s.lapic;
            }
      ]

  unfoldable pub set_lapic_nmi_lint : ℕ → ℕ → ℕ → ApicInfo → ApicInfo
  set_lapic_nmi_lint proc_uid flags lint_no s =
      if proc_uid == 0xFF
      then record s { global_nmi_lint = lint_of flags lint_no }
      else elim (update_lapic proc_uid (set_nmi (lint_of flags lint_no)) s.lapic) [
        | some xs ↦ record s { lapic = xs }
        | none ↦ record s {
          lapic =
              record (fresh s.lapic) { proc_uid = proc_uid; nmi = lint_of flags lint_no } ∷ s.lapic;
        }
      ]

  unfoldable pub register_ioapic : ℕ → ℕ → ℕ → ApicInfo → ApicInfo
  register_ioapic id addr gsi_base s = record s {
    io_apic =
        record {
          id = id;
          gdi_count = redirections addr / 2 ^ 16 % 2 ^ 8;
          paddr = addr;
          gsi_base = gsi_base;
        }
        ∷ s.io_apic;
  }

  unfoldable pub register_iso : ℕ → ℕ → ℕ → ApicInfo → ApicInfo
  register_iso irq gsi flags s = record s {
    irq_gsi_map =
        record {
          gsi = gsi;
          irq = irq;
          polarity = polarity_bits flags;
          trigger_mode = trigger_bits flags;
        }
        ∷ s.irq_gsi_map;
  }

  unfoldable pub register_nmi_source : ℕ → ℕ → ApicInfo → ApicInfo
  register_nmi_source flags gsi s = record s {
    nmi_source =
        record { gsi = gsi; polarity = polarity_bits flags; trigger_mode = trigger_bits flags }
        ∷ s.nmi_source;
  }

  -- The switch over entry[0].
  unfoldable pub interpret_entry : (ℕ → ℕ) → ℕ → ApicInfo → ApicInfo
  interpret_entry memory entry s =
      let kind = memory entry in
      if kind == 0
      then register_lapic (memory (entry + 2)) (memory (entry + 3)) (load32 memory (entry + 4))
          mode_legacy_apic s
      else if kind == 9
      then register_lapic (load32 memory (entry + 4)) (load32 memory (entry + 8))
          (load32 memory (entry + 12)) mode_x2apic s
      else if kind == 1
      then register_ioapic (memory (entry + 2)) (load32 memory (entry + 4))
          (load32 memory (entry + 8)) s
      else if kind == 2
      then register_iso (memory (entry + 3)) (load32 memory (entry + 4)) (load16 memory (entry + 8))
          s
      else if kind == 3
      then register_nmi_source (load16 memory (entry + 2)) (load32 memory (entry + 4)) s
      else if kind == 4
      then set_lapic_nmi_lint (memory (entry + 2)) (load16 memory (entry + 3)) (memory (entry + 5))
          s
      else if kind == 10
      then set_lapic_nmi_lint (load32 memory (entry + 4)) (load16 memory (entry + 2))
          (memory (entry + 8)) s
      else if kind == 5
      then record s { lapic_addr = load64 memory (entry + 4) }
      else s

  -- The loop over the entries, on fuel: `none` when the fuel is used up.
  unfoldable pub parse_entries : (ℕ → ℕ) → ℕ → ℕ → ℕ → ApicInfo → Option ApicInfo
  parse_entries memory zero end entry s = none
  parse_entries memory (suc fuel) end entry s = elim (ltb entry end) [
    | false ↦ some s
    | true ↦
        parse_entries memory fuel end (entry + memory (entry + 1)) (interpret_entry memory entry s)
  ]

  -- The loop that ends apic_parse_madt.
  unfoldable pub apply_global : ApicInfo → ApicInfo
  apply_global s =
      if s.global_nmi_lint.present
      then record s { lapic = map (set_nmi (record s.global_nmi_lint { present = true })) s.lapic }
      else s

  unfoldable pub apic_parse_madt : ℕ → (ℕ → ℕ) → ℕ → ApicInfo → Option ApicInfo
  apic_parse_madt fuel memory madt s =
      elim (parse_entries memory fuel (madt + load32 memory (madt + 4)) (madt + 44)
        (record s { lapic_addr = load32 memory (madt + 36) })) [
          | none ↦ none
          | some s' ↦ some (apply_global s')
        ]
