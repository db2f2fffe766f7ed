-- ===== src/Examples/Apic.antt =====
-- apic.c on a table of five entries.
use gapxos.Base.{
  ℕ, ◌-◌, ◌≡◌, refl, true, false, some, none, Option, List, [], ◌∷◌, get_elem?, ltb, ◌==◌,
  if◌then◌else◌, arith, Stored,
}
use gapxos.Apic.{
  Nmi, Lapic, ApicInfo, mode_legacy_apic, mode_x2apic, update_lapic, register_lapic,
  register_ioapic, set_lapic_nmi_lint, interpret_entry, parse_entries, apply_global,
  apic_parse_madt,
}
use gapxos.Apic.Encoding.{
  Entry, legacy_lapic, io_controller, legacy_nmi, other, encode, encode_all, apply_all,
}
use gapxos.Apic.Parse.{apic_parse_madt-encode_all, apic_parse_madt_stuck}
use gapxos.Apic.Processors.{register_lapic-set_lapic_nmi_lint}
use gapxos.Apic.Settled.{IsSettled, apic_parse_madt-IsSettled}

abbrev no_nmi : Nmi
no_nmi = record { present = false; lint = 0; polarity = 0; trigger_mode = 0 }

abbrev blank : ApicInfo
blank = record {
  lapic = [];
  io_apic = [];
  irq_gsi_map = [];
  nmi_source = [];
  lapic_addr = 0;
  global_nmi_lint = no_nmi;
}

abbrev fresh : List Lapic → Lapic
fresh xs = record {
  proc_uid = 7;
  lapic_id = 7;
  mode = mode_x2apic;
  enabled = 1;
  online_capable = 1;
  nmi = no_nmi;
}

-- Two processors, a controller with 24 lines, an entry of an unknown kind, and a line for the
-- second processor whose entry comes first.
abbrev entries : List Entry
entries =
    legacy_nmi 1 5 1
    ∷ legacy_lapic 0 0 1
    ∷ legacy_lapic 1 2 3
    ∷ io_controller 0 0xfec00000 0
    ∷ other 16 (9 ∷ [])
    ∷ []

abbrev body : List ℕ
body =
    4 ∷ 6 ∷ 1 ∷ 5 ∷ 0 ∷ 1 ∷ 0 ∷ 8 ∷ 0 ∷ 0 ∷ 1 ∷ 0 ∷ 0 ∷ 0 ∷ 0 ∷ 8 ∷ 1 ∷ 2 ∷ 3 ∷ 0 ∷ 0 ∷ 0 ∷ 1 ∷ 12
    ∷ 0 ∷ 0 ∷ 0 ∷ 0 ∷ 0xc0 ∷ 0xfe ∷ 0 ∷ 0 ∷ 0 ∷ 0 ∷ 16 ∷ 3 ∷ 9 ∷ []

same_bytes : encode_all entries ≡ body
unfolding encode_all encode
same_bytes = refl

abbrev byte_of : Option ℕ → ℕ
byte_of none = 0
byte_of (some b) = b

-- The table stands at 0x1000; its length is 81.
abbrev memory : ℕ → ℕ
memory a =
    if a == 0x1004
    then 81
    else if a == 0x1027
    then 0xfe
    else if a == 0x1026
    then 0xe0
    else if ltb a 0x102c
    then 0
    else byte_of (get_elem? body (a - 0x102c))

abbrev redirections : ℕ → ℕ
redirections addr = 0x170011

parsed :
    apic_parse_madt fresh redirections 20 memory 0x1000 blank
    ≡ some (record {
      lapic =
          record {
            proc_uid = 0;
            lapic_id = 0;
            mode = mode_legacy_apic;
            enabled = 1;
            online_capable = 0;
            nmi = no_nmi;
          }
          ∷ record {
            proc_uid = 1;
            lapic_id = 2;
            mode = mode_legacy_apic;
            enabled = 1;
            online_capable = 1;
            nmi = record { present = true; lint = 1; polarity = 1; trigger_mode = 1 };
          }
          ∷ [];
      io_apic = record { id = 0; gdi_count = 0x17; paddr = 0xfec00000; gsi_base = 0 } ∷ [];
      irq_gsi_map = [];
      nmi_source = [];
      lapic_addr = 0xfee00000;
      global_nmi_lint = no_nmi;
    })
unfolding apic_parse_madt parse_entries interpret_entry register_lapic update_lapic register_ioapic
    set_lapic_nmi_lint apply_global
parsed = refl

stored : Stored memory 0x102c (encode_all entries)
unfolding encode_all encode
stored = omega arith

apic_parse_madt-encode_all_example :
    apic_parse_madt fresh redirections 82 memory 0x1000 blank
    ≡ some (
        apply_global fresh redirections
          (apply_all fresh redirections entries (record blank { lapic_addr = 0xfee00000 })))
unfolding encode_all encode
apic_parse_madt-encode_all_example =
    apic_parse_madt-encode_all fresh redirections memory 82 0x1000 entries blank (omega arith)
      stored refl (omega arith)

apic_parse_madt-IsSettled_example :
    (s' : ApicInfo) × (apic_parse_madt fresh redirections 82 memory 0x1000 blank ≡ some s')
    × IsSettled s'
unfolding encode_all encode
apic_parse_madt-IsSettled_example =
    apic_parse_madt-IsSettled fresh redirections memory 82 0x1000 entries blank tt (omega arith)
      stored refl (omega arith)

-- The same table with a length that takes in a byte and a zero behind it.
abbrev stuck_memory : ℕ → ℕ
stuck_memory a = if a == 0x1004 then 90 else memory a

stuck-Stored : Stored stuck_memory 0x102c (encode_all entries)
unfolding encode_all encode
stuck-Stored = omega arith

apic_parse_madt_stuck_example :
    apic_parse_madt fresh redirections 1000 stuck_memory 0x1000 blank ≡ none
unfolding encode_all encode
apic_parse_madt_stuck_example =
    apic_parse_madt_stuck fresh redirections stuck_memory 1000 0x1000 entries blank (omega arith)
      stuck-Stored (omega arith) refl

register_lapic-set_lapic_nmi_lint_example :
    register_lapic fresh redirections 1 2 3 mode_legacy_apic
      (set_lapic_nmi_lint fresh redirections 1 5 1 blank)
    ≡ set_lapic_nmi_lint fresh redirections 1 5 1
        (register_lapic fresh redirections 1 2 3 mode_legacy_apic blank)
register_lapic-set_lapic_nmi_lint_example =
    register_lapic-set_lapic_nmi_lint fresh redirections 1 2 3 5 1 mode_legacy_apic blank
