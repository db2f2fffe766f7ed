-- ===== src/Apic/Settled.antt =====
-- What apic_parse_madt of apic.c leaves in the list of local controllers.
use gapxos.Base.{
  ℕ, ◌+◌, ◌≡◌, ◌<◌, refl, true, none, some, List, [], ◌∷◌, map, All, arith, ◌==◌, Bool-cases,
  Option-cases, inl, inr, length, load32, Stored,
}
use gapxos.Apic.{
  Nmi, Lapic, ApicInfo, update_lapic, set_nmi, lint_of, set_lapic_nmi_lint, register_ioapic,
  register_iso, register_nmi_source, apply_global, apic_parse_madt, mode_legacy_apic, mode_x2apic,
}
use gapxos.Apic.Encoding.{
  Entry, legacy_lapic, x2apic_lapic, io_controller, source_override, nmi_line, legacy_nmi,
  x2apic_nmi, lapic_address, other, IsEntry, encode_all, apply_entry, apply_all,
}
use gapxos.Apic.Nodes.{IsUnique, lapic_of, update_lapic-IsUnique, update_lapic-none}
use gapxos.Apic.Parse.{apic_parse_madt-encode_all}
use gapxos.Apic.Processors.{
  register_lapic-IsRegistered, set_lapic_nmi_lint-new, set_lapic_nmi_lint-old,
  set_lapic_nmi_lint-global,
}

-- At most one node for a processor; and the line for all processors, if there is one, is that of
-- each.
pub record IsSettled (s : ApicInfo) : Type 0 where
  pub unique : IsUnique s.lapic
  pub global : s.global_nmi_lint.present ≡ true → All (λ x. x.nmi ≡ s.global_nmi_lint) s.lapic

lapic_of-set_nmi :
    (nmi : Nmi) (u : ℕ) (xs : List Lapic)
    → lapic_of u xs ≡ none
    → lapic_of u (map (set_nmi nmi) xs) ≡ none
unfolding lapic_of
lapic_of-set_nmi nmi u [] e = refl
lapic_of-set_nmi nmi u (x ∷ xs) e = elim (Bool-cases (x.proc_uid == u)) [
  | inl hit ↦ ground arith
  | inr miss ↦ rw miss (lapic_of-set_nmi nmi u xs (ground arith))
]

map-set_nmi-IsUnique : (nmi : Nmi) (xs : List Lapic) → IsUnique xs → IsUnique (map (set_nmi nmi) xs)
map-set_nmi-IsUnique nmi [] unique = tt
map-set_nmi-IsUnique nmi (x ∷ xs) unique =
    (lapic_of-set_nmi nmi x.proc_uid xs unique.0, map-set_nmi-IsUnique nmi xs unique.1)

map-set_nmi-All : (nmi : Nmi) (xs : List Lapic) → All (λ x. x.nmi ≡ nmi) (map (set_nmi nmi) xs)
map-set_nmi-All nmi [] = tt
map-set_nmi-All nmi (x ∷ xs) = (refl, map-set_nmi-All nmi xs)

module _ (fresh : List Lapic → Lapic) (redirections : ℕ → ℕ) where
  set_lapic_nmi_lint-IsUnique :
      (uid flags lint_no : ℕ) (s : ApicInfo)
      → IsUnique s.lapic
      → IsUnique (set_lapic_nmi_lint fresh redirections uid flags lint_no s).lapic
  set_lapic_nmi_lint-IsUnique uid flags lint_no s unique = elim (Bool-cases (uid == 0xFF)) [
    | inl all ↦ rw (set_lapic_nmi_lint-global fresh redirections uid flags lint_no s all) unique
    | inr one ↦
        let g = set_nmi (lint_of flags lint_no) in
        elim (Option-cases (update_lapic uid g s.lapic)) [
          | inl gone ↦
              rw (set_lapic_nmi_lint-new fresh redirections uid flags lint_no s one gone)
                (update_lapic-none uid g s.lapic gone, unique)
          | inr (ys, e) ↦
              rw (set_lapic_nmi_lint-old fresh redirections uid flags lint_no s ys one e)
                (update_lapic-IsUnique uid g s.lapic ys (λ x. refl) e unique)
        ]
  ]

  apply_entry-IsUnique :
      (e : Entry) (s : ApicInfo)
      → IsUnique s.lapic
      → IsUnique (apply_entry fresh redirections e s).lapic
  unfolding apply_entry register_ioapic register_iso register_nmi_source
  apply_entry-IsUnique (legacy_lapic uid id flags) s unique =
      (register_lapic-IsRegistered fresh redirections uid id flags mode_legacy_apic s unique).unique
  apply_entry-IsUnique (x2apic_lapic uid id flags) s unique =
      (register_lapic-IsRegistered fresh redirections uid id flags mode_x2apic s unique).unique
  apply_entry-IsUnique (legacy_nmi uid flags lint_no) s unique =
      set_lapic_nmi_lint-IsUnique uid flags lint_no s unique
  apply_entry-IsUnique (x2apic_nmi uid flags lint_no) s unique =
      set_lapic_nmi_lint-IsUnique uid flags lint_no s unique
  apply_entry-IsUnique (io_controller id addr gsi_base) s unique = unique
  apply_entry-IsUnique (source_override bus irq gsi flags) s unique = unique
  apply_entry-IsUnique (nmi_line flags gsi) s unique = unique
  apply_entry-IsUnique (lapic_address low high) s unique = unique
  apply_entry-IsUnique (other kind body) s unique = unique

  apply_all-IsUnique :
      (es : List Entry) (s : ApicInfo)
      → IsUnique s.lapic
      → IsUnique (apply_all fresh redirections es s).lapic
  unfolding apply_all
  apply_all-IsUnique [] s unique = unique
  apply_all-IsUnique (e ∷ es) s unique =
      apply_all-IsUnique es (apply_entry fresh redirections e s) (apply_entry-IsUnique e s unique)

  apply_global-IsSettled :
      (s : ApicInfo) → IsUnique s.lapic → IsSettled (apply_global fresh redirections s)
  unfolding apply_global
  apply_global-IsSettled s unique = elim (Bool-cases s.global_nmi_lint.present) [
    | inl set ↦
        let nmi : Nmi = record s.global_nmi_lint { present = true } in
        rw set (record {
          unique = map-set_nmi-IsUnique nmi s.lapic unique;
          global = λ p. map-set_nmi-All nmi s.lapic;
        })
    | inr unset ↦ rw unset (record { unique = unique; global = λ p. ground arith })
  ]

  -- From a list with at most one local controller for a processor, on a table whose bytes behind
  -- the header are entries with their fields in range, with a length that counts both, and fuel
  -- above it: apic_parse_madt returns such a list, and where a line for all processors has been
  -- given, every controller of the list has it.
  pub apic_parse_madt-IsSettled :
      (memory : ℕ → ℕ) (fuel madt : ℕ) (es : List Entry) (s : ApicInfo)
      → IsUnique s.lapic
      → All IsEntry es
      → Stored memory (madt + 44) (encode_all es)
      → load32 memory (madt + 4) ≡ 44 + length (encode_all es)
      → load32 memory (madt + 4) < fuel
      → (s' : ApicInfo) × (apic_parse_madt fresh redirections fuel memory madt s ≡ some s')
        × IsSettled s'
  apic_parse_madt-IsSettled memory fuel madt es s unique fit st long enough =
      let s0 : ApicInfo = record s { lapic_addr = load32 memory (madt + 36) } in
      let s1 = apply_all fresh redirections es s0 in
      (
        apply_global fresh redirections s1,
        apic_parse_madt-encode_all fresh redirections memory fuel madt es s fit st long enough,
        apply_global-IsSettled s1 (apply_all-IsUnique es s0 unique),
      )
