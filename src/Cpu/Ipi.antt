-- ===== src/Cpu/Ipi.antt =====
-- The command that cpu_send_ipi of cpu.c gives to the interrupt controller.
use gapxos.Base.{
  ℕ, suc, ◌+◌, ◌*◌, ◌/◌, ◌%◌, ◌^◌, ◌<◌, ◌≡◌, refl, ap, arith, Bool, false, some, ◌∷◌, if◌then◌else◌,
  bit_or_low, halve, halve-bit_or, zero-bit_or, inl, inr, Bool-cases,
}
use Prim.Native.Nat.{bit_or}
use gapxos.Vmm.Manager.{Machine}
use gapxos.Cpu.{Command, write_msr, write_registers, Cpu, ipi_word, wait_accepted, cpu_send_ipi}

halve-8 : (a : ℕ) → halve 8 a ≡ a / 2 ^ 8
halve-8 a = omega arith

halve-14 : (a : ℕ) → halve 14 a ≡ a / 2 ^ 14
halve-14 a = omega arith

beside_8 : (a b : ℕ) → a < 2 ^ 8 → bit_or a (b * 2 ^ 8) ≡ a + b * 2 ^ 8
beside_8 a b small =
    let none_left : halve 8 a ≡ 0 = omega arith in
    let above : halve 8 (b * 2 ^ 8) ≡ b = omega arith in
    omega (
      arith,
      bit_or_low 8 a (b * 2 ^ 8) (omega arith),
      halve-8 (bit_or a (b * 2 ^ 8)),
      halve-bit_or 8 a (b * 2 ^ 8),
      ap (λ z. bit_or z (halve 8 (b * 2 ^ 8))) none_left,
      ap (bit_or 0) above,
      zero-bit_or b,
    )

beside_14 : (a : ℕ) → a < 2 ^ 14 → bit_or a 0x4000 ≡ a + 0x4000
beside_14 a small =
    let none_left : halve 14 a ≡ 0 = omega arith in
    omega (
      arith,
      bit_or_low 14 a 0x4000 refl,
      halve-14 (bit_or a 0x4000),
      halve-bit_or 14 a 0x4000,
      ap (λ z. bit_or z 1) none_left,
      zero-bit_or 1,
    )

-- The vector, the delivery mode and the level have places of their own in the word.
pub ipi_word_lem :
    (vector mode : ℕ)
    → vector < 2 ^ 8
    → mode < 8
    → ipi_word vector mode ≡ vector + 2 ^ 8 * mode + 2 ^ 14
unfolding ipi_word
ipi_word_lem vector mode v m =
    let low : mode % 8 ≡ mode = omega arith in
    let e = beside_8 vector mode v in
    rw (low, e, beside_14 (vector + mode * 2 ^ 8) (omega arith)) (omega arith)

-- The command register never has its bit 11 set, as it is not in the words that are written.
abbrev pub IsIdle : (ℕ → ℕ) → Type 0
IsIdle icr = (n : ℕ) → icr n / 2 ^ 11 % 2 ≡ 0

wait_accepted-IsIdle :
    {S : Type 0}
    → (machine : Machine S) (timer started icr : ℕ → ℕ) (is_x2apic : Bool) (fuel : ℕ) (s : Cpu S)
    → IsIdle icr
    → wait_accepted machine timer started icr is_x2apic (suc fuel) s
      ≡ some (record s { icr_reads = s.icr_reads + 1 })
unfolding wait_accepted
wait_accepted-IsIdle machine timer started icr is_x2apic fuel s idle =
    rw (wait_accepted, idle s.icr_reads) refl

module _ {S : Type 0} (machine : Machine S) (timer started icr : ℕ → ℕ) (is_x2apic : Bool) where
  -- What a processor is sent.
  abbrev pub ipi : ℕ → ℕ → ℕ → Command
  ipi vector mode dest =
      let word = vector + 2 ^ 8 * mode + 2 ^ 14 in
      if is_x2apic then write_msr word dest else write_registers (dest * 2 ^ 24 % 2 ^ 32) word

  pub cpu_send_ipi_lem :
      (fuel vector mode dest : ℕ) (s : Cpu S)
      → IsIdle icr
      → vector < 2 ^ 8
      → mode < 8
      → (reads : ℕ) × (cpu_send_ipi machine timer started icr is_x2apic
            (suc fuel)
            vector
            mode
            dest
            s
          ≡ some (record s { log = ipi vector mode dest ∷ s.log; icr_reads = reads }))
  unfolding cpu_send_ipi
  cpu_send_ipi_lem fuel vector mode dest s idle v m =
      let word = ipi_word_lem vector mode v m in
      elim (Bool-cases is_x2apic) [
        | inl x ↦ (s.icr_reads, rw (cpu_send_ipi, x, word) refl)
        | inr x ↦ (
          s.icr_reads + 1,
          rw (cpu_send_ipi, x, word)
              (wait_accepted-IsIdle machine timer started icr false fuel
                (record s {
                  log =
                      write_registers (dest * 2 ^ 24 % 2 ^ 32) (vector + 2 ^ 8 * mode + 2 ^ 14)
                      ∷ s.log;
                })
                idle),
        )
      ]
