-- ===== src/Cpu.antt =====
-- The start of another processor: cpu_start and what it calls in kernel/system/apic/cpu.c. The
-- commands to the timer and to the interrupt controller are kept in a log, the last one in front.
-- What the hardware and the other processor answer is given by functions of the number of looks at
-- it.
pub mod Ipi
pub mod Polling
pub mod Handshake
pub mod Payload
use gapxos.Base.{
  ℕ, zero, suc, ◌+◌, ◌*◌, ◌/◌, ◌%◌, ◌^◌, Bool, true, false, Option, none, some, List, [], ◌∷◌, ◌==◌,
  if◌then◌else◌, ◌>>=◌,
}
use Prim.Native.Nat.{bit_or}
use gapxos.Vmm.Manager.{Machine, Manager, malloc_pages}

-- The timer loaded with a count; the command register of the interrupt controller written as a
-- model specific register, or in memory.
pub data Command : Type 0 where
  load_timer : (count : ℕ) → Command
  write_msr : (cmd dest : ℕ) → Command
  write_registers : (high low : ℕ) → Command

-- The members of struct ap_data that cpu_start writes.
pub record ApData : Type 0 where
  pub has_started : ℕ
  pub stack : ℕ

-- `clock` counts the looks at the timer, `icr_reads` those at the command register.
pub record Cpu (S : Type 0) : Type 0 where
  pub clock : ℕ
  pub icr_reads : ℕ
  pub log : List Command
  pub ap : ApData
  pub kern_vmm : Option Manager
  pub memory : S

-- The variable cmd of cpu_send_ipi.
unfoldable pub ipi_word : ℕ → ℕ → ℕ
ipi_word vector mode = bit_or (bit_or vector (mode % 8 * 2 ^ 8)) 0x4000

-- Parameters: the status of the timer and the member has_started at each look at the timer, the
-- command register at each look at it, and what cpuid says of x2APIC.
module _ {S : Type 0} (machine : Machine S) (timer started icr : ℕ → ℕ) (is_x2apic : Bool) where
  abbrev send : Command → Cpu S → Cpu S
  send c s = record s { log = c ∷ s.log }

  -- The counter takes 16 bits of the number of cycles.
  unfoldable pub pit_set_timeout : ℕ → Cpu S → Cpu S
  pit_set_timeout ms s = send (load_timer (ms * 1193 % 2 ^ 32 % 2 ^ 16)) s

  unfoldable pub pit_timeout_reached : Cpu S → Bool × Cpu S
  pit_timeout_reached s = (timer s.clock / 2 ^ 7 % 2 == 1, record s { clock = s.clock + 1 })

  -- The loop that ends cpu_send_ipi, on fuel.
  unfoldable pub wait_accepted : ℕ → Cpu S → Option (Cpu S)
  wait_accepted zero s = none
  wait_accepted (suc fuel) s =
      let s' : Cpu S = record s { icr_reads = s.icr_reads + 1 } in
      elim (icr s.icr_reads / 2 ^ 11 % 2 == 1) [ true ↦ wait_accepted fuel s' | false ↦ some s' ]

  unfoldable pub cpu_send_ipi : ℕ → ℕ → ℕ → ℕ → Cpu S → Option (Cpu S)
  cpu_send_ipi fuel vector mode dest s =
      let cmd = ipi_word vector mode in
      if is_x2apic
      then some (send (write_msr cmd dest) s)
      else wait_accepted fuel (send (write_registers (dest * 2 ^ 24 % 2 ^ 32) cmd) s)

  -- while (!_pit_timeout_reached()), on fuel.
  unfoldable pub wait_timeout : ℕ → Cpu S → Option (Cpu S)
  wait_timeout zero s = none
  wait_timeout (suc fuel) s =
      let (reached, s') = pit_timeout_reached s in
      elim reached [ true ↦ some s' | false ↦ wait_timeout fuel s' ]

  -- The loops that look at has_started too, on fuel: whether they saw it set.
  unfoldable pub poll_started : ℕ → Cpu S → Option (Bool × Cpu S)
  poll_started zero s = none
  poll_started (suc fuel) s =
      let (reached, s') = pit_timeout_reached s in
      elim reached [
        | true ↦ some (false, s')
        | false ↦ elim (started s.clock == 0) [
          | true ↦ poll_started fuel s'
          | false ↦ some (true, s')
        ]
      ]

  unfoldable pub cpu_started : Cpu S → Option (Cpu S)
  cpu_started s = do
    (addr, vmm, memory') ← malloc_pages machine s.kern_vmm 4 1 0 1 s.memory
    some (record s {
      ap = record { has_started = 0; stack = addr };
      kern_vmm = vmm;
      memory = memory';
    })

  -- One startup interrupt, and the wait for the other processor.
  unfoldable pub try_start : ℕ → ℕ → ℕ → ℕ → Cpu S → Option (Bool × Cpu S)
  try_start fuel page_number lapic ms s = do
    sent ← cpu_send_ipi fuel page_number 6 lapic s
    poll_started fuel (pit_set_timeout ms sent)

  -- cpu_start behind its declarations. The result is 0 if the processor has started, and else 1.
  unfoldable pub start_at : ℕ → ℕ → ℕ → Cpu S → Option (ℕ × Cpu S)
  start_at fuel page_number lapic s = do
    init ← cpu_send_ipi fuel 0 5 lapic s
    ready ← wait_timeout fuel (pit_set_timeout 10 init)
    (seen, s1) ← try_start fuel page_number lapic 1 ready
    elim seen [
      | true ↦ do s' ← cpu_started s1; some (0, s')
      | false ↦ do
        (late, s2) ← try_start fuel page_number lapic 1000 s1
        elim late [ true ↦ do s' ← cpu_started s2; some (0, s') | false ↦ some (1, s2) ]
    ]

  -- ap_low_page is pmm_ap_low_page.
  unfoldable pub cpu_start : ℕ → ℕ → ℕ → Cpu S → Option (ℕ × Cpu S)
  cpu_start fuel ap_low_page lapic s = start_at fuel (ap_low_page / 4096 % 2 ^ 8) lapic s
