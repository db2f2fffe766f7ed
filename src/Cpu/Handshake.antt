-- ===== src/Cpu/Handshake.antt =====
-- cpu_start of cpu.c: what it sends, what it waits for, and what it returns.
use gapxos.Base.{
  ℕ, zero, suc, ◌+◌, ◌*◌, ◌/◌, ◌%◌, ◌^◌, ◌≤◌, ◌<◌, ◌≡◌, refl, ap, ◌∙◌, arith, Bool, true, false,
  Option, some, List, ◌∷◌, inl, inr, ◌⊎◌, Bool-cases,
}
use gapxos.Vmm.Manager.{Machine, Manager, malloc_pages}
use gapxos.Cpu.{
  Command, load_timer, Cpu, pit_set_timeout, cpu_started, try_start, start_at, cpu_start,
}
use gapxos.Cpu.Ipi.{ipi, IsIdle, cpu_send_ipi_lem}
use gapxos.Cpu.Polling.{
  IsTicking, IsExpired, IsPolled, wait_timeout-IsExpired, poll_started-IsPolled,
}

-- What the other processor was given, with the memory manager and its state behind that.
pub record HasStack {S : Type 0} (addr : ℕ) (vmm : Option Manager) (memory : S) (s : Cpu S)
    : Type 0 where
  pub given : s.ap ≡ record { has_started = 0; stack = addr }
  pub vmm_is : s.kern_vmm ≡ vmm
  pub memory_is : s.memory ≡ memory

pub record IsUntouched {S : Type 0} (s s' : Cpu S) : Type 0 where
  pub ap_is : s'.ap ≡ s.ap
  pub vmm_is : s'.kern_vmm ≡ s.kern_vmm
  pub memory_is : s'.memory ≡ s.memory

module _ {S : Type 0} (machine : Machine S) (timer started icr : ℕ → ℕ) (is_x2apic : Bool) where
  abbrev init : ℕ → Command
  init lapic = ipi machine timer started icr is_x2apic 0 5 lapic

  abbrev startup : ℕ → ℕ → Command
  startup page lapic = ipi machine timer started icr is_x2apic page 6 lapic

  try_start_lem :
      (limit fuel page lapic ms : ℕ) (s : Cpu S)
      → IsIdle icr
      → IsTicking timer limit
      → limit ≤ suc fuel
      → page < 2 ^ 8
      → (reads : ℕ) × (end : ℕ) × (seen : Bool) × IsPolled timer started s.clock end seen
        × (try_start machine timer started icr is_x2apic (suc fuel) page lapic ms s
            ≡ some (
              seen,
              record s {
                clock = end + 1;
                icr_reads = reads;
                log = load_timer (ms * 1193 % 2 ^ 32 % 2 ^ 16) ∷ startup page lapic ∷ s.log;
              },
            ))
  unfolding try_start pit_set_timeout
  try_start_lem limit fuel page lapic ms s idle ticking enough low =
      let (reads, e) =
        cpu_send_ipi_lem machine timer started icr is_x2apic fuel page 6 lapic s idle low
          (omega arith) in
      let (n, after, before, over) = ticking s.clock in
      let (end, seen, polled, e') =
        poll_started-IsPolled timer started machine icr is_x2apic (suc fuel) n
          (record s {
            icr_reads = reads;
            log = load_timer (ms * 1193 % 2 ^ 32 % 2 ^ 16) ∷ startup page lapic ∷ s.log;
          })
          after (omega arith) over in
      (reads, end, seen, polled, rw (e, e') refl)

  -- The commands up to the end of the first wait for the other processor, the last one in front.
  abbrev pub first_commands : ℕ → ℕ → List Command → List Command
  first_commands page lapic log =
      load_timer 1193 ∷ startup page lapic ∷ load_timer 11930 ∷ init lapic ∷ log

  -- With the result r: an INIT and a wait of 11930 cycles, then a startup interrupt and at most
  -- 1193 cycles; if the processor is not seen by then, a second one and at most 13352 cycles.
  pub record IsHandshake (page lapic addr : ℕ) (vmm : Option Manager) (memory : S) (s : Cpu S)
      (r : ℕ) (s' : Cpu S) : Type 0 where
    pub ready : ℕ
    pub waited : IsExpired timer s.clock ready
    pub first : ℕ
    pub seen : Bool
    pub polled : IsPolled timer started (ready + 1) first seen
    pub outcome :
        ((seen ≡ true)
          × (r ≡ 0)
          × HasStack addr vmm memory s'
          × (s'.log ≡ first_commands page lapic s.log))
        ⊎ ((seen ≡ false)
            × (second : ℕ) × (late : Bool) × IsPolled timer started (first + 1) second late
            × (s'.log ≡ load_timer 13352 ∷ startup page lapic ∷ first_commands page lapic s.log)
            × (((late ≡ true) × (r ≡ 0) × HasStack addr vmm memory s')
                ⊎ ((late ≡ false) × (r ≡ 1) × IsUntouched s s')))

  start_at-IsHandshake :
      (limit fuel page lapic addr : ℕ) (vmm : Option Manager) (memory : S) (s : Cpu S)
      → IsIdle icr
      → IsTicking timer limit
      → limit ≤ fuel
      → page < 2 ^ 8
      → malloc_pages machine s.kern_vmm 4 1 0 1 s.memory ≡ some (addr, vmm, memory)
      → (r : ℕ) × (s' : Cpu S) × (start_at machine timer started icr is_x2apic fuel page lapic s
          ≡ some (r, s'))
        × IsHandshake page lapic addr vmm memory s r s'
  unfolding start_at cpu_started pit_set_timeout
  start_at-IsHandshake limit zero page lapic addr vmm memory s idle ticking enough low gives =
      let (n, after, before, over) = ticking 0 in absurd (omega arith)
  start_at-IsHandshake limit (suc fuel) page lapic addr vmm memory s idle ticking enough low gives =
      let (reads, e0) =
        cpu_send_ipi_lem machine timer started icr is_x2apic fuel 0 5 lapic s idle (omega arith)
          (omega arith) in
      let (n, after, before, over) = ticking s.clock in
      let (ready, waited, e1) =
        wait_timeout-IsExpired timer started machine icr is_x2apic (suc fuel) n
          (record s { icr_reads = reads; log = load_timer 11930 ∷ init lapic ∷ s.log }) after
          (omega arith) over in
      let s1 : Cpu S = record s {
        clock = ready + 1;
        icr_reads = reads;
        log = load_timer 11930 ∷ init lapic ∷ s.log;
      } in
      let (reads2, first, seen, polled, e2) =
        try_start_lem limit fuel page lapic 1 s1 idle ticking enough (omega arith) in
      let s2 : Cpu S = record s1 {
        clock = first + 1;
        icr_reads = reads2;
        log = first_commands page lapic s.log;
      } in
      let (reads3, second, late, polled2, e3) =
        try_start_lem limit fuel page lapic 1000 s2 idle ticking enough (omega arith) in
      let s3 : Cpu S = record s2 {
        clock = second + 1;
        icr_reads = reads3;
        log = load_timer 13352 ∷ startup page lapic ∷ s2.log;
      } in
      elim (Bool-cases seen) [
        | inl soon ↦ (
          0,
          record s2 {
            ap = record { has_started = 0; stack = addr };
            kern_vmm = vmm;
            memory = memory;
          },
          rw (e0, e1, e2, soon, gives) refl,
          record {
            ready = ready;
            waited = waited;
            first = first;
            seen = seen;
            polled = polled;
            outcome =
                inl (soon, refl, record { given = refl; vmm_is = refl; memory_is = refl }, refl);
          },
        )
        | inr silent ↦ elim (Bool-cases late) [
          | inl soon ↦ (
            0,
            record s3 {
              ap = record { has_started = 0; stack = addr };
              kern_vmm = vmm;
              memory = memory;
            },
            rw (e0, e1, e2, silent, e3, soon, gives) refl,
            record {
              ready = ready;
              waited = waited;
              first = first;
              seen = seen;
              polled = polled;
              outcome = inr (
                silent,
                second,
                late,
                polled2,
                refl,
                inl (soon, refl, record { given = refl; vmm_is = refl; memory_is = refl }),
              );
            },
          )
          | inr dead ↦ (
            1,
            s3,
            rw (e0, e1, e2, silent, e3, dead) refl,
            record {
              ready = ready;
              waited = waited;
              first = first;
              seen = seen;
              polled = polled;
              outcome = inr (
                silent,
                second,
                late,
                polled2,
                refl,
                inr (dead, refl, record { ap_is = refl; vmm_is = refl; memory_is = refl }),
              );
            },
          )
        ]
      ]

  -- Where the command register never has its bit 11 set, fewer than a limit of looks at the timer
  -- find the time over whenever one begins, the fuel is not below that limit, the page for the
  -- other processor is below 2^20, and malloc_pages returns: cpu_start returns. It has sent an
  -- INIT, waited for the 11930 cycles of 10 ms, sent a startup interrupt with the number of the
  -- page, and looked for the flag for at most the 1193 cycles of 1 ms; if the flag was not set, it
  -- has sent a second such interrupt and looked for at most 13352 cycles, which is what the 16 bits
  -- of the counter hold of the 1000 ms that are asked for; the comment in the code says 10 ms. The
  -- result is 0 if the flag was seen, and then the processor has got the pages and
  -- the flag is clear; and else it is 1, with nothing given out.
  pub cpu_start-IsHandshake :
      (limit fuel ap_low_page lapic addr : ℕ) (vmm : Option Manager) (memory : S) (s : Cpu S)
      → IsIdle icr
      → IsTicking timer limit
      → limit ≤ fuel
      → ap_low_page < 2 ^ 20
      → malloc_pages machine s.kern_vmm 4 1 0 1 s.memory ≡ some (addr, vmm, memory)
      → (r : ℕ) × (s' : Cpu S) × (cpu_start machine timer started icr is_x2apic fuel ap_low_page
            lapic s
          ≡ some (r, s'))
        × IsHandshake (ap_low_page / 4096) lapic addr vmm memory s r s'
  unfolding cpu_start
  cpu_start-IsHandshake limit fuel ap_low_page lapic addr vmm memory s idle ticking enough low
        gives =
      let small : ap_low_page / 4096 % 2 ^ 8 ≡ ap_low_page / 4096 = omega arith in
      let (r, s', e, done) =
        start_at-IsHandshake limit fuel (ap_low_page / 4096) lapic addr vmm memory s idle ticking
          enough (omega arith) gives in
      (r, s', ap (λ z. start_at machine timer started icr is_x2apic fuel z lapic s) small ∙ e, done)
