-- ===== src/Cpu/Polling.antt =====
-- The loops of cpu_start over the timer.
use gapxos.Base.{
  ℕ, zero, suc, ◌+◌, ◌/◌, ◌%◌, ◌^◌, ◌≤◌, ◌<◌, ◌≡◌, ◌≢◌, refl, subst, arith, Bool, true, false, some,
  ◌==◌, inl, inr, ◌⊎◌, Bool-cases, compare-cases,
}
use gapxos.Vmm.Manager.{Machine}
use gapxos.Cpu.{Cpu, pit_timeout_reached, wait_timeout, poll_started}

-- What holds at a number and behind it.
at_or_after {ℓ} : (P : ℕ → Type ℓ) (from i : ℕ) → P from → (from + 1 ≤ i → P i) → from ≤ i → P i
at_or_after P from i here rest after = elim (compare-cases from i) [
  | inl (_, before) ↦ rest (omega arith)
  | inr (inl (_, same)) ↦ subst P same here
  | inr (inr (_, behind)) ↦ absurd (omega arith)
]

module _ (timer : ℕ → ℕ) where
  -- Bit 7 of the status that the timer gives at a look at it.
  abbrev pub is_over : ℕ → Bool
  is_over t = timer t / 2 ^ 7 % 2 == 1

  -- The first look from one on that finds the time over.
  pub record IsExpired (from end : ℕ) : Type 0 where
    pub later : from ≤ end
    pub quiet : (i : ℕ) → from ≤ i → i < end → is_over i ≡ false
    pub over : is_over end ≡ true

  -- Whatever the look that the wait begins with, fewer than a limit of looks find the time over.
  abbrev pub IsTicking : ℕ → Type 0
  IsTicking limit = (t : ℕ) → (n : ℕ) × (t ≤ n) × (n < t + limit) × (is_over n ≡ true)

  -- A look that does not find the time over is not the one that does.
  not_yet : (a n : ℕ) → is_over a ≡ false → is_over n ≡ true → a ≤ n → a + 1 ≤ n
  not_yet a n wait over after =
      at_or_after (λ i. is_over i ≡ true → a + 1 ≤ i) a n
        (λ now. absurd (ground (arith, now, wait))) (λ h _. h) after over

  module _ (started : ℕ → ℕ) where
    -- The first look from one on that finds the time over, or else the processor started.
    pub record IsPolled (from end : ℕ) (seen : Bool) : Type 0 where
      pub later : from ≤ end
      pub quiet : (i : ℕ) → from ≤ i → i < end → (is_over i ≡ false) × (started i ≡ 0)
      pub result :
          ((seen ≡ false) × (is_over end ≡ true))
          ⊎ ((seen ≡ true) × (is_over end ≡ false) × (started end ≢ 0))

    module _ {S : Type 0} (machine : Machine S) (icr : ℕ → ℕ) (is_x2apic : Bool) where
      pub wait_timeout-IsExpired :
          (fuel n : ℕ) (s : Cpu S)
          → s.clock ≤ n
          → n < s.clock + fuel
          → is_over n ≡ true
          → (end : ℕ) × IsExpired s.clock end
            × (wait_timeout machine timer started icr is_x2apic fuel s
                ≡ some (record s { clock = end + 1 }))
      unfolding wait_timeout pit_timeout_reached
      wait_timeout-IsExpired zero n s after before over = absurd (omega arith)
      wait_timeout-IsExpired (suc fuel) n s after before over =
          elim (Bool-cases (is_over s.clock)) [
            | inl now ↦ (
              s.clock,
              record {
                later = omega arith;
                quiet = λ i low high. absurd (omega arith);
                over = now;
              },
              rw (wait_timeout, now) refl,
            )
            | inr wait ↦
                let (end, expired, e) =
                  wait_timeout-IsExpired fuel n (record s { clock = s.clock + 1 })
                    (not_yet s.clock n wait over after) (omega arith) over in
                (
                  end,
                  record {
                    later = omega (arith, expired.later);
                    quiet = λ i low high.
                        at_or_after (λ i. is_over i ≡ false) s.clock i wait
                          (λ next. expired.quiet i next high) low;
                    over = expired.over;
                  },
                  rw (wait_timeout, wait) e,
                )
          ]

      pub poll_started-IsPolled :
          (fuel n : ℕ) (s : Cpu S)
          → s.clock ≤ n
          → n < s.clock + fuel
          → is_over n ≡ true
          → (end : ℕ) × (seen : Bool) × IsPolled s.clock end seen
            × (poll_started machine timer started icr is_x2apic fuel s
                ≡ some (seen, record s { clock = end + 1 }))
      unfolding poll_started pit_timeout_reached
      poll_started-IsPolled zero n s after before over = absurd (omega arith)
      poll_started-IsPolled (suc fuel) n s after before over = elim (Bool-cases (is_over s.clock)) [
        | inl now ↦ (
          s.clock,
          false,
          record {
            later = omega arith;
            quiet = λ i low high. absurd (omega arith);
            result = inl (refl, now);
          },
          rw (poll_started, now) refl,
        )
        | inr wait ↦ elim (Bool-cases (started s.clock == 0)) [
          | inr set ↦ (
            s.clock,
            true,
            record {
              later = omega arith;
              quiet = λ i low high. absurd (omega arith);
              result = inr (refl, wait, ground arith);
            },
            rw (poll_started, wait, set) refl,
          )
          | inl clear ↦
              let (end, seen, polled, e) =
                poll_started-IsPolled fuel n (record s { clock = s.clock + 1 })
                  (not_yet s.clock n wait over after) (omega arith) over in
              let nothing : started s.clock ≡ 0 = ground arith in
              (
                end,
                seen,
                record {
                  later = omega (arith, polled.later);
                  quiet = λ i low high.
                      at_or_after (λ i. (is_over i ≡ false) × (started i ≡ 0)) s.clock i
                        (wait, nothing) (λ next. polled.quiet i next high) low;
                  result = polled.result;
                },
                rw (poll_started, wait, clear) e,
              )
        ]
      ]
