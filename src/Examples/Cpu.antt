-- ===== src/Examples/Cpu.antt =====
-- cpu.c on a timer that is over at every fourth look.
use gapxos.Base.{
  ℕ, ◌+◌, ◌-◌, ◌%◌, ◌≤◌, ◌≡◌, ◌<◌, ◌⊎◌, ◌∷◌, refl, false, some, arith, [], ltb, ◌==◌, if◌then◌else◌,
}
use gapxos.Vmm.Tree.{node, insert_node, rebalance, rotate, balance, update_height, height}
use gapxos.Vmm.Tree.Search.{avl_min_size}
use gapxos.Vmm.Manager.{
  Manager, update_struct, avl_insert, split_range, alloc_virt, malloc_pages, map_new, lock_mgr,
  unlock_mgr,
}
use gapxos.Cpu.{Cpu, cpu_start}
use gapxos.Cpu.Polling.{IsTicking}
use gapxos.Cpu.Handshake.{IsHandshake, cpu_start-IsHandshake}
use gapxos.Cpu.Payload.{IsLoaded, cpu_init_ap_payload, cpu_init_ap_payload-IsLoaded}
use gapxos.Examples.Manager.{machine, idle, taken, leaf}

abbrev timer : ℕ → ℕ
timer t = if t % 4 == 3 then 0x80 else 0

-- The processor is seen after the second startup interrupt.
abbrev started : ℕ → ℕ
started t = if ltb t 9 then 0 else 1

abbrev icr : ℕ → ℕ
icr n = 0

ticking : IsTicking timer 4
ticking t =
    let later : t ≤ t + (3 - t % 4) = omega arith in
    let fourth : (t + (3 - t % 4)) % 4 ≡ 3 = omega arith in
    (t + (3 - t % 4), later, omega arith, rw fourth refl)

abbrev served : Manager
served = record idle {
  tree = node (taken 2 0x3000 4) 1 (leaf (taken 1 0x1000 2)) (leaf (taken 3 0x7000 1));
}

gives : malloc_pages machine (some idle) 4 1 0 1 4 ≡ some (0x3000, some served, 8)
unfolding malloc_pages lock_mgr alloc_virt avl_min_size split_range avl_insert insert_node rebalance
    rotate balance update_height height update_struct map_new unlock_mgr
gives = refl

abbrev off : Cpu ℕ
off = record {
  clock = 0;
  icr_reads = 0;
  log = [];
  ap = record { has_started = 0; stack = 0 };
  kern_vmm = some idle;
  memory = 4;
}

cpu_start-IsHandshake_example :
    (r : ℕ) × (s' : Cpu ℕ) × (cpu_start machine timer started icr false 4 0x8000 1 off
      ≡ some (r, s'))
    × IsHandshake machine timer started icr false 8 1 0x3000 (some served) 8 off r s'
cpu_start-IsHandshake_example =
    cpu_start-IsHandshake machine timer started icr false 4 4 0x8000 1 0x3000 (some served) 8 off
      (λ n. refl) ticking (omega arith) (omega arith) gives

-- A payload of four bytes at 0x8000.
cpu_init_ap_payload-IsLoaded_example :
    IsLoaded 0x8004 0x101000 0x8000 0xffff800000001234
      (cpu_init_ap_payload (0xbe ∷ 0 ∷ 0 ∷ 0xf4 ∷ []) 0x101000 0x8000 0xffff800000001234 (λ a. 7))
    × ((i : ℕ)
        → (i < 0x8000) ⊎ (0x803b ≤ i)
        → cpu_init_ap_payload
            (0xbe ∷ 0 ∷ 0 ∷ 0xf4 ∷ [])
            0x101000
            0x8000
            0xffff800000001234
            (λ a. 7)
            i
          ≡ 7)
cpu_init_ap_payload-IsLoaded_example =
    cpu_init_ap_payload-IsLoaded (0xbe ∷ 0 ∷ 0 ∷ 0xf4 ∷ []) 0x101000 0x8000 0xffff800000001234
      (λ a. 7) (omega arith) (omega arith)
