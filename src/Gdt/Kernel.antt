-- ===== src/Gdt/Kernel.antt =====
-- The heap of heap.c, as gdt.c uses it.
use gapxos.Base.{ℕ}
use gapxos.Vmm.Manager.{Machine}
use gapxos.Heap
use gapxos.Heap.{Heap}
use gapxos.Gdt.{Host}

-- With fuel for the loops of the heap.
abbrev pub kernel_heap : {S : Type 0} → Machine S → ℕ → Host (Heap S)
kernel_heap machine fuel = record {
  malloc = Heap.malloc machine fuel;
  free = Heap.free machine fuel;
}
