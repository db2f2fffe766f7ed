-- ===== src/Acpi/Kernel.antt =====
-- The memory manager of mem_mgmt.c, as acpi.c uses it.
use gapxos.Base.{ℕ, Option, some, ◌>>=◌}
use gapxos.Vmm.Manager.{Machine, Manager, map_memory, free_pages}
use gapxos.Acpi.{Mapper}

-- The struct kern_vmm is part of the state; `load` is a read through the page tables.
abbrev pub kernel_mapper :
    {S : Type 0} → Machine S → (ℕ → S → Option ℕ) → Mapper (Option Manager × S)
kernel_mapper machine load = record {
  map_memory = λ p n (m, s). do
    (v, m', s') ← map_memory machine m p n 1 s
    some (v, (m', s'));
  free_pages = λ v (m, s). free_pages machine m v s;
  load = λ a (m, s). load a s;
}
