-- ===== src/Boot/Memory.antt =====
-- kernel_main of main.c gives the stack of free pages of pmm.c memory of its own.
use gapxos.Base.{ℕ, ◌*◌, ◌≤◌, List, [], ◌∷◌, ◌++◌}
use gapxos.Pmm.{Pmm, MmapEntry, MemoryRange}
use gapxos.Pmm.Fill.{IsFilled}
use gapxos.Boot.{get_stack_size, stack_area}
use gapxos.Boot.Choice.{FoundIn}

-- The state that pmm_init hands to _init_paging, and the memory chosen for the stack.
pub record IsReady (mmap : List MmapEntry) (unsafe : List MemoryRange) (p : Pmm) : Type 0 where
  pub safe : ℕ
  pub chosen : FoundIn (get_stack_size mmap 0) unsafe safe mmap
  pub fits : p.free_index * 8 ≤ get_stack_size mmap 0
  pub filled : IsFilled (unsafe ++ stack_area safe (get_stack_size mmap 0) ∷ []) mmap p
