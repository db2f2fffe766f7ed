-- ===== src/Lib.antt =====
-- gapxos: a small 64-bit kernel, from its boot information over memory management to the start of a
-- second processor.
--
-- The parts and the files that model them:
--   Vmm/Tree      kernel/system/mem_mgmt/vmm/avl_tree.c: the balanced tree of address ranges. A node
--                 of `Tree` keeps the address of its struct avl_node, so that a struct can be told
--                 from its contents. insert_node and delete_node are _insert_node and _delete_node,
--                 rebalance is the code that both end with. Order and Ranges read a tree as a
--                 sorted list; Search has avl_find, avl_min_size and avl_below. Stuck says where
--                 _delete_node reads its variable `parent` unset, Dangling what comes of it.
--   Vmm/Manager   kernel/system/mem_mgmt/vmm/mem_mgmt.c: malloc_pages, map_memory and free_pages
--                 over a struct memory_manager. What they call in other files (node_alloc.c,
--                 paging.c, pmm.c) is the interface `Machine`, a record of operations on a state.
--   Pmm           kernel/system/mem_mgmt/pmm.c: the stack of free pages and the scan of the memory
--                 map. _init_paging is an argument of pmm_init.
--   Boot          kernel/boot/common_boot.c and kernel/boot/main.c. check_from is the loop of
--                 check_memory_bounds over bytes, find_safe that of kernel_main over the memory
--                 map, init_memory its part from get_stack_size to pmm_init; Tables has
--                 get_page_table_area over a memory of words, with its three nested loops as one
--                 function of the depth left. Multiboot has the walk over the tags of the boot
--                 loader and kernel_main as a whole, over a memory of bytes; Encoding has the tags
--                 as a data type, with their bytes, and Entries those of a memory map.
--   Gdt           kernel/system/gdt/gdt.c: _add_entry, which encodes a descriptor and enlarges the
--                 table, gdt_init, gdt_add_tss and gdt_get_info, over the interface `Host` of
--                 malloc and free, which Gdt/Kernel fills by those of Heap. Memory has memcpy of
--                 kernel/util/memcpy.s and the stores. What a theorem asks of a call of the heap is
--                 stated for that call; the heap keeps no such promise for all of them.
--   Heap          kernel/system/mem_mgmt/heap.c: malloc and free. The headers of pages and of blocks
--                 are in two memories, functions from addresses, and a pointer to a pointer is a
--                 `Slot`, so every store of the code is a store here, also one to a wrong place.
--                 Chain and Pages read the lists of headers as lists of cells; Cut, Move, Grow,
--                 Unlink, Widen, Append and Keep have one branch of the code each. The pages come
--                 from malloc_pages of Vmm/Manager.
--   Paging        kernel/system/mem_mgmt/vmm/paging.c: set_page and free_page over memory as a
--                 function from physical addresses to words. enter_table is one of the three levels
--                 that get_page_table_entry writes out. Trees says when tables form a tree: the
--                 table of a path is told from every other by a function from addresses to roles.
--   Apic          kernel/system/apic/apic.c: apic_parse_madt and the functions that it calls, over
--                 memory as a function from addresses to bytes. Encoding has the entries of the
--                 table as a data type, with their bytes.
--   Acpi          kernel/system/acpi/acpi.c: the map of the firmware's tables and the search for one
--                 by its signature. map_memory and free_pages are the interface `Mapper`, which
--                 Acpi/Kernel fills by those of Vmm/Manager.
--   Cpu           kernel/system/apic/cpu.c: cpu_start and what it calls. The commands to the
--                 hardware are kept in a log; what the hardware answers is given by functions of
--                 the number of looks at it. _cpu_started calls malloc_pages of Vmm/Manager.
--                 Payload has cpu_init_ap_payload as the stores that it makes, in their order.
--   Loader        loader/loader.c: find_elf64_phys_origin, the choice of memory for the kernel.
--   Base          tests, lists and the chaining of steps that may fault.
--   Examples      the theorems at concrete inputs, and tests of the definitions.
--
-- The manager calls the tree for every range that it gives out or takes back, and the page stack
-- and the page tables for the pages of a range. pmm_init fills the stack before the manager is
-- made, in memory that kernel_main has chosen with check_memory_bounds.
--
-- `none` stands for a fault: a null or wild pointer is used, an array is left, a variable is read
-- that was never set, a lock is waited for that nothing releases, kernel_main halts, or the fuel of a
-- loop is used up. Words are natural numbers with their wrap-around written out; an int8_t or an
-- int is its bit pattern. A struct avl_node that free_node has taken back can still be read: its
-- page stays where it is in the map of all memory.
--
-- Bounds and fuel: recursion is on the tree or on the rounds left of a counted loop. The loop over
-- the pages of a memory map entry runs on fuel, one round for each page of the entry and one more,
-- which is enough for every page to be met. check_from has fuel for each byte and one round more,
-- which is enough since each round moves on by a byte at least. The theorems on balance ask for
-- fewer than 2048 levels, so that no height leaves its uint16_t and no difference its int8_t; a
-- tree of that depth has more nodes than there are addresses.
--
-- apic_parse_madt has fuel for its rounds: more than the length of the table is enough, since an
-- entry has a byte at least. interpret_multiboot has fuel for its rounds too, one for each tag
-- and one for the tag that ends them. The loops of cpu_start have fuel for the looks at the
-- timer: the most that it takes for its time to be over is enough. The loops of the heap have fuel
-- for their rounds: one for each page and each block and three more are enough for all of them.
--
-- Not modelled: the node allocator (an interface here), _init_paging, the registers of the
-- interrupt controllers, the display and the rest of the loader; assembly, and the code for another
-- processor that cpu.c copies; the meeting of several processors at the lock.
pub mod Base
pub mod Vmm
pub mod Pmm
pub mod Boot
pub mod Gdt
pub mod Apic
pub mod Paging
pub mod Cpu
pub mod Loader
pub mod Heap
pub mod Acpi
mod Examples
