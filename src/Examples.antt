-- ===== src/Examples.antt =====
-- The theorems at concrete inputs, and tests of the definitions on them.
mod Tree
mod Manager
mod Pages
mod Boot
mod Multiboot
mod Gdt
mod Heap
mod Acpi
mod Loader
mod Apic
mod Paging
mod Cpu
