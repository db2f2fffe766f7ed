-- ===== src/Vmm.antt =====
-- The virtual memory manager (kernel/system/mem_mgmt/vmm).
pub mod Tree
pub mod Manager
