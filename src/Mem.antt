-- ===== src/Mem.antt =====
-- kernel/src/mem: the physical frame bitmap.
pub mod Pmm
