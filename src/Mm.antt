-- ===== src/Mm.antt =====
-- Kernel/mm: the page allocator and the heap on top of it.
pub mod Pmm
pub mod Heap
pub mod Vmm
mod Tests
