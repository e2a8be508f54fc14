-- ===== src/Freestanding.antt =====
-- The code shared by loader and hypervisor, under freestanding/.
pub mod Paging
pub mod Segments
pub mod Memory
pub mod Libc
pub mod Elf
pub mod ElfMapper
pub mod Llist
