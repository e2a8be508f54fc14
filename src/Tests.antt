-- ===== src/Tests.antt =====
-- Runs at concrete inputs, with the layouts that the processor's manual documents for the fields
-- that the ia32 header names.
pub mod Paging
pub mod Mtrr
pub mod Ept
pub mod VmxCheck
pub mod Segments
pub mod Encoding
pub mod Cpu
pub mod ElfMapper
pub mod Linked
pub mod Llist
pub mod Loader
pub mod Libc
pub mod Allocator
pub mod Idt
pub mod Gdt
pub mod Screen
