-- ===== src/Loader.antt =====
-- The loader under loader/efi.
pub mod Registers
pub mod Allocator
pub mod Idt
pub mod Gdt
pub mod Gfx
pub mod Console
pub mod Start
pub mod Input
pub mod Mp
pub mod Main
