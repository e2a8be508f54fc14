-- ===== src/Lib.antt =====
-- A model of the hypervisor in this repository, and what is proved of it.
--
-- The loader (loader/efi) is a firmware program. It keeps a table of the pages it is given
-- (allocator.cc), hooks the interrupt table and patches the global table (idt.cc, gdt.cc), writes to
-- a console of its own (console.cc, gfx.cc), finds the file of the hypervisor on disk (fs.cc), maps
-- it by the class elf_mapper (freestanding/elf_mapper.cc) and calls its entry, visor_main
-- (hypervisor/main.cc).
-- visor_main reads the memory type ranges (ept_init_mtrr), then sets up the core: visor_init_core
-- tests for VMX and calls cpu_init, which bends the control registers, enters root mode, builds
-- extended page tables (ept_init_core), writes every field of the VMCS, checks the guest's state
-- (cpu_vmxcheck) and launches the guest at the instruction that follows.
--
--   Base                     what the modules share: tests on numbers, lists, options, counted
--                            loops, casts, bit-fields (Bits, Unions), masks (Masks)
--   Freestanding/Paging      freestanding/x86utils.cc: address_to_pt, pt_to_address
--   Freestanding/Segments    freestanding/x86utils.cc: descriptors, bases, limits, access rights
--   Freestanding/Memory      memory as bytes, and freestanding/libc/memfuncs.S and memfuncs.cc
--   Freestanding/Libc        freestanding/libc/string.cc and itoa.cc
--   Freestanding/Elf         freestanding/elf.h: the structures of an ELF file
--   Freestanding/ElfMapper   freestanding/elf_mapper.cc: the class elf_mapper
--   Freestanding/Llist       freestanding/llist.h: the class lliste
--   Loader/Allocator         loader/efi/allocator.cc
--   Loader/Idt, Loader/Gdt   loader/efi/idt.cc and gdt.cc: the descriptor tables
--   Loader/Gfx               loader/efi/gfx.cc: drawing (Gfx), the protocol and its mode (Init)
--   Loader/Console           loader/efi/console.cc
--   Loader/Input             loader/efi/input.cc
--   Loader/Mp                loader/efi/mp.cc
--   Loader/Start             loader/efi/loader.cc, fs.cc (Volumes) and string_utils.cc
--   Loader/Main              loader/efi/main.cc: efi_main over the state of all parts
--   Hypervisor/Mtrr          hypervisor/ept.cc: ept_read_fixed_mtrrs, ept_dump_mtrrs, ept_init_mtrr and
--                            ept_get_memory_type
--   Hypervisor/Ept           hypervisor/ept.cc: ept_init_core and ept_resolve_entries
--   Hypervisor/Vmcs          the VMCS fields, and cpu_vmxread of hypervisor/cpu.cc
--   Hypervisor/VmxCheck      hypervisor/vmxcheck.cc
--   Hypervisor/Cpu           hypervisor/cpu.cc, cpu_init in stretches: Controls (the control words),
--                            Fields (the writes to the VMCS), Init (the whole); Dump for
--                            cpu_dumpvmcs
--   Hypervisor/Main          hypervisor/main.cc
--   Hypervisor/Host          hypervisor/host.cc: host_vmexit
--   Tests                    concrete registers and tables
--
-- Functions and types have the names of the source. A function that mutates takes the state and
-- returns it; a write behind an array is none. Where addresses matter (the C library, the mapper, the
-- loader), memory is a function from addresses to bytes, without checks. A loop is for_range, by its
-- count of rounds, or a function by recursion on the rounds left. A loop that reads on to the end of a
-- string has no such count and runs on fuel (strlen, strcmp, efi_string_to_cstring, efi_gfx_string,
-- efi_console_write): a number above the length of the string is enough. So do head and tail of a
-- list, by its entries, and the wait for a key, by the strokes before it. The digits of itoa have
-- fuel 64, since a 64-bit value has no more digits in radix 2 or above. A word of w bits is a number
-- with its remainder by 2 ^ w written out.
--
-- Parameters stand for what is not code of this repository: the positions of bit-fields and the
-- numbers of registers, which the ia32 header has (the records named Layout, Ids and Entry); the
-- answers of the processor (Processor, VmcsAccess, Platform); what allocate_pages of the firmware
-- stores (answer), and what its other calls give; the sizes of the images that the build generates
-- (Images); and the pages that ldr_malloc hands out (alloc, the n-th call gives alloc n). What is
-- asked of the allocator, for all of its calls in ept_init_core, is that pages are aligned, distinct,
-- in the reach of the frame numbers and as many as the tables can need, at most 2 + 512 + 512 * 512.
--
-- Not modelled: what is logged, but for the handlers of exceptions, the dumps of the VMCS and of the
-- ranges, and VM exits, which do little else; the regions that cpu_init clears and the results of
-- vmclear and vmptrld, which are only logged; the second pass of cpu_init, which the guest makes from
-- the saved instruction on; the caches that invept and invvpid drop; and what the hypervisor makes of
-- memory while the loader waits for it, which is a parameter of efi_main. Where the language leaves
-- open what is read (the section of .dynstr behind its loop), that is a parameter, too.
mod Base
pub mod Freestanding
pub mod Hypervisor
pub mod Loader
pub mod Tests
