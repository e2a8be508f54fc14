-- ===== src/Loader/Main/Exit.antt =====
-- What `efi_main` leaves behind.
use hypervi.Base.{ℕ, ◌*◌, ◌/◌, ◌≡◌, some, ◌==◌, if◌then◌else◌}
use hypervi.Loader.Allocator.{Table, efi_allocator_init, num_pages}
use hypervi.Loader.Idt.{sizeof_idt_entry, efi_idt_init}
use hypervi.Loader.Gdt.{efi_gdt_init}
use hypervi.Loader.Mp.{efi_mp_init}
use hypervi.Loader.Gfx.Init.{GfxState, efi_gfx_init}
use hypervi.Loader.Console.{efi_console_init}
use hypervi.Loader.Start.Volumes.{FsState, efi_fs_init, efi_fs_find_file}
use hypervi.Loader.Start.{LoaderState, read_file}
use hypervi.Loader.Main.{
  World, Firmware, console_of, put_console, idt_of, put_idt, gdt_of, put_gdt, loader_of, put_loader,
}

module _ (F : Firmware) (w : World) (gfx : GfxState) (table : Table) (fs : FsState) (file : ℕ) where
  -- The world at the calls of `efi_idt_init`, `efi_gdt_init` and `efi_fs_init`.
  abbrev pub cleared : World
  cleared =
      let started : World = record w { mp = efi_mp_init F.mp w.mp; gfx = gfx } in
      let shown =
        put_console (efi_console_init F.images F.console_pages (console_of started)) started in
      record shown { allocations = table }

  abbrev pub hooked : World
  hooked = put_idt (efi_idt_init F.stub F.idt_pages (idt_of cleared)) cleared

  abbrev pub patched : World
  patched = put_gdt (efi_gdt_init F.layout F.gdt_pages (gdt_of hooked)) hooked

  -- The world at the call of `efi_loader_map`.
  abbrev pub visor_found : World
  visor_found =
      let listed : World = record patched { fs = fs } in
      let found : LoaderState = record (loader_of listed) { visor_file = file } in
      put_loader (if file == 0 then found else read_file F.file_size F.file_pages F.read found)
        listed

  -- The firmware's answers up to there.
  pub record IsSetUp : Type 0 where
    pub screen : efi_gfx_init F.handles w.gfx ≡ some gfx
    pub allocator : efi_allocator_init F.table_pages ≡ some table
    pub volumes : efi_fs_init F.volumes w.fs ≡ some fs
    pub search : efi_fs_find_file F.open_root fs ≡ some file

  -- The block of the interrupt table, where it is the allocator's first at its address.
  abbrev pub idt_pages : ℕ
  idt_pages = num_pages (w.idtr.limit / sizeof_idt_entry * sizeof_idt_entry)
