-- ===== src/Loader/Main.antt =====
-- `efi_main` of loader/efi/main.cc: the calls of the other files, one after the other. What they
-- log is left out.
pub mod Exit
use hypervi.Base.{ℕ, Bool, List, Option, none, some, ◌>>=◌}
use hypervi.Freestanding.Memory.{Bytes}
use hypervi.Freestanding.ElfMapper.{Literals}
use hypervi.Loader.Registers.{TableRegister}
use hypervi.Loader.Allocator.{Table, efi_allocator_init}
use hypervi.Loader.Mp.{efi_mp_init}
use hypervi.Loader.Gfx.{Images}
use hypervi.Loader.Gfx.Init.{GfxState, HandleAnswer, efi_gfx_init}
use hypervi.Loader.Console.{EfiConsoleCtx, Console, efi_console_init}
use hypervi.Loader.Idt.{IdtState, efi_idt_init, efi_idt_exit}
use hypervi.Loader.Gdt.{GdtLayout, GdtState, efi_gdt_init, efi_gdt_exit}
use hypervi.Loader.Start.Volumes.{FsState, Volume, Opened, efi_fs_init}
use hypervi.Loader.Start.{LoaderState, efi_loader_init, efi_loader_map}
use hypervi.Loader.Input.{EfiStipKey, efi_input_wait_for_key}

-- The statics of the loader's files, memory, and the registers of the processor.
pub record World : Type 0 where
  pub mp : ℕ
  pub gfx : GfxState
  pub ctx : EfiConsoleCtx
  pub test : Bool
  pub efi_idtr : TableRegister
  pub custom_idt : ℕ
  pub custom_idtr : TableRegister
  pub efi_gdtr : TableRegister
  pub new_gdt : ℕ
  pub new_tss : ℕ
  pub fs : FsState
  pub visor_file : ℕ
  pub visor_real : ℕ
  pub visor_mapped : ℕ
  pub hypervisor_main : ℕ
  pub memory : Bytes
  pub allocations : Table
  pub idtr : TableRegister
  pub gdtr : TableRegister
  pub tr : ℕ

-- The parts that the files see, and the world with such a part put back.
abbrev pub console_of : World → Console
console_of w = record { events = 0; ctx = w.ctx; test = w.test; memory = w.memory }

abbrev pub put_console : Console → World → World
put_console c w = record w { ctx = c.ctx; test = c.test; memory = c.memory }

abbrev pub idt_of : World → IdtState
idt_of w = record {
  efi_idtr = w.efi_idtr;
  custom_idt = w.custom_idt;
  custom_idtr = w.custom_idtr;
  memory = w.memory;
  allocations = w.allocations;
  idtr = w.idtr;
}

abbrev pub put_idt : IdtState → World → World
put_idt s w = record w {
  efi_idtr = s.efi_idtr;
  custom_idt = s.custom_idt;
  custom_idtr = s.custom_idtr;
  memory = s.memory;
  allocations = s.allocations;
  idtr = s.idtr;
}

abbrev pub gdt_of : World → GdtState
gdt_of w = record {
  efi_gdtr = w.efi_gdtr;
  new_gdt = w.new_gdt;
  new_tss = w.new_tss;
  memory = w.memory;
  allocations = w.allocations;
  gdtr = w.gdtr;
  tr = w.tr;
}

abbrev pub put_gdt : GdtState → World → World
put_gdt s w = record w {
  efi_gdtr = s.efi_gdtr;
  new_gdt = s.new_gdt;
  new_tss = s.new_tss;
  memory = s.memory;
  allocations = s.allocations;
  gdtr = s.gdtr;
  tr = s.tr;
}

abbrev pub loader_of : World → LoaderState
loader_of w = record {
  visor_file = w.visor_file;
  visor_real = w.visor_real;
  visor_mapped = w.visor_mapped;
  hypervisor_main = w.hypervisor_main;
  memory = w.memory;
  allocations = w.allocations;
}

abbrev pub put_loader : LoaderState → World → World
put_loader s w = record w {
  visor_file = s.visor_file;
  visor_real = s.visor_real;
  visor_mapped = s.visor_mapped;
  hypervisor_main = s.hypervisor_main;
  memory = s.memory;
  allocations = s.allocations;
}

-- What the firmware answers each call with, the addresses of literals and stubs, and what the
-- hypervisor, called at its entry point, makes of memory.
pub record Firmware : Type 0 where
  pub mp : Option ℕ
  pub handles : Option (List HandleAnswer)
  pub images : Images
  pub console_pages : Option ℕ
  pub table_pages : Option Table
  pub stub : ℕ → ℕ
  pub idt_pages : Option ℕ
  pub layout : GdtLayout
  pub gdt_pages : Option ℕ
  pub volumes : Option (List Volume)
  pub open_root : ℕ → Opened
  pub file_size : Option ℕ
  pub file_pages : Option ℕ
  pub read : (buffer size : ℕ) → Bytes → Bytes
  pub literals : Literals
  pub import_name : ℕ → ℕ
  pub import_function : ℕ → ℕ
  pub visor_pages : Option ℕ
  pub hypervisor : (entry : ℕ) → Bytes → Bytes
  pub strokes : ℕ → Option EfiStipKey
  pub key : EfiStipKey

module _ (F : Firmware) where
  -- From `efi_mp_init` to `efi_gdt_init`.
  unfoldable pub set_up : World → Option World
  set_up w = do
    gfx ← efi_gfx_init F.handles w.gfx
    let started : World = record w { mp = efi_mp_init F.mp w.mp; gfx = gfx }
    let shown = put_console (efi_console_init F.images F.console_pages (console_of started)) started
    allocations ← efi_allocator_init F.table_pages
    let ready : World = record shown { allocations = allocations }
    let hooked = put_idt (efi_idt_init F.stub F.idt_pages (idt_of ready)) ready
    some (put_gdt (efi_gdt_init F.layout F.gdt_pages (gdt_of hooked)) hooked)

  -- `efi_fs_init`, `efi_loader_init`.
  unfoldable pub find_visor : World → Option World
  find_visor w = do
    fs ← efi_fs_init F.volumes w.fs
    let listed : World = record w { fs = fs }
    loader ← efi_loader_init F.open_root fs F.file_size F.file_pages F.read (loader_of listed)
    some (put_loader loader listed)

  -- `efi_loader_map`, with the call of the hypervisor.
  unfoldable pub run_visor : (fuel : ℕ) → World → Option World
  run_visor fuel w = do
    mapped ←
        efi_loader_map fuel F.literals F.import_name F.import_function F.visor_pages (loader_of w)
    let called : LoaderState = record mapped.1 {
      memory = F.hypervisor mapped.1.hypervisor_main mapped.1.memory;
    }
    some (put_loader called w)

  -- `efi_gdt_exit`, `efi_idt_exit`: the blocks handed back to the firmware, and the world.
  unfoldable pub leave : World → Table × World
  leave w =
      let reset = put_gdt (efi_gdt_exit (gdt_of w)) w in
      let (freed, unhooked) = efi_idt_exit (idt_of reset) in (freed, put_idt unhooked reset)

  -- `efi_main`: `none` is a fault, a key that never comes, or too little fuel.
  unfoldable pub efi_main : (fuel : ℕ) → World → Option (Table × World)
  efi_main fuel w = do
    ready ← set_up w
    found ← find_visor ready
    ran ← run_visor fuel found
    let left = leave ran
    waited ← efi_input_wait_for_key fuel F.strokes 0 F.key
    some left
