-- ===== src/Loader/Idt.antt =====
-- The interrupt descriptor table of loader/efi/idt.cc, over memory as bytes. The addresses of the
-- stubs in idt.S are an argument.
pub mod Hooks
pub mod Exit
pub mod Handlers
use hypervi.Base.{ℕ, ◌+◌, ◌*◌, ◌/◌, List, [], ◌∷◌, Option, u16, u32, ◌>>>◌}
use hypervi.Freestanding.Memory.{Bytes, memcpy, write_le}
use hypervi.Loader.Registers.{TableRegister}
use hypervi.Loader.Allocator.{Table, operator_new, operator_delete}

abbrev pub sizeof_idt_entry : ℕ
sizeof_idt_entry = 16

-- `idt_hook_t`
pub record Hook : Type 0 where
  pub index : ℕ
  pub handler : ℕ

-- `hooks`: the stub of each hooked exception.
abbrev pub hooks : (stub : ℕ → ℕ) → List Hook
hooks stub =
    record { index = 0x6; handler = stub 0x6 }
    ∷ record { index = 0x8; handler = stub 0x8 }
    ∷ record { index = 0xA; handler = stub 0xA }
    ∷ record { index = 0xB; handler = stub 0xB }
    ∷ record { index = 0xC; handler = stub 0xC }
    ∷ record { index = 0xD; handler = stub 0xD }
    ∷ record { index = 0xE; handler = stub 0xE }
    ∷ []

-- One round of the loop: `isr_low`, `isr_mid` and `isr_high` of the entry at an address.
unfoldable pub set_handler : (entry ptr : ℕ) → Bytes → Bytes
set_handler entry ptr m =
    write_le 4 (entry + 8) (u32 (ptr >>> 32))
      (write_le 2 (entry + 6) (u16 (ptr >>> 16)) (write_le 2 entry (u16 ptr) m))

unfoldable pub install : (custom_idt : ℕ) → List Hook → Bytes → Bytes
install custom_idt [] m = m
install custom_idt (hook ∷ l) m =
    install custom_idt l (set_handler (custom_idt + sizeof_idt_entry * hook.index) hook.handler m)

-- The statics of the file, what it shares with the rest, and the register of the processor.
pub record IdtState : Type 0 where
  pub efi_idtr : TableRegister
  pub custom_idt : ℕ
  pub custom_idtr : TableRegister
  pub memory : Bytes
  pub allocations : Table
  pub idtr : TableRegister

unfoldable pub efi_idt_init : (stub : ℕ → ℕ) (answer : Option ℕ) → IdtState → IdtState
efi_idt_init stub answer s =
    let entries = s.idtr.limit / sizeof_idt_entry in
    let (custom_idt, allocations) =
      operator_new answer (entries * sizeof_idt_entry) s.allocations in
    let copied = (memcpy custom_idt s.idtr.base_address s.idtr.limit s.memory).1 in
    let custom_idtr : TableRegister = record { limit = s.idtr.limit; base_address = custom_idt } in
    record {
      efi_idtr = s.idtr;
      custom_idt = custom_idt;
      custom_idtr = custom_idtr;
      memory = install custom_idt (hooks stub) copied;
      allocations = allocations;
      idtr = custom_idtr;
    }

-- The blocks handed back to the firmware, and the state.
unfoldable pub efi_idt_exit : IdtState → Table × IdtState
efi_idt_exit s =
    let (freed, allocations) = operator_delete s.custom_idt s.allocations in
    (freed, record s { idtr = s.efi_idtr; allocations = allocations })
