-- ===== src/Loader/Gdt.antt =====
-- The global descriptor table of loader/efi/gdt.cc, over memory as bytes.
pub mod Task
pub mod Init
use hypervi.Base.{ℕ, ◌+◌, ◌-◌, ◌*◌, ◌/◌, List, [], ◌∷◌, Option, u8, u16, u32, ◌>>>◌, get, put}
use hypervi.Freestanding.Memory.{Bytes, memcpy, memset, write_le}
use hypervi.Freestanding.Segments.{SelectorLayout}
use hypervi.Loader.Registers.{TableRegister}
use hypervi.Loader.Allocator.{Table, operator_new}

-- `sizeof(tss_entry)`
abbrev pub sizeof_tss : ℕ
sizeof_tss = 104

-- The selector of the ia32 header, with `sizeof(segment_descriptor_32)`, and the size of
-- `segment_descriptor_64`.
pub record GdtLayout : Type 0 where
  pub selector : SelectorLayout
  pub descriptor_64_size : ℕ

-- An assignment to a member of a packed structure: its bytes, its offset, the value.
pub record Member : Type 0 where
  pub size : ℕ
  pub offset : ℕ
  pub value : ℕ

unfoldable pub assign : (p : ℕ) → List Member → Bytes → Bytes
assign p [] m = m
assign p (f ∷ l) m = assign p l (write_le f.size (p + f.offset) f.value m)

-- The assignments to `*tss_descriptor`, a `tss_gdt_entry`, in their order.
abbrev pub tss_members : (tss_ptr : ℕ) → List Member
tss_members tss_ptr =
    record { size = 2; offset = 0; value = sizeof_tss - 1 }
    ∷ record { size = 2; offset = 2; value = u16 tss_ptr }
    ∷ record { size = 1; offset = 4; value = u8 (tss_ptr >>> 16) }
    ∷ record { size = 1; offset = 7; value = u8 (tss_ptr >>> 24) }
    ∷ record { size = 4; offset = 8; value = u32 (tss_ptr >>> 32) }
    ∷ record { size = 1; offset = 5; value = 0b10001001 }
    ∷ record { size = 4; offset = 12; value = 0 }
    ∷ []

-- The statics of the file, the address of `new_tss`, what the file shares with the rest, and the
-- registers of the processor.
pub record GdtState : Type 0 where
  pub efi_gdtr : TableRegister
  pub new_gdt : ℕ
  pub new_tss : ℕ
  pub memory : Bytes
  pub allocations : Table
  pub gdtr : TableRegister
  pub tr : ℕ

module _ (L : GdtLayout) where
  -- `tr.flags`, once `tr.index` is assigned.
  abbrev pub task_selector : (limit : ℕ) → ℕ
  task_selector limit = put L.selector.index ((limit + 1) / L.selector.descriptor_size) 0

  unfoldable pub efi_gdt_init : (answer : Option ℕ) → GdtState → GdtState
  efi_gdt_init answer s =
      let limit = s.gdtr.limit in
      let entries = limit + 1 / L.descriptor_64_size in
      let (new_gdt, allocations) =
        operator_new answer ((entries + 1) * L.descriptor_64_size) s.allocations in
      let copied = (memcpy new_gdt s.gdtr.base_address limit s.memory).1 in
      let tr = task_selector limit in
      let tss_descriptor = new_gdt + L.selector.descriptor_size * get L.selector.index tr in
      let zeroed = (memset tss_descriptor 0 L.descriptor_64_size copied).1 in
      let assigned = assign tss_descriptor (tss_members s.new_tss) zeroed in
      record {
        efi_gdtr = s.gdtr;
        new_gdt = new_gdt;
        new_tss = s.new_tss;
        memory = (memset s.new_tss 0 sizeof_tss assigned).1;
        allocations = allocations;
        gdtr = record { limit = u16 (limit + L.descriptor_64_size); base_address = new_gdt };
        tr = tr;
      }

-- The register as it was. `clear_tr` clears a flag of CR0 and leaves the task register; the new
-- table is not deleted.
unfoldable pub efi_gdt_exit : GdtState → GdtState
efi_gdt_exit s = record s { gdtr = s.efi_gdtr }
