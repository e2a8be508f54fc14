-- ===== src/Hypervisor/Ept.antt =====
-- The extended page tables: `ept_init_core` and `ept_resolve_entries` of hypervisor/ept.cc.
-- Memory is a function from the address of a 64-bit slot to its value, and the n-th call of
-- `ldr_malloc` returns `alloc n`.
pub mod Pages
pub mod Build
pub mod Tables
pub mod Walk
pub mod Entries
pub mod Mapping
use hypervi.Base.{
  ℕ, zero, suc, ◌+◌, ◌*◌, ◌/◌, ◌^◌, Bool, ◌&&◌, List, ltb, leb, ◌==◌, ◌/=◌, if◌then◌else◌, truth,
  u64, ◌<<◌, ◌>>>◌, Field, get, put, for_range,
}
use hypervi.Freestanding.Paging.{address_to_pt, pt_to_address}
use hypervi.Hypervisor.Mtrr.{MtrrData, MemoryTypes, ept_get_memory_type}

-- The bit-fields that the ia32 header gives an entry that points to a table.
pub record TableEntry : Type 0 where
  pub read_access : Field
  pub write_access : Field
  pub execute_access : Field
  pub page_frame_number : Field

-- The same for `epte`, an entry that maps a 4-KB page.
pub record PageEntry : Type 0 where
  pub read_access : Field
  pub write_access : Field
  pub execute_access : Field
  pub memory_type : Field
  pub page_frame_number : Field

-- The same for `epde_2mb`, an entry that maps a 2-MB page.
pub record LargeEntry : Type 0 where
  pub read_access : Field
  pub write_access : Field
  pub execute_access : Field
  pub memory_type : Field
  pub large_page : Field
  pub page_frame_number : Field

-- The same for `ept_pointer`, with the header's `EPT_PAGE_WALK_LENGTH_4`.
pub record PointerLayout : Type 0 where
  pub memory_type : Field
  pub page_walk_length : Field
  pub page_frame_number : Field
  pub page_walk_length_4 : ℕ

pub record EptLayout : Type 0 where
  pub pml4 : TableEntry
  pub pdpte : TableEntry
  pub pde : TableEntry
  pub pde_2mb : LargeEntry
  pub pte : PageEntry
  pub pointer : PointerLayout

abbrev pub Memory : Type 0
Memory = ℕ → ℕ

-- Memory, and the number of `ldr_malloc` calls so far.
pub record Machine : Type 0 where
  pub mem : Memory
  pub next : ℕ

-- `*address = value`
unfoldable pub write : ℕ → ℕ → Memory → Memory
write address value m a = if a == address then value else m a

-- `memset(page, 0, 0x1000)`
unfoldable pub zero_page : ℕ → Memory → Memory
zero_page page m a = if leb page a && ltb a (page + 0x1000) then 0 else m a

-- The three access bits and a frame number, in the order of `ept_init_core`.
unfoldable pub table_entry : TableEntry → ℕ → ℕ
table_entry L table =
    put L.page_frame_number (table >>> 12)
      (put L.execute_access 1 (put L.write_access 1 (put L.read_access 1 0)))

-- A split `epde` gets its frame number first.
unfoldable pub split_entry : TableEntry → ℕ → ℕ
split_entry L table =
    put L.execute_access 1
      (put L.write_access 1 (put L.read_access 1 (put L.page_frame_number (table >>> 12) 0)))

unfoldable pub large_entry : LargeEntry → (addr mem_type : ℕ) → ℕ
large_entry L addr mem_type = put L.page_frame_number (addr >>> 12) (
    put L.memory_type mem_type
      (put L.large_page 1 (put L.execute_access 1 (put L.write_access 1 (put L.read_access 1 0)))))

unfoldable pub page_entry : PageEntry → (addr mem_type : ℕ) → ℕ
page_entry L addr mem_type = put L.page_frame_number (addr >>> 12) (
    put L.memory_type mem_type
      (put L.execute_access 1 (put L.write_access 1 (put L.read_access 1 0))))

-- `structs.ptr`
unfoldable pub pointer_value : PointerLayout → (memory_type pml4 : ℕ) → ℕ
pointer_value L memory_type pml4 =
    put L.page_frame_number (pml4 >>> 12)
      (put L.page_walk_length L.page_walk_length_4 (put L.memory_type memory_type 0))

module _ (L : EptLayout) (T : MemoryTypes) (mtrrs : List MtrrData) (default : ℕ)
    (alloc : ℕ → ℕ) where
  -- The loop over one page table.
  unfoldable pub fill_pts : (pts pdpt_i pde_i : ℕ) → Memory → Memory
  unfolding write page_entry
  fill_pts pts pdpt_i pde_i = for_range 512 0 λ pt_i m.
      let addr = pt_to_address 0 pdpt_i pde_i pt_i in
      write (pts + 8 * pt_i)
        (page_entry L.pte addr (ept_get_memory_type T mtrrs default addr 0x1000)) m

  -- Round `pde_i` of the loop over one page directory.
  unfoldable pub fill_pde : (pdes pdpt_i pde_i : ℕ) → Machine → Machine
  unfolding write zero_page large_entry split_entry fill_pts
  fill_pde pdes pdpt_i pde_i s =
      let addr = pt_to_address 0 pdpt_i pde_i 0 in
      let mem_type = ept_get_memory_type T mtrrs default addr 0x200000 in
      let pts = alloc s.next in
      if mem_type /= T.invalid
      then record s { mem = write (pdes + 8 * pde_i) (large_entry L.pde_2mb addr mem_type) s.mem }
      else record {
        mem =
            fill_pts pts pdpt_i pde_i
              (write (pdes + 8 * pde_i) (split_entry L.pde pts) (zero_page pts s.mem));
        next = s.next + 1;
      }

  -- Round `pdpt_i` of the loop over the page-directory-pointer table.
  unfoldable pub fill_pdpt : (pdpts pdpt_i : ℕ) → Machine → Machine
  unfolding write zero_page table_entry fill_pde
  fill_pdpt pdpts pdpt_i s =
      let pdes = alloc s.next in
      for_range 512 0 (fill_pde pdes pdpt_i) (record {
        mem = write (pdpts + 8 * pdpt_i) (table_entry L.pdpte pdes) (zero_page pdes s.mem);
        next = s.next + 1;
      })

  -- The value of `structs.ptr`, and the machine after the call.
  unfoldable pub ept_init_core : Machine → ℕ × Machine
  unfolding write zero_page table_entry fill_pdpt pointer_value
  ept_init_core s =
      let pml4 = alloc s.next in
      let pdpts = alloc (s.next + 1) in
      let start : Machine = record {
        mem = write pml4 (table_entry L.pml4 pdpts) (zero_page pdpts (zero_page pml4 s.mem));
        next = s.next + 2;
      } in
      (pointer_value L.pointer T.write_back pml4, for_range 512 0 (fill_pdpt pdpts) start)

-- What `ept_resolve_entries` stores through its four out parameters; `pt` is 0 for nullptr.
pub record Resolved : Type 0 where
  pub pml4 : ℕ
  pub pdpt : ℕ
  pub pd : ℕ
  pub pt : ℕ

-- `ept_ptr` is what `cpu_vmxread(VMCS_CTRL_EPT_POINTER)` returns. No out parameter is null, as
-- in both calls of the program.
unfoldable pub ept_resolve_entries : EptLayout → (ept_ptr : ℕ) → Memory → (address : ℕ) → Resolved
ept_resolve_entries L ept_ptr m address =
    let i = address_to_pt address in
    let pml4e = u64 (get L.pointer.page_frame_number ept_ptr << 12) + 8 * i.pml4 in
    let pdpte = u64 (get L.pml4.page_frame_number (m pml4e) << 12) + 8 * i.pdpt in
    let pde = u64 (get L.pdpte.page_frame_number (m pdpte) << 12) + 8 * i.pd in
    let pte = u64 (get L.pde.page_frame_number (m pde) << 12) + 8 * i.pt in
    record {
      pml4 = pml4e;
      pdpt = pdpte;
      pd = pde;
      pt = if truth (get L.pde_2mb.large_page (m pde)) then 0 else pte;
    }
