-- ===== src/Hypervisor/Ept/Walk.antt =====
-- Reading the entries back: the bit-fields of each, and the slots that `ept_resolve_entries`
-- finds in the tables of `ept_init_core`.
use native.Mathlib.Nat.{mod-eq_of_lt}
use hypervi.Base.{
  ℕ, ◌+◌, ◌*◌, ◌/◌, ◌%◌, ◌^◌, ◌≤◌, ◌<◌, ◌≡◌, refl, ◌∙◌, List, [], ◌∷◌, arith, u64, All, Field, get,
  Disjoint, Assignment, puts, IsUnion, get-puts, get-puts_other, get-zero,
}
use hypervi.Freestanding.Paging.{address_to_pt}
use hypervi.Hypervisor.Mtrr.{MtrrData, MemoryTypes}
use hypervi.Hypervisor.Ept.{
  EptLayout, TableEntry, PageEntry, LargeEntry, PointerLayout, Memory, Machine, table_entry,
  split_entry, large_entry, pointer_value, Resolved, ept_resolve_entries,
}
use hypervi.Hypervisor.Ept.Build.{IsPaged, slot}
use hypervi.Hypervisor.Ept.Tables.{TablesBuilt}

-- The assignments of each kind of entry, the last one first.
abbrev pub table_fields : TableEntry → ℕ → List Assignment
table_fields L table =
    (L.page_frame_number, table / 2 ^ 12)
    ∷ (L.execute_access, 1)
    ∷ (L.write_access, 1)
    ∷ (L.read_access, 1)
    ∷ []

abbrev pub split_fields : TableEntry → ℕ → List Assignment
split_fields L table =
    (L.execute_access, 1)
    ∷ (L.write_access, 1)
    ∷ (L.read_access, 1)
    ∷ (L.page_frame_number, table / 2 ^ 12)
    ∷ []

abbrev pub large_fields : LargeEntry → (addr mem_type : ℕ) → List Assignment
large_fields L addr mem_type =
    (L.page_frame_number, addr / 2 ^ 12)
    ∷ (L.memory_type, mem_type)
    ∷ (L.large_page, 1)
    ∷ (L.execute_access, 1)
    ∷ (L.write_access, 1)
    ∷ (L.read_access, 1)
    ∷ []

abbrev pub page_fields : PageEntry → (addr mem_type : ℕ) → List Assignment
page_fields L addr mem_type =
    (L.page_frame_number, addr / 2 ^ 12)
    ∷ (L.memory_type, mem_type)
    ∷ (L.execute_access, 1)
    ∷ (L.write_access, 1)
    ∷ (L.read_access, 1)
    ∷ []

abbrev pub pointer_fields : PointerLayout → (memory_type pml4 : ℕ) → List Assignment
pointer_fields L memory_type pml4 =
    (L.page_frame_number, pml4 / 2 ^ 12)
    ∷ (L.page_walk_length, L.page_walk_length_4)
    ∷ (L.memory_type, memory_type)
    ∷ []

-- What the code relies on in the ia32 header: the fields of an entry share no bit, and the bit
-- that marks a large page is no bit of a field of `epde`.
pub record IsSound (L : EptLayout) : Type 0 where
  pub pml4 : IsUnion (table_fields L.pml4 0)
  pub pdpte : IsUnion (table_fields L.pdpte 0)
  pub pde : IsUnion (split_fields L.pde 0)
  pub pde_2mb : IsUnion (large_fields L.pde_2mb 0 0)
  pub pte : IsUnion (page_fields L.pte 0 0)
  pub pointer : IsUnion (pointer_fields L.pointer 0 0)
  pub large_apart :
      All (λ (a : Assignment). Disjoint a.0 L.pde_2mb.large_page) (split_fields L.pde 0)
  pub large_bit : L.pde_2mb.large_page.width ≡ 1

-- Every page of the first `limit` that `ldr_malloc` returns lies in the reach of the frame numbers.
pub record IsInReach (L : EptLayout) (alloc : ℕ → ℕ) (limit : ℕ) : Type 0 where
  pub word : (k : ℕ) → k < limit → alloc k < 2 ^ 64
  pub pointer : (k : ℕ) → k < limit → alloc k / 2 ^ 12 < 2 ^ L.pointer.page_frame_number.width
  pub pml4 : (k : ℕ) → k < limit → alloc k / 2 ^ 12 < 2 ^ L.pml4.page_frame_number.width
  pub pdpte : (k : ℕ) → k < limit → alloc k / 2 ^ 12 < 2 ^ L.pdpte.page_frame_number.width
  pub pde : (k : ℕ) → k < limit → alloc k / 2 ^ 12 < 2 ^ L.pde.page_frame_number.width

module _ (L : EptLayout) (sound : IsSound L) where
  pub table_entry_pfn :
      (E : TableEntry) (table : ℕ)
      → IsUnion (table_fields E 0)
      → get E.page_frame_number (table_entry E table)
        ≡ table / 2 ^ 12 % 2 ^ E.page_frame_number.width
  unfolding table_entry puts
  table_entry_pfn E table h =
      get-puts (table_fields E table) 0 0 E.page_frame_number (table / 2 ^ 12) h refl

  pub split_entry_pfn :
      (table : ℕ)
      → get L.pde.page_frame_number (split_entry L.pde table)
        ≡ table / 2 ^ 12 % 2 ^ L.pde.page_frame_number.width
  unfolding split_entry puts
  split_entry_pfn table =
      get-puts (split_fields L.pde table) 0 3 L.pde.page_frame_number (table / 2 ^ 12) sound.pde
        refl

  pub split_entry_large : (table : ℕ) → get L.pde_2mb.large_page (split_entry L.pde table) ≡ 0
  unfolding split_entry puts
  split_entry_large table =
      get-puts_other (split_fields L.pde table) 0 L.pde_2mb.large_page sound.large_apart
      ∙ get-zero L.pde_2mb.large_page

  pub large_entry_large :
      (addr mem_type : ℕ) → get L.pde_2mb.large_page (large_entry L.pde_2mb addr mem_type) ≡ 1
  unfolding large_entry puts
  large_entry_large addr mem_type =
      get-puts (large_fields L.pde_2mb addr mem_type) 0 2 L.pde_2mb.large_page 1 sound.pde_2mb refl
      ∙ rw sound.large_bit

  pub pointer_pfn :
      (memory_type pml4 : ℕ)
      → get L.pointer.page_frame_number (pointer_value L.pointer memory_type pml4)
        ≡ pml4 / 2 ^ 12 % 2 ^ L.pointer.page_frame_number.width
  unfolding pointer_value puts
  pointer_pfn memory_type pml4 =
      get-puts (pointer_fields L.pointer memory_type pml4) 0 0 L.pointer.page_frame_number
        (pml4 / 2 ^ 12) sound.pointer refl

-- A page's address comes back from its frame number.
pub page_back :
    (x w : ℕ)
    → x % 0x1000 ≡ 0
    → x < 2 ^ 64
    → x / 2 ^ 12 < 2 ^ w
    → u64 (x / 2 ^ 12 % 2 ^ w * 2 ^ 12) ≡ x
page_back x w aligned word fits = rw (mod-eq_of_lt fits) (omega arith)

-- One step of the walk: the entry at a known slot leads to a known page.
follow :
    (f : Field) (m : Memory) {x y z : ℕ} (i : ℕ)
    → x ≡ y
    → u64 (get f (m y) * 2 ^ 12) ≡ z
    → u64 (get f (m x) * 2 ^ 12) + 8 * i ≡ z + 8 * i
follow f m i e g = rw (e, g)

module _ (L : EptLayout) (T : MemoryTypes) (mtrrs : List MtrrData) (default : ℕ) (alloc : ℕ → ℕ)
    (limit : ℕ) (sound : IsSound L) (paged : IsPaged alloc limit)
    (reach : IsInReach L alloc limit) where
  -- The slots that lead to the directory entry of an address below 512 GB.
  pub record IsPathTo (n c a : ℕ) (r : Resolved) : Type 0 where
    pub pml4 : r.pml4 ≡ alloc n
    pub pdpt : r.pdpt ≡ slot alloc (n + 1) (address_to_pt a).pdpt
    pub pd : r.pd ≡ slot alloc c (address_to_pt a).pd

  pub indices :
      (a : ℕ)
      → a < 2 ^ 39
      → ((address_to_pt a).pml4 ≡ 0)
        × ((address_to_pt a).pdpt < 512)
        × ((address_to_pt a).pd < 512)
        × ((address_to_pt a).pt < 512)
  unfolding address_to_pt
  indices a h = omega arith

  pub resolve-IsPathTo :
      (n a : ℕ) (out : ℕ × Machine) (b : TablesBuilt L T mtrrs default alloc n out) (h : a < 2 ^ 39)
      → n + (2 + 513 * 512) ≤ limit
      → IsPathTo n
          (b.tables (address_to_pt a).pdpt (indices a h).1).c
          a
          (ept_resolve_entries L out.0 out.1.mem a)
  unfolding ept_resolve_entries
  resolve-IsPathTo n a out b h room = record {
    pml4 = first;
    pdpt = second;
    pd = follow L.pdpte.page_frame_number out.1.mem (address_to_pt a).pd second third;
  }
    where
      page :
          (k w : ℕ)
          → k < limit
          → alloc k / 2 ^ 12 < 2 ^ w
          → u64 (alloc k / 2 ^ 12 % 2 ^ w * 2 ^ 12) ≡ alloc k
      page k w kl = page_back (alloc k) w (paged.aligned k) (reach.word k kl)

      first :
          u64 (get L.pointer.page_frame_number out.0 * 2 ^ 12) + 8 * (address_to_pt a).pml4
          ≡ alloc n
      first =
          rw
            (
              b.pointer,
              pointer_pfn L sound T.write_back (alloc n),
              page n _ (omega arith) (reach.pointer n (omega arith)),
            )
            (omega (arith, (indices a h).0))

      second :
          u64 (
              get L.pml4.page_frame_number (
                out.1.mem (
                  u64 (get L.pointer.page_frame_number out.0 * 2 ^ 12)
                  + 8 * (address_to_pt a).pml4))
              * 2 ^ 12)
            + 8 * (address_to_pt a).pdpt
          ≡ slot alloc (n + 1) (address_to_pt a).pdpt
      second = follow L.pml4.page_frame_number out.1.mem (address_to_pt a).pdpt first (
          rw (b.pml4, table_entry_pfn L sound L.pml4 (alloc (n + 1)) sound.pml4)
            (page (n + 1) _ (omega arith) (reach.pml4 (n + 1) (omega arith))))

      third :
          u64 (
            get L.pdpte.page_frame_number (out.1.mem (slot alloc (n + 1) (address_to_pt a).pdpt))
            * 2 ^ 12)
          ≡ alloc (b.tables (address_to_pt a).pdpt (indices a h).1).c
      third =
          let t = b.tables (address_to_pt a).pdpt (indices a h).1 in
          let tl : t.c < limit = omega (arith, t.used, b.used) in
          rw (t.entry, table_entry_pfn L sound L.pdpte (alloc t.c) sound.pdpte)
            (page t.c _ tl (reach.pdpte t.c tl))
