-- ===== src/Hypervisor/Ept/Entries.antt =====
-- The entries of the extended page tables, read back, and the processor's walk over them.
use hypervi.Base.{
  ℕ, ◌+◌, ◌*◌, ◌/◌, ◌%◌, ◌^◌, ◌<◌, ◌≡◌, refl, arith, u64, truth, Field, get, puts, get-puts,
  if◌then◌else◌, Bool, true, ◌&&◌, [], ◌∷◌, All, IsUnion,
}
use hypervi.Freestanding.Paging.{address_to_pt, pt_to_address}
use hypervi.Freestanding.Paging.Laws.{pt_to_address_sum}
use hypervi.Hypervisor.Ept.{
  EptLayout, TableEntry, Memory, table_entry, split_entry, large_entry, page_entry,
  ept_resolve_entries,
}
use hypervi.Hypervisor.Ept.Walk.{table_fields, split_fields, page_fields, large_fields, IsSound}

-- What the processor makes of an address: the address bits stay where the last entry has them,
-- and an access is granted where the entries of all levels grant it.
pub record Walked : Type 0 where
  pub address : ℕ
  pub memory_type : ℕ
  pub readable : Bool
  pub writable : Bool
  pub executable : Bool

abbrev frame : Field → ℕ → ℕ
frame f e = get f e * 2 ^ f.offset

-- The processor's walk for a guest-physical address.
unfoldable pub walk : EptLayout → (ept_ptr : ℕ) → Memory → (a : ℕ) → Walked
walk L ept_ptr m a =
    let r = ept_resolve_entries L ept_ptr m a in
    let upper_read =
      truth (get L.pml4.read_access (m r.pml4)) && truth (get L.pdpte.read_access (m r.pdpt)) in
    let upper_write =
      truth (get L.pml4.write_access (m r.pml4)) && truth (get L.pdpte.write_access (m r.pdpt)) in
    let upper_execute =
      truth (get L.pml4.execute_access (m r.pml4))
      && truth (get L.pdpte.execute_access (m r.pdpt)) in
    if truth (get L.pde_2mb.large_page (m r.pd))
    then record {
      address = frame L.pde_2mb.page_frame_number (m r.pd) + a % 2 ^ 21;
      memory_type = get L.pde_2mb.memory_type (m r.pd);
      readable = upper_read && truth (get L.pde_2mb.read_access (m r.pd));
      writable = upper_write && truth (get L.pde_2mb.write_access (m r.pd));
      executable = upper_execute && truth (get L.pde_2mb.execute_access (m r.pd));
    }
    else record {
      address = frame L.pte.page_frame_number (m r.pt) + a % 2 ^ 12;
      memory_type = get L.pte.memory_type (m r.pt);
      readable =
          upper_read
          && truth (get L.pde.read_access (m r.pd))
          && truth (get L.pte.read_access (m r.pt));
      writable =
          upper_write
          && truth (get L.pde.write_access (m r.pd))
          && truth (get L.pte.write_access (m r.pt));
      executable =
          upper_execute
          && truth (get L.pde.execute_access (m r.pd))
          && truth (get L.pte.execute_access (m r.pt));
    }

-- The access bits of all kinds of entries are single bits.
abbrev pub HasAccessBits : EptLayout → Type 0
HasAccessBits L =
    All (λ (f : Field). f.width ≡ 1)
      (L.pml4.read_access ∷ L.pml4.write_access ∷ L.pml4.execute_access ∷ L.pdpte.read_access
        ∷ L.pdpte.write_access ∷ L.pdpte.execute_access ∷ L.pde.read_access ∷ L.pde.write_access
        ∷ L.pde.execute_access ∷ L.pde_2mb.read_access ∷ L.pde_2mb.write_access
        ∷ L.pde_2mb.execute_access ∷ L.pte.read_access ∷ L.pte.write_access ∷ L.pte.execute_access
        ∷ [])

-- What is read of a field that was assigned 1.
abbrev pub granted : Field → Bool
granted f = truth (1 % 2 ^ f.width)

granted_bit : (f : Field) → f.width ≡ 1 → granted f ≡ true
granted_bit f e = rw e refl

pub granted_large :
    (L : EptLayout)
    → HasAccessBits L
    → (((granted L.pml4.read_access && granted L.pdpte.read_access)
          && granted L.pde_2mb.read_access)
        ≡ true)
      × (((granted L.pml4.write_access && granted L.pdpte.write_access)
            && granted L.pde_2mb.write_access)
          ≡ true)
      × (((granted L.pml4.execute_access && granted L.pdpte.execute_access)
            && granted L.pde_2mb.execute_access)
          ≡ true)
granted_large L bits = (
  rw
      (
        granted_bit L.pml4.read_access bits.0,
        granted_bit L.pdpte.read_access bits.1.1.1.0,
        granted_bit L.pde_2mb.read_access bits.1.1.1.1.1.1.1.1.1.0,
      )
      refl,
  rw
      (
        granted_bit L.pml4.write_access bits.1.0,
        granted_bit L.pdpte.write_access bits.1.1.1.1.0,
        granted_bit L.pde_2mb.write_access bits.1.1.1.1.1.1.1.1.1.1.0,
      )
      refl,
  rw
      (
        granted_bit L.pml4.execute_access bits.1.1.0,
        granted_bit L.pdpte.execute_access bits.1.1.1.1.1.0,
        granted_bit L.pde_2mb.execute_access bits.1.1.1.1.1.1.1.1.1.1.1.0,
      )
      refl,
)

pub granted_page :
    (L : EptLayout)
    → HasAccessBits L
    → (((granted L.pml4.read_access && granted L.pdpte.read_access)
          && granted L.pde.read_access
          && granted L.pte.read_access)
        ≡ true)
      × (((granted L.pml4.write_access && granted L.pdpte.write_access)
            && granted L.pde.write_access
            && granted L.pte.write_access)
          ≡ true)
      × (((granted L.pml4.execute_access && granted L.pdpte.execute_access)
            && granted L.pde.execute_access
            && granted L.pte.execute_access)
          ≡ true)
granted_page L bits = (
  rw
      (
        granted_bit L.pml4.read_access bits.0,
        granted_bit L.pdpte.read_access bits.1.1.1.0,
        granted_bit L.pde.read_access bits.1.1.1.1.1.1.0,
        granted_bit L.pte.read_access bits.1.1.1.1.1.1.1.1.1.1.1.1.0,
      )
      refl,
  rw
      (
        granted_bit L.pml4.write_access bits.1.0,
        granted_bit L.pdpte.write_access bits.1.1.1.1.0,
        granted_bit L.pde.write_access bits.1.1.1.1.1.1.1.0,
        granted_bit L.pte.write_access bits.1.1.1.1.1.1.1.1.1.1.1.1.1.0,
      )
      refl,
  rw
      (
        granted_bit L.pml4.execute_access bits.1.1.0,
        granted_bit L.pdpte.execute_access bits.1.1.1.1.1.0,
        granted_bit L.pde.execute_access bits.1.1.1.1.1.1.1.1.0,
        granted_bit L.pte.execute_access bits.1.1.1.1.1.1.1.1.1.1.1.1.1.1.0,
      )
      refl,
)

pub table_entry-access :
    (E : TableEntry) (table : ℕ)
    → IsUnion (table_fields E 0)
    → (get E.read_access (table_entry E table) ≡ 1 % 2 ^ E.read_access.width)
      × (get E.write_access (table_entry E table) ≡ 1 % 2 ^ E.write_access.width)
      × (get E.execute_access (table_entry E table) ≡ 1 % 2 ^ E.execute_access.width)
unfolding table_entry puts
table_entry-access E table h = (
  get-puts (table_fields E table) 0 3 _ _ h refl,
  get-puts (table_fields E table) 0 2 _ _ h refl,
  get-puts (table_fields E table) 0 1 _ _ h refl,
)

pub split_entry-access :
    (E : TableEntry) (table : ℕ)
    → IsUnion (split_fields E 0)
    → (get E.read_access (split_entry E table) ≡ 1 % 2 ^ E.read_access.width)
      × (get E.write_access (split_entry E table) ≡ 1 % 2 ^ E.write_access.width)
      × (get E.execute_access (split_entry E table) ≡ 1 % 2 ^ E.execute_access.width)
unfolding split_entry puts
split_entry-access E table h = (
  get-puts (split_fields E table) 0 2 _ _ h refl,
  get-puts (split_fields E table) 0 1 _ _ h refl,
  get-puts (split_fields E table) 0 0 _ _ h refl,
)

-- The fourth out parameter, by the third.
pub resolve_pt-eq :
    (L : EptLayout) (ept_ptr : ℕ) (m : Memory) (a : ℕ)
    → (ept_resolve_entries L ept_ptr m a).pt ≡ (
        let pd = (ept_resolve_entries L ept_ptr m a).pd in
        if truth (get L.pde_2mb.large_page (m pd))
        then 0
        else u64 (get L.pde.page_frame_number (m pd) * 2 ^ 12) + 8 * (address_to_pt a).pt)
unfolding ept_resolve_entries
resolve_pt-eq L ept_ptr m a = refl

module _ (L : EptLayout) (sound : IsSound L) (addr mem_type : ℕ) where
  pub page_entry-fields :
      (get L.pte.page_frame_number (page_entry L.pte addr mem_type)
        ≡ addr / 2 ^ 12 % 2 ^ L.pte.page_frame_number.width)
      × (get L.pte.memory_type (page_entry L.pte addr mem_type)
          ≡ mem_type % 2 ^ L.pte.memory_type.width)
      × (get L.pte.read_access (page_entry L.pte addr mem_type) ≡ 1 % 2 ^ L.pte.read_access.width)
      × (get L.pte.write_access (page_entry L.pte addr mem_type) ≡ 1 % 2 ^ L.pte.write_access.width)
      × (get L.pte.execute_access (page_entry L.pte addr mem_type)
          ≡ 1 % 2 ^ L.pte.execute_access.width)
  unfolding page_entry puts
  page_entry-fields = (
    get-puts (page_fields L.pte addr mem_type) 0 0 _ _ sound.pte refl,
    get-puts (page_fields L.pte addr mem_type) 0 1 _ _ sound.pte refl,
    get-puts (page_fields L.pte addr mem_type) 0 4 _ _ sound.pte refl,
    get-puts (page_fields L.pte addr mem_type) 0 3 _ _ sound.pte refl,
    get-puts (page_fields L.pte addr mem_type) 0 2 _ _ sound.pte refl,
  )

  pub large_entry-fields :
      (get L.pde_2mb.page_frame_number (large_entry L.pde_2mb addr mem_type)
        ≡ addr / 2 ^ 12 % 2 ^ L.pde_2mb.page_frame_number.width)
      × (get L.pde_2mb.memory_type (large_entry L.pde_2mb addr mem_type)
          ≡ mem_type % 2 ^ L.pde_2mb.memory_type.width)
      × (get L.pde_2mb.read_access (large_entry L.pde_2mb addr mem_type)
          ≡ 1 % 2 ^ L.pde_2mb.read_access.width)
      × (get L.pde_2mb.write_access (large_entry L.pde_2mb addr mem_type)
          ≡ 1 % 2 ^ L.pde_2mb.write_access.width)
      × (get L.pde_2mb.execute_access (large_entry L.pde_2mb addr mem_type)
          ≡ 1 % 2 ^ L.pde_2mb.execute_access.width)
  unfolding large_entry puts
  large_entry-fields = (
    get-puts (large_fields L.pde_2mb addr mem_type) 0 0 _ _ sound.pde_2mb refl,
    get-puts (large_fields L.pde_2mb addr mem_type) 0 1 _ _ sound.pde_2mb refl,
    get-puts (large_fields L.pde_2mb addr mem_type) 0 5 _ _ sound.pde_2mb refl,
    get-puts (large_fields L.pde_2mb addr mem_type) 0 4 _ _ sound.pde_2mb refl,
    get-puts (large_fields L.pde_2mb addr mem_type) 0 3 _ _ sound.pde_2mb refl,
  )

pub large_frame :
    (a : ℕ)
    → a < 2 ^ 39
    → pt_to_address 0 (address_to_pt a).pdpt (address_to_pt a).pd 0 / 2 ^ 12 ≡ a / 2 ^ 21 * 2 ^ 9
unfolding address_to_pt
large_frame a h = omega (arith, pt_to_address_sum 0 (a / 2 ^ 30 % 512) (a / 2 ^ 21 % 512) 0)

pub page_frame :
    (a : ℕ)
    → a < 2 ^ 39
    → pt_to_address 0 (address_to_pt a).pdpt (address_to_pt a).pd (address_to_pt a).pt / 2 ^ 12
      ≡ a / 2 ^ 12
unfolding address_to_pt
page_frame a h =
    omega (arith, pt_to_address_sum 0 (a / 2 ^ 30 % 512) (a / 2 ^ 21 % 512) (a / 2 ^ 12 % 512))
