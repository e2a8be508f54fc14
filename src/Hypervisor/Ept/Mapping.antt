-- ===== src/Hypervisor/Ept/Mapping.antt =====
-- Where the tables of `ept_init_core` map an address below 512 GB.
use native.Mathlib.Nat.{mod-eq_of_lt, pow-le-pow_right}
use hypervi.Base.{
  ℕ, ◌+◌, ◌*◌, ◌/◌, ◌%◌, ◌^◌, ◌≤◌, ◌<◌, ◌≡◌, ◌≢◌, refl, ◌&&◌, true, ap, ◌∙◌, List, arith,
}
use hypervi.Freestanding.Paging.{address_to_pt, pt_to_address}
use hypervi.Hypervisor.Mtrr.{MtrrData, MemoryTypes}
use hypervi.Hypervisor.Ept.{
  EptLayout, Machine, split_entry, large_entry, page_entry, ept_init_core, ept_resolve_entries,
}
use hypervi.Hypervisor.Ept.Entries.{
  Walked, walk, HasAccessBits, granted, granted_large, granted_page, table_entry-access,
  split_entry-access, resolve_pt-eq, page_entry-fields, large_entry-fields, large_frame, page_frame,
}
use hypervi.Hypervisor.Ept.Build.{IsPaged, slot, PdeBuilt, large, split, large_type, page_type}
use hypervi.Hypervisor.Ept.Tables.{PdptBuilt, TablesBuilt, ept_init_core-TablesBuilt}
use hypervi.Hypervisor.Ept.Walk.{
  IsSound, IsInReach, split_entry_pfn, split_entry_large, large_entry_large, page_back, indices,
  IsPathTo, resolve-IsPathTo,
}

module _ (L : EptLayout) (T : MemoryTypes) (mtrrs : List MtrrData) (default : ℕ) (alloc : ℕ → ℕ)
    (limit : ℕ) (sound : IsSound L) (paged : IsPaged alloc limit)
    (reach : IsInReach L alloc limit) where
  -- The memory types that `ept_get_memory_type` gives the pages of an address.
  abbrev pub type_2mb : ℕ → ℕ
  type_2mb a = large_type L T mtrrs default alloc (address_to_pt a).pdpt (address_to_pt a).pd

  abbrev pub type_4kb : ℕ → ℕ
  type_4kb a =
      page_type L T mtrrs default alloc (address_to_pt a).pdpt (address_to_pt a).pd
        (address_to_pt a).pt

  abbrev pub walked : Machine → ℕ → Walked
  walked s a = let out = ept_init_core L T mtrrs default alloc s in walk L out.0 out.1.mem a

  -- What a walk finds in a directory entry.
  module _ (n a : ℕ) (out : ℕ × Machine) (b : TablesBuilt L T mtrrs default alloc n out)
      (h : a < 2 ^ 39) (room : n + (2 + 513 * 512) ≤ limit) where
    abbrev directory : PdptBuilt L T mtrrs default alloc (n + 1) (address_to_pt a).pdpt out.1
    directory =
        b.tables (address_to_pt a).pdpt
          (indices L T mtrrs default alloc limit sound paged reach a h).1

    path :
        IsPathTo L T mtrrs default alloc limit sound paged reach n directory.c a
          (ept_resolve_entries L out.0 out.1.mem a)
    path = resolve-IsPathTo L T mtrrs default alloc limit sound paged reach n a out b h room

    -- In a split directory entry the walk goes on to the page table.
    resolve_pt :
        (k : ℕ)
        → k < limit
        → out.1.mem (slot alloc directory.c (address_to_pt a).pd) ≡ split_entry L.pde (alloc k)
        → (ept_resolve_entries L out.0 out.1.mem a).pt ≡ slot alloc k (address_to_pt a).pt
    resolve_pt k kl e =
        resolve_pt-eq L out.0 out.1.mem a
        ∙ rw (path.pd, e, split_entry_large L sound (alloc k), split_entry_pfn L sound (alloc k))
            (ap (λ x. x + 8 * (address_to_pt a).pt)
              (page_back (alloc k) _ (paged.aligned k) (reach.word k kl) (reach.pde k kl)))

    walk-large :
        out.1.mem (slot alloc directory.c (address_to_pt a).pd)
          ≡ large_entry L.pde_2mb
              (pt_to_address 0 (address_to_pt a).pdpt (address_to_pt a).pd 0)
              (type_2mb a)
        → walk L out.0 out.1.mem a ≡ record {
          address =
              a
                / 2 ^ 21
                * 2 ^ 9
                % 2 ^ L.pde_2mb.page_frame_number.width
                * 2 ^ L.pde_2mb.page_frame_number.offset
              + a % 2 ^ 21;
          memory_type = type_2mb a % 2 ^ L.pde_2mb.memory_type.width;
          readable =
              (granted L.pml4.read_access && granted L.pdpte.read_access)
              && granted L.pde_2mb.read_access;
          writable =
              (granted L.pml4.write_access && granted L.pdpte.write_access)
              && granted L.pde_2mb.write_access;
          executable =
              (granted L.pml4.execute_access && granted L.pdpte.execute_access)
              && granted L.pde_2mb.execute_access;
        }
    unfolding walk
    walk-large e =
        let addr = pt_to_address 0 (address_to_pt a).pdpt (address_to_pt a).pd 0 in
        let f = large_entry-fields L sound addr (type_2mb a) in
        let upper = table_entry-access L.pml4 (alloc (n + 1)) sound.pml4 in
        let middle = table_entry-access L.pdpte (alloc directory.c) sound.pdpte in
        rw (
          path.pml4,
          b.pml4,
          path.pdpt,
          directory.entry,
          upper.0,
          upper.1,
          upper.2,
          middle.0,
          middle.1,
          middle.2,
          path.pd,
          e,
          large_entry_large L sound addr (type_2mb a),
          f.0,
          f.1,
          f.2,
          f.3,
          f.4,
          large_frame a h,
        )

    walk-page :
        (k : ℕ)
        → k < limit
        → out.1.mem (slot alloc directory.c (address_to_pt a).pd) ≡ split_entry L.pde (alloc k)
        → out.1.mem (slot alloc k (address_to_pt a).pt)
          ≡ page_entry L.pte
              (pt_to_address 0 (address_to_pt a).pdpt (address_to_pt a).pd (address_to_pt a).pt)
              (type_4kb a)
        → walk L out.0 out.1.mem a ≡ record {
          address =
              a / 2 ^ 12 % 2 ^ L.pte.page_frame_number.width * 2 ^ L.pte.page_frame_number.offset
              + a % 2 ^ 12;
          memory_type = type_4kb a % 2 ^ L.pte.memory_type.width;
          readable =
              (granted L.pml4.read_access && granted L.pdpte.read_access)
              && granted L.pde.read_access
              && granted L.pte.read_access;
          writable =
              (granted L.pml4.write_access && granted L.pdpte.write_access)
              && granted L.pde.write_access
              && granted L.pte.write_access;
          executable =
              (granted L.pml4.execute_access && granted L.pdpte.execute_access)
              && granted L.pde.execute_access
              && granted L.pte.execute_access;
        }
    unfolding walk
    walk-page k kl e pte =
        let addr =
          pt_to_address 0 (address_to_pt a).pdpt (address_to_pt a).pd (address_to_pt a).pt in
        let f = page_entry-fields L sound addr (type_4kb a) in
        let upper = table_entry-access L.pml4 (alloc (n + 1)) sound.pml4 in
        let middle = table_entry-access L.pdpte (alloc directory.c) sound.pdpte in
        let lower = split_entry-access L.pde (alloc k) sound.pde in
        rw (
          path.pml4,
          b.pml4,
          path.pdpt,
          directory.entry,
          upper.0,
          upper.1,
          upper.2,
          middle.0,
          middle.1,
          middle.2,
          resolve_pt k kl e,
          path.pd,
          e,
          split_entry_large L sound (alloc k),
          lower.0,
          lower.1,
          lower.2,
          pte,
          f.0,
          f.1,
          f.2,
          f.3,
          f.4,
          page_frame a h,
        )

  abbrev out_of : Machine → ℕ × Machine
  out_of s = ept_init_core L T mtrrs default alloc s

  abbrev HasRoom : Machine → Type 0
  HasRoom s = s.next + (2 + 513 * 512) ≤ limit

  tables : (s : Machine) → HasRoom s → TablesBuilt L T mtrrs default alloc s.next (out_of s)
  tables s room = ept_init_core-TablesBuilt L T mtrrs default alloc limit s paged room

  entry :
      (s : Machine) (room : HasRoom s) (a : ℕ) (h : a < 2 ^ 39)
      → PdeBuilt L T mtrrs default alloc
          (address_to_pt a).pdpt
          (directory s.next a (out_of s) (tables s room) h room).c
          (address_to_pt a).pd
          (out_of s).1
  entry s room a h =
      (directory s.next a (out_of s) (tables s room) h room).directory (address_to_pt a).pd
        (indices L T mtrrs default alloc limit sound paged reach a h).2

  -- The walk in a large page, with the bits as they are read.
  large_walk :
      (s : Machine) (a : ℕ) (room : HasRoom s) (h : a < 2 ^ 39)
      → type_2mb a ≢ T.invalid
      → walked s a ≡ record {
        address =
            a
              / 2 ^ 21
              * 2 ^ 9
              % 2 ^ L.pde_2mb.page_frame_number.width
              * 2 ^ L.pde_2mb.page_frame_number.offset
            + a % 2 ^ 21;
        memory_type = type_2mb a % 2 ^ L.pde_2mb.memory_type.width;
        readable =
            (granted L.pml4.read_access && granted L.pdpte.read_access)
            && granted L.pde_2mb.read_access;
        writable =
            (granted L.pml4.write_access && granted L.pdpte.write_access)
            && granted L.pde_2mb.write_access;
        executable =
            (granted L.pml4.execute_access && granted L.pdpte.execute_access)
            && granted L.pde_2mb.execute_access;
      }
  large_walk s a room h v = elim (entry s room a h) [
    | large _ e ↦ walk-large s.next a (out_of s) (tables s room) h room e
    | split k same _ _ _ _ ↦ absurd (v same)
  ]

  -- If the whole 2-MB page of an address has one memory type, `ept_init_core` maps it by a large
  -- page of that type, whose frame number is the number of the 4-KB page, and the entries of all
  -- three levels grant every access.
  pub large_mapping :
      (s : Machine) (a : ℕ)
      → s.next + (2 + 513 * 512) ≤ limit
      → a < 2 ^ 39
      → type_2mb a ≢ T.invalid
      → HasAccessBits L
      → walked s a ≡ record {
        address =
            a
              / 2 ^ 21
              * 2 ^ 9
              % 2 ^ L.pde_2mb.page_frame_number.width
              * 2 ^ L.pde_2mb.page_frame_number.offset
            + a % 2 ^ 21;
        memory_type = type_2mb a % 2 ^ L.pde_2mb.memory_type.width;
        readable = true;
        writable = true;
        executable = true;
      }
  large_mapping s a room h v bits =
      large_walk s a room h v ∙ (let g = granted_large L bits in rw (g.0, g.1, g.2) refl)

  -- If the 2-MB page of an address has no one memory type, and the frame numbers of `epte` stand at
  -- bit 12 and reach the address, `ept_init_core` maps the address to itself, with the type of
  -- its 4-KB page, and the entries of all four levels grant every access.
  pub split_mapping :
      (s : Machine) (a : ℕ)
      → s.next + (2 + 513 * 512) ≤ limit
      → a < 2 ^ 39
      → type_2mb a ≡ T.invalid
      → L.pte.page_frame_number.offset ≡ 12
      → a / 2 ^ 12 < 2 ^ L.pte.page_frame_number.width
      → HasAccessBits L
      → walked s a ≡ record {
        address = a;
        memory_type = type_4kb a % 2 ^ L.pte.memory_type.width;
        readable = true;
        writable = true;
        executable = true;
      }
  split_mapping s a room h same at_12 fits bits = elim (entry s room a h) [
    | large v _ ↦ absurd (v same)
    | split k _ _ used e pages ↦
        let page =
          walk-page s.next a (out_of s) (tables s room) h room k
            (omega (arith, used, (tables s room).used)) e
            (pages (address_to_pt a).pt
              (indices L T mtrrs default alloc limit sound paged reach a h).3) in
        let g = granted_page L bits in
        rw (g.0, g.1, g.2) at page
        ∙ ap
            (λ x. record {
              address = x;
              memory_type = type_4kb a % 2 ^ L.pte.memory_type.width;
              readable = true;
              writable = true;
              executable = true;
            })
            (rw (mod-eq_of_lt fits, at_12) (omega arith))
  ]

  -- Where the frame numbers of `epde_2mb` stand at bit 21, no address from 2 MB on that has a
  -- large page is mapped to itself: the code assigns the number of the 4-KB page.
  pub large_mapping-ne :
      (s : Machine) (a : ℕ)
      → s.next + (2 + 513 * 512) ≤ limit
      → a < 2 ^ 39
      → 2 ^ 21 ≤ a
      → type_2mb a ≢ T.invalid
      → L.pde_2mb.page_frame_number.offset ≡ 21
      → 27 ≤ L.pde_2mb.page_frame_number.width
      → (walked s a).address ≢ a
  large_mapping-ne s a room h from v at_21 wide e =
      let reaches : 2 ^ 27 ≤ 2 ^ L.pde_2mb.page_frame_number.width =
        pow-le-pow_right (omega arith) wide in
      let fits : a / 2 ^ 21 * 2 ^ 9 < 2 ^ L.pde_2mb.page_frame_number.width = omega arith in
      let there : (walked s a).address ≡ a / 2 ^ 21 * 2 ^ 9 * 2 ^ 21 + a % 2 ^ 21 =
        ap (λ (w : Walked). w.address) (large_walk s a room h v) ∙ rw (mod-eq_of_lt fits, at_21) in
      omega arith
