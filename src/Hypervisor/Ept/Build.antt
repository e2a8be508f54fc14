-- ===== src/Hypervisor/Ept/Build.antt =====
-- What the loop over a page directory builds in `ept_init_core`: 2-MB pages and page tables.
use hypervi.Base.{
  ℕ, suc, ◌+◌, ◌*◌, ◌%◌, ◌≤◌, ◌<◌, ◌≡◌, ◌≢◌, inl, inr, refl, sym, ◌∙◌, true, false, List, arith,
  ◌/=◌, Bool-cases, for_range, for_range_each,
}
use hypervi.Freestanding.Paging.{pt_to_address}
use hypervi.Hypervisor.Mtrr.{MtrrData, MemoryTypes, ept_get_memory_type}
use hypervi.Hypervisor.Ept.{
  EptLayout, Memory, Machine, zero_page, split_entry, large_entry, page_entry, fill_pts, fill_pde,
}
use hypervi.Hypervisor.Ept.Pages.{slots_apart, write_self, write_ne, zero_page_ne, fill_at, fill_ne}

-- What the code relies on in `ldr_malloc`: each of the first `limit` calls returns a page of its
-- own.
pub record IsPaged (alloc : ℕ → ℕ) (limit : ℕ) : Type 0 where
  pub aligned : (k : ℕ) → alloc k % 0x1000 ≡ 0
  pub distinct : (j k : ℕ) → j < limit → k < limit → alloc j ≡ alloc k → j ≡ k

abbrev pub slot : (ℕ → ℕ) → ℕ → ℕ → ℕ
slot alloc k i = alloc k + 8 * i

module _ (L : EptLayout) (T : MemoryTypes) (mtrrs : List MtrrData) (default : ℕ)
    (alloc : ℕ → ℕ) where
  -- The types of a 2-MB page and of a 4-KB page.
  abbrev pub large_type : (p d : ℕ) → ℕ
  large_type p d = ept_get_memory_type T mtrrs default (pt_to_address 0 p d 0) 0x200000

  abbrev pub page_type : (p d i : ℕ) → ℕ
  page_type p d i = ept_get_memory_type T mtrrs default (pt_to_address 0 p d i) 0x1000

  -- Entry d of the page directory in page c: a 2-MB page, or a page table in another page k.
  pub data PdeBuilt (p c d : ℕ) (s : Machine) : Type 0 where
    large :
        large_type p d ≢ T.invalid
        → s.mem (slot alloc c d) ≡ large_entry L.pde_2mb (pt_to_address 0 p d 0) (large_type p d)
        → PdeBuilt p c d s
    split :
        (k : ℕ)
        → large_type p d ≡ T.invalid
        → c < k
        → k < s.next
        → s.mem (slot alloc c d) ≡ split_entry L.pde (alloc k)
        → ((i : ℕ)
            → i < 512
            → s.mem (slot alloc k i) ≡ page_entry L.pte (pt_to_address 0 p d i) (page_type p d i))
        → PdeBuilt p c d s

  -- Pages in use before stay as they were, but for page c.
  pub record Keeps (c : ℕ) (s s' : Machine) : Type 0 where
    pub grows : s.next ≤ s'.next
    pub pages :
        (k i : ℕ) → k ≢ c → k < s.next → i < 512 → s'.mem (slot alloc k i) ≡ s.mem (slot alloc k i)

  pub Keeps-refl : (c : ℕ) (s : Machine) → Keeps c s s
  Keeps-refl c s = record { grows = omega arith; pages = λ k i _ _ _. refl }

  pub Keeps-trans : {c : ℕ} {s t u : Machine} → Keeps c s t → Keeps c t u → Keeps c s u
  Keeps-trans a b = record {
    grows = omega (arith, a.grows, b.grows);
    pages = λ k i ne lt hi. b.pages k i ne (omega (arith, a.grows)) hi ∙ a.pages k i ne lt hi;
  }

  -- Such a change keeps what was built in pages that it spares.
  pub PdeBuilt-Keeps :
      {p c d t : ℕ} {s s' : Machine}
      → t < c
      → c < s.next
      → d < 512
      → Keeps t s s'
      → PdeBuilt p c d s
      → PdeBuilt p c d s'
  PdeBuilt-Keeps {c} {d} tc cn hd keep (large v e) =
      large v (keep.pages c d (omega arith) cn hd ∙ e)
  PdeBuilt-Keeps {c} {d} tc cn hd keep (split k v ck kn e pages) =
      split k v ck (omega (arith, keep.grows)) (keep.pages c d (omega arith) cn hd ∙ e)
        (λ i hi. keep.pages k i (omega arith) kn hi ∙ pages i hi)

  module _ (limit : ℕ) (paged : IsPaged alloc limit) where
    pub apart :
        (j k i i' : ℕ)
        → j < limit
        → k < limit
        → j ≢ k
        → i < 512
        → i' < 512
        → slot alloc j i ≢ slot alloc k i'
    apart j k i i' jl kl ne hi hi' =
        slots_apart (alloc j) (alloc k) i i' (paged.aligned j) (paged.aligned k)
          (λ e. ne (paged.distinct j k jl kl e)) hi hi'

    fill_pts_at :
        (k p d : ℕ) (m : Memory) (i : ℕ)
        → i < 512
        → fill_pts L T mtrrs default alloc (alloc k) p d m (slot alloc k i)
          ≡ page_entry L.pte (pt_to_address 0 p d i) (page_type p d i)
    unfolding fill_pts
    fill_pts_at k p d m i hi =
        fill_at (alloc k) (λ i. page_entry L.pte (pt_to_address 0 p d i) (page_type p d i)) m i hi

    fill_pts_ne :
        (k p d : ℕ) (m : Memory) (j i : ℕ)
        → j < limit
        → k < limit
        → j ≢ k
        → i < 512
        → fill_pts L T mtrrs default alloc (alloc k) p d m (slot alloc j i) ≡ m (slot alloc j i)
    unfolding fill_pts
    fill_pts_ne k p d m j i jl kl ne hi =
        fill_ne (alloc k) (λ i. page_entry L.pte (pt_to_address 0 p d i) (page_type p d i)) m
          (slot alloc j i) (λ i' hi'. apart j k i i' jl kl ne hi hi')

    pub zero_ne :
        (k j i : ℕ) (m : Memory)
        → j < limit
        → k < limit
        → j ≢ k
        → i < 512
        → zero_page (alloc k) m (slot alloc j i) ≡ m (slot alloc j i)
    zero_ne k j i m jl kl ne hi =
        zero_page_ne (alloc k) (alloc j) i m (paged.aligned k) (paged.aligned j)
          (λ e. ne (sym (paged.distinct k j kl jl e))) hi

    -- One round of the loop over a page directory.
    record Round (p c d : ℕ) (s s' : Machine) : Type 0 where
      keeps : Keeps c s s'
      small : s'.next ≤ suc s.next
      siblings : (j : ℕ) → j ≢ d → j < 512 → s'.mem (slot alloc c j) ≡ s.mem (slot alloc c j)
      built : PdeBuilt p c d s'

    fill_pde-large :
        (p c d : ℕ) (s : Machine)
        → (large_type p d /= T.invalid) ≡ true
        → c < s.next
        → s.next < limit
        → d < 512
        → Round p c d s (fill_pde L T mtrrs default alloc (alloc c) p d s)
    unfolding fill_pde
    fill_pde-large p c d s v cn room hd = rw v (record {
      keeps = record {
        grows = omega arith;
        pages = λ k i ne lt hi.
            write_ne (slot alloc c d) _ s.mem (slot alloc k i)
              (apart k c i d (omega arith) (omega arith) ne hi hd);
      };
      small = omega arith;
      siblings = λ j ne hj. write_ne (slot alloc c d) _ s.mem (slot alloc c j) (omega arith);
      built = large (ground arith) (write_self (slot alloc c d) _ s.mem);
    })

    fill_pde-split :
        (p c d : ℕ) (s : Machine)
        → (large_type p d /= T.invalid) ≡ false
        → c < s.next
        → s.next < limit
        → d < 512
        → Round p c d s (fill_pde L T mtrrs default alloc (alloc c) p d s)
    unfolding fill_pde
    fill_pde-split p c d s v cn room hd = rw v (record {
      keeps = record {
        grows = omega arith;
        pages = λ k i ne lt hi.
            fill_pts_ne s.next p d _ k i (omega arith) room (omega arith) hi
            ∙ write_ne (slot alloc c d) _ (zero_page (alloc s.next) s.mem) (slot alloc k i)
                (apart k c i d (omega arith) (omega arith) ne hi hd)
            ∙ zero_ne s.next k i s.mem (omega arith) room (omega arith) hi;
      };
      small = omega arith;
      siblings = λ j ne hj.
          fill_pts_ne s.next p d _ c j (omega arith) room (omega arith) hj
          ∙ write_ne (slot alloc c d) _ (zero_page (alloc s.next) s.mem) (slot alloc c j)
              (omega arith)
          ∙ zero_ne s.next c j s.mem (omega arith) room (omega arith) hj;
      built =
          split s.next (ground arith) cn (omega arith)
            (fill_pts_ne s.next p d _ c d (omega arith) room (omega arith) hd
              ∙ write_self (slot alloc c d) _ (zero_page (alloc s.next) s.mem))
            (λ i hi. fill_pts_at s.next p d _ i hi);
    })

    fill_pde-Round :
        (p c d : ℕ) (s : Machine)
        → c < s.next
        → s.next < limit
        → d < 512
        → Round p c d s (fill_pde L T mtrrs default alloc (alloc c) p d s)
    fill_pde-Round p c d s cn room hd = elim (Bool-cases (large_type p d /= T.invalid)) [
      | inl v ↦ fill_pde-large p c d s v cn room hd
      | inr v ↦ fill_pde-split p c d s v cn room hd
    ]

    -- A later round of the same directory keeps an entry.
    PdeBuilt-Round :
        {p c d i : ℕ} {s s' : Machine}
        → d ≢ i
        → d < 512
        → Round p c i s s'
        → PdeBuilt p c d s
        → PdeBuilt p c d s'
    PdeBuilt-Round {d} ne hd r (large v e) = large v (r.siblings d ne hd ∙ e)
    PdeBuilt-Round {d} ne hd r (split k v ck kn e pages) =
        split k v ck (omega (arith, r.keeps.grows)) (r.siblings d ne hd ∙ e)
          (λ i hi. r.keeps.pages k i (omega arith) kn hi ∙ pages i hi)

    -- The loop over a page directory.
    pub pde_loop :
        (p c : ℕ) (s : Machine)
        → c < s.next
        → s.next + 512 ≤ limit
        → (Keeps c s (for_range 512 0 (fill_pde L T mtrrs default alloc (alloc c) p) s)
            × ((for_range 512 0 (fill_pde L T mtrrs default alloc (alloc c) p) s).next
                ≤ s.next + 512))
          × ((d : ℕ)
              → d < 512
              → PdeBuilt p c d (for_range 512 0 (fill_pde L T mtrrs default alloc (alloc c) p) s))
    pde_loop p c s cn room =
        for_range_each (λ i s'. Keeps c s s' × (s'.next ≤ s.next + i)) (λ d s'. PdeBuilt p c d s')
          (fill_pde L T mtrrs default alloc (alloc c) p) 512
          (λ i s' hi (keep, small).
            let r = fill_pde-Round p c i s' (omega (arith, keep.grows)) (omega arith) hi in
            ((Keeps-trans keep r.keeps, omega (arith, r.small)), r.built))
          (λ i j s' hi (keep, small) lt built.
            PdeBuilt-Round (omega arith) (omega arith)
              (fill_pde-Round p c i s' (omega (arith, keep.grows)) (omega arith) hi) built)
          s (Keeps-refl c s, omega arith)
