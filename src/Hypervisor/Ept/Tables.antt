-- ===== src/Hypervisor/Ept/Tables.antt =====
-- What `ept_init_core` builds: every entry of every table.
use mathlib.Core.Path.{subst}
use hypervi.Base.{
  ℕ, ◌+◌, ◌*◌, ◌≤◌, ◌<◌, ◌≡◌, ◌≢◌, refl, ◌∙◌, List, arith, for_range, for_range_each,
}
use hypervi.Hypervisor.Mtrr.{MtrrData, MemoryTypes}
use hypervi.Hypervisor.Ept.{
  EptLayout, Memory, Machine, write, zero_page, table_entry, pointer_value, fill_pdpt,
  ept_init_core,
}
use hypervi.Hypervisor.Ept.Pages.{write_self, write_ne}
use hypervi.Hypervisor.Ept.Build.{
  IsPaged, slot, PdeBuilt, Keeps, Keeps-refl, Keeps-trans, PdeBuilt-Keeps, apart, zero_ne, pde_loop,
}

module _ (L : EptLayout) (T : MemoryTypes) (mtrrs : List MtrrData) (default : ℕ)
    (alloc : ℕ → ℕ) where
  -- Entry p of the page-directory-pointer table in page t, and the directory that it points to.
  pub record PdptBuilt (t p : ℕ) (s : Machine) : Type 0 where
    pub c : ℕ
    pub behind : t < c
    pub used : c < s.next
    pub entry : s.mem (slot alloc t p) ≡ table_entry L.pdpte (alloc c)
    pub directory : (d : ℕ) → d < 512 → PdeBuilt L T mtrrs default alloc p c d s

  module _ (limit : ℕ) (paged : IsPaged alloc limit) where
    record PdptRound (t p : ℕ) (s s' : Machine) : Type 0 where
      keeps : Keeps L T mtrrs default alloc t s s'
      small : s'.next ≤ s.next + 513
      siblings : (j : ℕ) → j ≢ p → j < 512 → s'.mem (slot alloc t j) ≡ s.mem (slot alloc t j)
      built : PdptBuilt t p s'

    fill_pdpt-PdptRound :
        (t p : ℕ) (s : Machine)
        → t < s.next
        → s.next + 513 ≤ limit
        → p < 512
        → PdptRound t p s (fill_pdpt L T mtrrs default alloc (alloc t) p s)
    unfolding fill_pdpt
    fill_pdpt-PdptRound t p s tn room hp =
        let zeroed : Memory = zero_page (alloc s.next) s.mem in
        let filled : Machine = record {
          mem = write (slot alloc t p) (table_entry L.pdpte (alloc s.next)) zeroed;
          next = s.next + 1;
        } in
        let looped =
          pde_loop L T mtrrs default alloc limit paged p s.next filled (omega arith)
            (omega arith) in
        record {
          keeps = record {
            grows = omega (arith, looped.0.0.grows);
            pages = λ k i ne lt hi.
                looped.0.0.pages k i (omega arith) (omega arith) hi
                ∙ write_ne (slot alloc t p) _ zeroed (slot alloc k i) (
                    apart L T mtrrs default alloc limit paged k t i p (omega arith) (omega arith) ne
                      hi hp)
                ∙ zero_ne L T mtrrs default alloc limit paged s.next k i s.mem (omega arith)
                    (omega arith) (omega arith) hi;
          };
          small = omega (arith, looped.0.1);
          siblings = λ j ne hj.
              looped.0.0.pages t j (omega arith) (omega arith) hj
              ∙ write_ne (slot alloc t p) _ zeroed (slot alloc t j) (omega arith)
              ∙ zero_ne L T mtrrs default alloc limit paged s.next t j s.mem (omega arith)
                  (omega arith) (omega arith) hj;
          built = record {
            c = s.next;
            behind = tn;
            used = omega (arith, looped.0.0.grows);
            entry =
                looped.0.0.pages t p (omega arith) (omega arith) hp
                ∙ write_self (slot alloc t p) _ zeroed;
            directory = looped.1;
          };
        }

    PdptBuilt-PdptRound :
        {t p i : ℕ} {s s' : Machine}
        → p ≢ i
        → p < 512
        → PdptRound t i s s'
        → PdptBuilt t p s
        → PdptBuilt t p s'
    PdptBuilt-PdptRound {p} ne hp r b = record {
      c = b.c;
      behind = b.behind;
      used = omega (arith, b.used, r.keeps.grows);
      entry = r.siblings p ne hp ∙ b.entry;
      directory = λ d hd.
          PdeBuilt-Keeps L T mtrrs default alloc b.behind b.used hd r.keeps (b.directory d hd);
    }

    pdpt_loop :
        (t : ℕ) (s : Machine)
        → t < s.next
        → s.next + 513 * 512 ≤ limit
        → (Keeps L T mtrrs default alloc t s
              (for_range 512 0 (fill_pdpt L T mtrrs default alloc (alloc t)) s)
            × ((for_range 512 0 (fill_pdpt L T mtrrs default alloc (alloc t)) s).next
                ≤ s.next + 513 * 512))
          × ((p : ℕ)
              → p < 512
              → PdptBuilt t p (for_range 512 0 (fill_pdpt L T mtrrs default alloc (alloc t)) s))
    pdpt_loop t s tn room =
        for_range_each (λ i s'. Keeps L T mtrrs default alloc t s s' × (s'.next ≤ s.next + 513 * i))
          (λ p s'. PdptBuilt t p s') (fill_pdpt L T mtrrs default alloc (alloc t)) 512
          (λ i s' hi (keep, small).
            let r = fill_pdpt-PdptRound t i s' (omega (arith, keep.grows)) (omega arith) hi in
            ((Keeps-trans L T mtrrs default alloc keep r.keeps, omega (arith, r.small)), r.built))
          (λ i j s' hi (keep, small) lt built.
            PdptBuilt-PdptRound (omega arith) (omega arith)
              (fill_pdpt-PdptRound t i s' (omega (arith, keep.grows)) (omega arith) hi) built)
          s (Keeps-refl L T mtrrs default alloc t s, omega arith)

  -- The tables of a whole call: the PML4 in page `n`, the pointer table behind it.
  pub record TablesBuilt (n : ℕ) (out : ℕ × Machine) : Type 0 where
    pub pointer : out.0 ≡ pointer_value L.pointer T.write_back (alloc n)
    pub pml4 : out.1.mem (alloc n) ≡ table_entry L.pml4 (alloc (n + 1))
    pub tables : (p : ℕ) → p < 512 → PdptBuilt (n + 1) p out.1
    pub used : out.1.next ≤ n + (2 + 513 * 512)

  -- With a page of its own from every allocation, `ept_init_core` builds all tables: each of the
  -- 512 * 512 directory entries is a 2-MB page, or points to a full page table.
  pub ept_init_core-TablesBuilt :
      (limit : ℕ) (s : Machine)
      → IsPaged alloc limit
      → s.next + (2 + 513 * 512) ≤ limit
      → TablesBuilt s.next (ept_init_core L T mtrrs default alloc s)
  unfolding ept_init_core
  ept_init_core-TablesBuilt limit s paged room =
      let start : Machine = record {
        mem =
            write (alloc s.next) (table_entry L.pml4 (alloc (s.next + 1)))
              (zero_page (alloc (s.next + 1)) (zero_page (alloc s.next) s.mem));
        next = s.next + 2;
      } in
      let looped = pdpt_loop limit paged (s.next + 1) start (omega arith) (omega arith) in
      let first : slot alloc s.next 0 ≡ alloc s.next = omega arith in
      record {
        pointer = refl;
        pml4 =
            subst
              (λ a.
                (for_range 512 0 (fill_pdpt L T mtrrs default alloc (alloc (s.next + 1))) start).mem
                  a
                ≡ start.mem a)
              first (looped.0.0.pages s.next 0 (omega arith) (omega arith) (omega arith))
            ∙ write_self (alloc s.next) _
                (zero_page (alloc (s.next + 1)) (zero_page (alloc s.next) s.mem));
        tables = looped.1;
        used = omega (arith, looped.0.1);
      }
