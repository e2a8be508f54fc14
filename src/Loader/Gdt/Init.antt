-- ===== src/Loader/Gdt/Init.antt =====
-- The table that `efi_gdt_init` loads.
use hypervi.Base.{ℕ, ◌+◌, ◌*◌, ◌^◌, ◌<◌, ◌≤◌, ◌≡◌, ◌⊎◌, inl, ap, ◌∙◌, arith, Option, u16, get}
use hypervi.Freestanding.Memory.{Bytes, memcpy, memset, movsb, stosb}
use hypervi.Freestanding.Memory.Laws.{Apart, movsb_lem, stosb-Frame, stosb_lem}
use hypervi.Freestanding.Segments.{get_segment_base, get_descriptor_base}
use hypervi.Loader.Gdt.{
  GdtLayout, GdtState, assign, tss_members, sizeof_tss, task_selector, efi_gdt_init,
}
use hypervi.Loader.Gdt.Task.{
  IsDocumented, descriptor_at, task_descriptor, task_base, selected_index, selected_base,
  assigned_descriptor, assign_kept,
}

-- A table of `n` descriptors of 8 bytes, with room for one of 16 in the limit's 16 bits, and a new
-- table and a task state segment that share no byte with it or each other.
pub record IsPatchable (s : GdtState) (new_gdt n : ℕ) : Type 0 where
  pub whole : s.gdtr.limit + 1 ≡ 8 * n
  pub some_entry : 0 < n
  pub room : s.gdtr.limit + 16 < 2 ^ 16
  pub in_memory : new_gdt + s.gdtr.limit + 17 ≤ 2 ^ 64
  pub tss_in_memory : s.new_tss < 2 ^ 64
  pub source_apart : Apart new_gdt s.gdtr.base_address s.gdtr.limit
  pub tss_apart : (new_gdt + s.gdtr.limit + 17 ≤ s.new_tss) ⊎ (s.new_tss + sizeof_tss ≤ new_gdt)

-- Memory after the steps of `efi_gdt_init`, with a descriptor of `size` bytes at an address.
steps : (s : GdtState) (new_gdt at size : ℕ) → Bytes
steps s new_gdt at size = stosb s.new_tss 0 sizeof_tss (
    assign at (tss_members s.new_tss)
      (stosb at 0 size (movsb new_gdt s.gdtr.base_address s.gdtr.limit s.memory)))

module _ (s : GdtState) (new_gdt : ℕ) where
  at : ℕ
  at = new_gdt + s.gdtr.limit + 1

  copied : Bytes
  copied = movsb new_gdt s.gdtr.base_address s.gdtr.limit s.memory

  assigned : Bytes
  assigned = assign at (tss_members s.new_tss) (stosb at 0 16 copied)

  patched : Bytes
  patched = steps s new_gdt at 16

  patched_tss : (j : ℕ) → j < sizeof_tss → patched (s.new_tss + j) ≡ 0
  unfolding patched steps assigned copied
  patched_tss j h = stosb_lem s.new_tss 0 sizeof_tss assigned j h

  module _ (n : ℕ) (ok : IsPatchable s new_gdt n) where
    patched_task : descriptor_at patched at ≡ task_descriptor s.new_tss
    unfolding patched steps at assigned copied
    patched_task = assigned_descriptor at s.new_tss (stosb at 0 16 copied) patched (λ j hj.
        stosb-Frame s.new_tss 0 sizeof_tss assigned (at + j) (ground (arith, ok.tss_apart)))

    patched_old :
        (q : ℕ) → q < s.gdtr.limit → patched (new_gdt + q) ≡ s.memory (s.gdtr.base_address + q)
    unfolding patched steps at assigned copied
    patched_old q h =
        stosb-Frame s.new_tss 0 sizeof_tss assigned (new_gdt + q) (ground (arith, ok.tss_apart))
        ∙ assign_kept at (new_gdt + q) (tss_members s.new_tss) (stosb at 0 16 copied) (omega arith)
        ∙ stosb-Frame at 0 16 copied (new_gdt + q) (inl (omega arith))
        ∙ movsb_lem new_gdt s.gdtr.base_address s.gdtr.limit s.memory q ok.source_apart h

module _ (L : GdtLayout) (doc : IsDocumented L) (answer : Option ℕ) (s : GdtState) where
  abbrev pub patched_state : GdtState
  patched_state = efi_gdt_init L answer s

  memory_patched :
      (n : ℕ)
      → IsPatchable s patched_state.new_gdt n
      → patched_state.memory ≡ patched s patched_state.new_gdt
  unfolding efi_gdt_init patched at steps memcpy memset
  memory_patched n ok =
      let index = selected_index L s.gdtr.limit n doc ok.whole (omega arith) in
      let to = patched_state.new_gdt in
      let place : to
            + L.selector.descriptor_size * get L.selector.index (task_selector L s.gdtr.limit)
          ≡ to + s.gdtr.limit + 1 =
        rw (index, doc.descriptor_size) (omega (arith, ok.whole)) in
      ap (λ (p : ℕ). steps s to p L.descriptor_64_size) place
      ∙ ap (λ (z : ℕ). steps s to (to + s.gdtr.limit + 1) z) doc.descriptor_64_size

  -- Of a table that can be patched, with the documented layout, `efi_gdt_init` loads a copy whose
  -- limit is greater by 16 and whose bytes below the old limit are the old ones; the base of the
  -- selector that it loads into the task register is the address of the task state segment, which
  -- is all zeros.
  pub efi_gdt_init_lem :
      (n : ℕ)
      → IsPatchable s patched_state.new_gdt n
      → (patched_state.gdtr
          ≡ record { limit = s.gdtr.limit + 16; base_address = patched_state.new_gdt })
        × (get_segment_base L.selector
              (descriptor_at patched_state.memory)
              patched_state.gdtr.base_address
              patched_state.tr
            ≡ s.new_tss)
        × ((q : ℕ)
            → q < s.gdtr.limit
            → patched_state.memory (patched_state.new_gdt + q) ≡ s.memory (s.gdtr.base_address + q))
        × ((j : ℕ) → j < sizeof_tss → patched_state.memory (s.new_tss + j) ≡ 0)
  unfolding efi_gdt_init at
  efi_gdt_init_lem n ok =
      let to = patched_state.new_gdt in
      let memory = memory_patched n ok in
      let wide : u16 (s.gdtr.limit + L.descriptor_64_size) ≡ s.gdtr.limit + 16 =
        omega (arith, doc.descriptor_64_size) in
      (
        ap (λ (t : ℕ). record { limit = t; base_address = to }) wide,
        rw memory (
            selected_base L (descriptor_at (patched s to)) to s.gdtr.limit n doc ok.whole
              ok.some_entry (omega arith) (omega arith)
            ∙ ap (get_descriptor_base L.selector) (patched_task s to n ok)
            ∙ task_base L.selector s.new_tss doc.tss_available ok.tss_in_memory),
        rw memory (patched_old s to n ok),
        rw memory (patched_tss s to),
      )
