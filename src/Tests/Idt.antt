-- ===== src/Tests/Idt.antt =====
-- A table of 256 entries at 0x100000, and its copy in the page at 0x4000.
use hypervi.Base.{
  ℕ, ◌+◌, ◌*◌, ◌≡◌, ◌^◌, if◌then◌else◌, ltb, inl, refl, arith, [], ◌∷◌, some, All, ◌<◌,
}
use hypervi.Loader.Registers.{TableRegister}
use hypervi.Loader.Allocator.{free_entry, num_pages, fill_first, efi_allocate}
use hypervi.Loader.Allocator.Live.{live, is_full, block}
use hypervi.Loader.Idt.{IdtState, efi_idt_init, efi_idt_exit}
use hypervi.Loader.Idt.Hooks.{isr_address, efi_idt_init_lem}
use hypervi.Loader.Idt.Exit.{efi_idt_exit-efi_idt_init}

abbrev no_idtr : TableRegister
no_idtr = record { limit = 0; base_address = 0 }

abbrev before : IdtState
before = record {
  efi_idtr = no_idtr;
  custom_idt = 0;
  custom_idtr = no_idtr;
  memory = λ _. 0x5a;
  allocations = block 0x8000 1 ∷ free_entry ∷ [];
  idtr = record { limit = 0xfff; base_address = 0x100000 };
}

abbrev stub : ℕ → ℕ
stub k = if ltb k 16 then 0x123456789000 + 16 * k else 0

stub_word : (k : ℕ) → stub k < 2 ^ 64
stub_word k = ground arith

efi_idt_init_lem_example :
    All
      (λ (k : ℕ).
        isr_address
          ((efi_idt_init stub (some 0x4000) before).custom_idt + 16 * k)
          (efi_idt_init stub (some 0x4000) before).memory
        ≡ stub k)
      (6 ∷ 8 ∷ 10 ∷ 11 ∷ 12 ∷ 13 ∷ 14 ∷ [])
unfolding efi_idt_init fill_first efi_allocate
efi_idt_init_lem_example =
    (efi_idt_init_lem stub (some 0x4000) before (inl (omega arith)) (omega arith) stub_word).1

efi_idt_exit-efi_idt_init_example :
    let (freed, s') = efi_idt_exit (efi_idt_init stub (some 0x4000) before) in
    (s'.idtr ≡ before.idtr)
    × (freed ≡ block 0x4000 (num_pages 4080) ∷ [])
    × (live s'.allocations ≡ live before.allocations)
unfolding is_full
efi_idt_exit-efi_idt_init_example =
    efi_idt_exit-efi_idt_init stub 0x4000 before (omega arith) (omega arith, (omega arith, tt)) refl
