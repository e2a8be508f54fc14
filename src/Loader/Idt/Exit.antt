-- ===== src/Loader/Idt/Exit.antt =====
-- The way back from the hooked table.
use hypervi.Base.{ℕ, ◌*◌, ◌/◌, ◌≡◌, ◌≢◌, refl, false, [], ◌∷◌, some}
use hypervi.Loader.Allocator.{num_pages}
use hypervi.Loader.Allocator.Live.{live, is_full, block, Fresh, efi_deallocate-efi_allocate}
use hypervi.Loader.Idt.{IdtState, sizeof_idt_entry, efi_idt_init, efi_idt_exit}

-- Where the allocator had room and got a fresh block for the table, `efi_idt_exit` behind
-- `efi_idt_init` loads the register that was there before, hands the table's block back to the
-- firmware, and leaves the blocks that were in use before.
pub efi_idt_exit-efi_idt_init :
    (stub : ℕ → ℕ) (a : ℕ) (s : IdtState)
    → a ≢ 0
    → Fresh a s.allocations
    → is_full s.allocations ≡ false
    → let (freed, s') = efi_idt_exit (efi_idt_init stub (some a) s) in
      (s'.idtr ≡ s.idtr)
      × (freed ≡ block a (num_pages (s.idtr.limit / sizeof_idt_entry * sizeof_idt_entry)) ∷ [])
      × (live s'.allocations ≡ live s.allocations)
unfolding efi_idt_init efi_idt_exit
efi_idt_exit-efi_idt_init stub a s some_page fresh room =
    let size = s.idtr.limit / sizeof_idt_entry * sizeof_idt_entry in
    let (given, freed, kept) =
      efi_deallocate-efi_allocate s.allocations a size some_page fresh room in
    (refl, rw given freed, rw given kept)
