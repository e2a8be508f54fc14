-- ===== src/Tests/Allocator.antt =====
-- The allocator's table, with two entries where a test needs it short.
use mathlib.Core.List.{Perm}
use hypervi.Base.{◌++◌, ◌≡◌, refl, arith, [], ◌∷◌, some}
use hypervi.Loader.Allocator.{Table, free_entry, efi_allocate, efi_deallocate, num_pages}
use hypervi.Loader.Allocator.Live.{
  live, is_full, block, elsewhere, at_address, Allocated, efi_allocate-Allocated,
  efi_deallocate_lem, efi_deallocate-efi_allocate,
}
use hypervi.Loader.Allocator.Reach.{Reach, gives, start, allocate, deallocate, Reach-Perm}

abbrev half_full : Table
half_full = block 4096 1 ∷ free_entry ∷ []

efi_allocate-Allocated_example :
    Allocated half_full (num_pages 5000) (some 8192) (efi_allocate (some 8192) 5000 half_full)
efi_allocate-Allocated_example = efi_allocate-Allocated half_full 5000 (some 8192)

efi_deallocate_lem_example :
    ((efi_deallocate 4096 half_full).0 ≡ at_address 4096 (live half_full))
    × (live (efi_deallocate 4096 half_full).1 ≡ elsewhere 4096 (live half_full))
efi_deallocate_lem_example = efi_deallocate_lem half_full 4096 (omega arith)

efi_deallocate-efi_allocate_example :
    ((efi_allocate (some 8192) 5000 half_full).0 ≡ 8192)
    × ((efi_deallocate 8192 (efi_allocate (some 8192) 5000 half_full).1).0
        ≡ block 8192 (num_pages 5000) ∷ [])
    × (live (efi_deallocate 8192 (efi_allocate (some 8192) 5000 half_full).1).1 ≡ live half_full)
unfolding is_full
efi_deallocate-efi_allocate_example =
    efi_deallocate-efi_allocate half_full 8192 5000 (omega arith) (omega arith, (omega arith, tt))
      refl

-- A block given to a table that holds another, and handed back.
run :
    Reach half_full
      (efi_deallocate 8192 (efi_allocate (some 8192) 5000 half_full).1).1
      (gives half_full (some 8192) 5000 ++ [])
      ((efi_deallocate 8192 (efi_allocate (some 8192) 5000 half_full).1).0 ++ [])
run = deallocate 8192 (omega arith) (allocate (some 8192) 5000 (λ e. cc) start)

Reach-Perm_example :
    Perm
      (live (efi_deallocate 8192 (efi_allocate (some 8192) 5000 half_full).1).1
        ++ ((efi_deallocate 8192 (efi_allocate (some 8192) 5000 half_full).1).0 ++ []))
      ((gives half_full (some 8192) 5000 ++ []) ++ live half_full)
Reach-Perm_example = Reach-Perm run
