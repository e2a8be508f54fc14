-- ===== src/Loader/Allocator.antt =====
-- The allocator of loader/efi/allocator.cc. The table is a list of `allocations_max` entries, and
-- a loop over its indices is a recursion on it. What `allocate_pages` of the firmware stores is an
-- argument: `none` where it fails and stores nothing.
pub mod Live
pub mod Reach
use hypervi.Base.{
  ℕ, zero, suc, ◌+◌, ◌-◌, ◌/◌, ◌^◌, Bool, List, [], ◌∷◌, Option, none, some, ◌==◌, ◌/=◌,
  if◌then◌else◌, u64, get_or,
}

abbrev pub allocations_max : ℕ
allocations_max = 4096

abbrev pub page_size : ℕ
page_size = 4096

-- `NUM_PAGES` of freestanding/efi/core.h, in 64 bits.
unfoldable pub num_pages : ℕ → ℕ
num_pages y = u64 (y + page_size - 1) / page_size

-- `efi_allocation_entry`, 16 bytes.
pub record AllocationEntry : Type 0 where
  pub address : ℕ
  pub pages : ℕ

abbrev pub Table : Type 0
Table = List AllocationEntry

abbrev pub free_entry : AllocationEntry
free_entry = record { address = 0; pages = 0 }

-- `_stosb` over `bytes` bytes of the table: the entries that lie in them wholly.
unfoldable pub clear : (entries : ℕ) → Table → Table
clear zero t = t
clear (suc n) [] = []
clear (suc n) (entry ∷ t) = free_entry ∷ clear n t

-- `efi_allocator_init`, over the memory that the firmware gives: `allocations_max` bytes are
-- cleared.
unfoldable pub efi_allocator_init : (fresh : Option Table) → Option Table
unfolding clear
efi_allocator_init none = none
efi_allocator_init (some t) = some (clear (allocations_max / 16) t)

-- What the out parameter holds after the call.
abbrev pub out_address : Option ℕ → ℕ → ℕ
out_address none old = old
out_address (some a) old = a

-- The first entry without an address is filled; `none` where there is none.
unfoldable pub fill_first : (answer : Option ℕ) (pages : ℕ) → Table → Option (ℕ × Table)
fill_first answer pages [] = none
fill_first answer pages (entry ∷ t) =
    let later = fill_first answer pages t in
    if entry.address /= 0
    then elim later [ none ↦ none | some (a, t') ↦ some (a, entry ∷ t') ]
    else (let address = out_address answer entry.address in
        some (address, record { address = address; pages = pages } ∷ t))

-- What the loop returned, or nullptr behind it.
abbrev pub or_null : Table → Option (ℕ × Table) → ℕ × Table
or_null t none = (0, t)
or_null t (some r) = r

-- `efi_allocate`: the address returned, and the table; 0 is nullptr.
unfoldable pub efi_allocate : (answer : Option ℕ) (size : ℕ) → Table → ℕ × Table
efi_allocate answer size t = or_null t (fill_first answer (num_pages size) t)

-- `efi_deallocate`: the blocks handed to `free_pages`, in order, and the table.
unfoldable pub efi_deallocate : (address : ℕ) → Table → Table × Table
efi_deallocate address [] = ([], [])
efi_deallocate address (entry ∷ t) =
    let (freed, t') = efi_deallocate address t in
    if entry.address == address then (entry ∷ freed, free_entry ∷ t') else (freed, entry ∷ t')

-- The operators new and delete, each for one object or an array.
abbrev pub operator_new : (answer : Option ℕ) (size : ℕ) → Table → ℕ × Table
operator_new answer size t = efi_allocate answer size t

abbrev pub operator_delete : (instance_ptr : ℕ) → Table → Table × Table
operator_delete instance_ptr t = efi_deallocate instance_ptr t
