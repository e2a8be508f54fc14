-- ===== src/Loader/Allocator/Live.antt =====
-- The blocks that a table holds, and what the operations do to them.
use mathlib.Core.List.{Perm}
use mathlib.Core.List.Perm
use hypervi.Base.{
  ℕ, ◌≡◌, ◌≢◌, inl, inr, refl, sym, ap, ◌∙◌, arith, Bool, true, false, List, [], ◌∷◌, Option, none,
  some, ◌==◌, ◌/=◌, if◌then◌else◌, Bool-cases, Option-cases, All,
}
use hypervi.Loader.Allocator.{
  AllocationEntry, Table, fill_first, out_address, or_null, num_pages, efi_allocate, efi_deallocate,
}

-- The entries in use.
unfoldable pub live : Table → List AllocationEntry
live [] = []
live (entry ∷ t) = if entry.address /= 0 then entry ∷ live t else live t

-- Every entry is in use.
unfoldable pub is_full : Table → Bool
is_full [] = true
is_full (entry ∷ t) = if entry.address /= 0 then is_full t else false

abbrev pub block : (address pages : ℕ) → AllocationEntry
block address pages = record { address = address; pages = pages }

-- What becomes of the blocks in use when one of `pages` pages is asked for: the table is full,
-- the firmware gives none, or its block joins those in use.
pub data Filled (t : Table) (pages : ℕ) (answer : Option ℕ) (o : Option (ℕ × Table)) : Type 0 where
  full : is_full t ≡ true → o ≡ none → Filled t pages answer o
  failed :
      (t' : Table)
      → is_full t ≡ false
      → out_address answer 0 ≡ 0
      → o ≡ some (0, t')
      → live t' ≡ live t
      → Filled t pages answer o
  added :
      (a : ℕ) (t' : Table)
      → is_full t ≡ false
      → answer ≡ some a
      → a ≢ 0
      → o ≡ some (a, t')
      → Perm (live t') (block a pages ∷ live t)
      → Filled t pages answer o

used_keeps :
    (entry : AllocationEntry) (t : Table) (pages : ℕ) (answer : Option ℕ)
    → (entry.address /= 0) ≡ true
    → Filled t pages answer (fill_first answer pages t)
    → Filled (entry ∷ t) pages answer (fill_first answer pages (entry ∷ t))
unfolding live is_full fill_first
used_keeps entry t pages answer used (full f e) = full (rw used f) (rw (used, e) refl)
used_keeps entry t pages answer used (failed t' f s e l) =
    failed (entry ∷ t') (rw used f) s (rw (used, e) refl) (rw used (ap (λ b. entry ∷ b) l))
used_keeps entry t pages answer used (added a t' f s n e l) =
    added a (entry ∷ t') (rw used f) s n (rw (used, e) refl)
      (rw used (Perm.trans (Perm.cons entry l) (Perm.swap (block a pages) entry (live t))))

free_fills :
    (entry : AllocationEntry) (t : Table) (pages : ℕ) (answer : Option ℕ)
    → (entry.address /= 0) ≡ false
    → Filled (entry ∷ t) pages answer (fill_first answer pages (entry ∷ t))
unfolding live is_full fill_first
free_fills entry t pages none free =
    let zero_address : entry.address ≡ 0 = ground arith in
    failed (block 0 pages ∷ t) (rw free refl) refl (rw (free, zero_address) refl) (rw free refl)
free_fills entry t pages (some a) free = elim (Bool-cases (a /= 0)) [
  | inl some_page ↦
      added a (block a pages ∷ t) (rw free refl) refl (ground arith) (rw free refl)
        (rw (some_page, free) (Perm.refl (block a pages ∷ live t)))
  | inr no_page ↦
      let zero_page : a ≡ 0 = ground arith in
      failed (block a pages ∷ t) (rw free refl) zero_page
        (rw free (ap (λ (x : ℕ). some (x, block a pages ∷ t)) zero_page)) (rw (no_page, free) refl)
]

pub fill_first-Filled :
    (t : Table) (pages : ℕ) (answer : Option ℕ) → Filled t pages answer (fill_first answer pages t)
unfolding is_full fill_first
fill_first-Filled [] pages answer = full refl refl
fill_first-Filled (entry ∷ t) pages answer = elim (Bool-cases (entry.address /= 0)) [
  | inl used ↦ used_keeps entry t pages answer used (fill_first-Filled t pages answer)
  | inr free ↦ free_fills entry t pages answer free
]

-- The same for a call of `efi_allocate` and its result.
pub data Allocated (t : Table) (pages : ℕ) (answer : Option ℕ) (r : ℕ × Table) : Type 0 where
  full : is_full t ≡ true → r ≡ (0, t) → Allocated t pages answer r
  failed :
      is_full t ≡ false
      → out_address answer 0 ≡ 0
      → r.0 ≡ 0
      → live r.1 ≡ live t
      → Allocated t pages answer r
  added :
      (a : ℕ)
      → is_full t ≡ false
      → answer ≡ some a
      → a ≢ 0
      → r.0 ≡ a
      → Perm (live r.1) (block a pages ∷ live t)
      → Allocated t pages answer r

-- `efi_allocate` returns nullptr and keeps the table where it is full; nullptr and the blocks in
-- use where the firmware gives none; else the firmware's address, its block added to those in use.
pub efi_allocate-Allocated :
    (t : Table) (size : ℕ) (answer : Option ℕ)
    → Allocated t (num_pages size) answer (efi_allocate answer size t)
unfolding efi_allocate
efi_allocate-Allocated t size answer = given (fill_first-Filled t (num_pages size) answer)
  where
    given :
        {o : Option (ℕ × Table)}
        → Filled t (num_pages size) answer o
        → Allocated t (num_pages size) answer (or_null t o)
    given (full f e) = Allocated.full f (rw e refl)
    given (failed t' f s e l) = Allocated.failed f s (rw e refl) (rw e l)
    given (added a t' f s n e l) = Allocated.added a f s n (rw e refl) (rw e l)

-- The blocks of a list that stand at an address, and the others.
unfoldable pub at_address : ℕ → List AllocationEntry → List AllocationEntry
at_address a [] = []
at_address a (b ∷ l) = if b.address == a then b ∷ at_address a l else at_address a l

unfoldable pub elsewhere : ℕ → List AllocationEntry → List AllocationEntry
elsewhere a [] = []
elsewhere a (b ∷ l) = if b.address == a then elsewhere a l else b ∷ elsewhere a l

-- For an address that is not null, `efi_deallocate` hands exactly the blocks in use there to the
-- firmware, and the others stay in use.
pub efi_deallocate_lem :
    (t : Table) (a : ℕ)
    → a ≢ 0
    → ((efi_deallocate a t).0 ≡ at_address a (live t))
      × (live (efi_deallocate a t).1 ≡ elsewhere a (live t))
unfolding efi_deallocate live at_address elsewhere
efi_deallocate_lem [] a h = (refl, refl)
efi_deallocate_lem (entry ∷ t) a h = let ih = efi_deallocate_lem t a h in ground (arith, ih)

-- No entry has the address.
abbrev pub Fresh : ℕ → Table → Type 0
Fresh a t = All (λ (b : AllocationEntry). b.address ≢ a) t

efi_deallocate-Fresh : (t : Table) (a : ℕ) → Fresh a t → efi_deallocate a t ≡ ([], t)
unfolding efi_deallocate
efi_deallocate-Fresh [] a h = refl
efi_deallocate-Fresh (entry ∷ t) a h =
    let other : (entry.address == a) ≡ false = ground arith in
    rw (other, efi_deallocate-Fresh t a h.1) refl

filled_back :
    (t : Table) (a pages : ℕ)
    → a ≢ 0
    → Fresh a t
    → is_full t ≡ false
    → (t' : Table) × (fill_first (some a) pages t ≡ some (a, t'))
      × ((efi_deallocate a t').0 ≡ block a pages ∷ [])
      × (live (efi_deallocate a t').1 ≡ live t)
unfolding efi_deallocate fill_first live is_full
filled_back [] a pages h fresh room = cc
filled_back (entry ∷ t) a pages h fresh room = elim (Bool-cases (entry.address /= 0)) [
  | inl used ↦
      let (t', e, freed, kept) = filled_back t a pages h fresh.1 (rw used at room) in
      let other : (entry.address == a) ≡ false = ground arith in
      (entry ∷ t', rw (used, e) refl, rw other freed, rw (other, used) (ap (λ l. entry ∷ l) kept))
  | inr free ↦
      let same : (a == a) ≡ true = ground arith in
      (
        block a pages ∷ t,
        rw free refl,
        rw (same, efi_deallocate-Fresh t a fresh.1) refl,
        rw (same, efi_deallocate-Fresh t a fresh.1, free) refl,
      )
]

-- Where the table has room and the firmware gives a fresh address, `efi_allocate` returns it, and
-- `efi_deallocate` hands back that block alone, with its pages, and leaves the same blocks in use,
-- in the same order.
pub efi_deallocate-efi_allocate :
    (t : Table) (a size : ℕ)
    → a ≢ 0
    → Fresh a t
    → is_full t ≡ false
    → ((efi_allocate (some a) size t).0 ≡ a)
      × ((efi_deallocate a (efi_allocate (some a) size t).1).0 ≡ block a (num_pages size) ∷ [])
      × (live (efi_deallocate a (efi_allocate (some a) size t).1).1 ≡ live t)
unfolding efi_allocate
efi_deallocate-efi_allocate t a size h fresh room =
    let (t', e, freed, kept) = filled_back t a (num_pages size) h fresh room in
    rw e (refl, freed, kept)

-- A block at another address leaves those in use at this one.
fill_first-at_address :
    (t : Table) (a pages : ℕ) (answer : Option ℕ)
    → a ≢ 0
    → out_address answer 0 ≢ a
    → at_address a (live (or_null t (fill_first answer pages t)).1) ≡ at_address a (live t)
unfolding fill_first live at_address
fill_first-at_address [] a pages answer h other = refl
fill_first-at_address (entry ∷ t) a pages answer h other = elim (Bool-cases (entry.address /= 0)) [
  | inr free ↦
      let zero : entry.address ≡ 0 = ground arith in
      let apart : (out_address answer 0 == a) ≡ false = ground arith in
      elim (Bool-cases (out_address answer 0 /= 0)) [
        | inl given ↦ rw (free, zero, given, apart) refl
        | inr none_given ↦ rw (free, zero, none_given) refl
      ]
  | inl used ↦ elim (Option-cases (fill_first answer pages t)) [
    | inl none_left ↦ rw (used, none_left, used) refl
    | inr (r, e) ↦
        let same : at_address a (live r.1) ≡ at_address a (live t) =
          ap (λ (o : Option (ℕ × Table)). at_address a (live (or_null t o).1)) (sym e)
          ∙ fill_first-at_address t a pages answer h other in
        rw (used, e, used, same) refl
  ]
]

pub efi_allocate-at_address :
    (t : Table) (a size : ℕ) (answer : Option ℕ)
    → a ≢ 0
    → out_address answer 0 ≢ a
    → at_address a (live (efi_allocate answer size t).1) ≡ at_address a (live t)
unfolding efi_allocate
efi_allocate-at_address t a size answer = fill_first-at_address t a (num_pages size) answer
