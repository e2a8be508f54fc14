-- ===== src/Loader/Allocator/Reach.antt =====
-- Every state that the allocator reaches: no block is lost, and none is handed back that was not
-- given.
use mathlib.Core.List.{Perm, append_assoc, append-nil, perm_middle}
use mathlib.Core.List.Perm
use mathlib.Core.Option.{some-injective}
use mathlib.Core.Path.{subst}
use hypervi.Base.{
  ℕ, ◌≢◌, inl, inr, sym, ap, List, [], ◌∷◌, ◌++◌, Option, none, some, ◌==◌, if◌then◌else◌,
  Bool-cases,
}
use hypervi.Loader.Allocator.{AllocationEntry, Table, num_pages, efi_allocate, efi_deallocate}
use hypervi.Loader.Allocator.Live.{
  live, is_full, block, at_address, elsewhere, Allocated, efi_allocate-Allocated,
  efi_deallocate_lem,
}

-- What the firmware gives in a call of `efi_allocate`: it is only asked where the table has room.
abbrev pub gives : Table → (answer : Option ℕ) (size : ℕ) → List AllocationEntry
gives t none size = []
gives t (some a) size = if is_full t then [] else block a (num_pages size) ∷ []

-- The tables that calls from `before` on lead to, with the blocks that the firmware gave and those
-- that were handed back to it. A block is never at address 0, and nullptr is never deallocated.
pub data Reach (before : Table) : Table → (given freed : List AllocationEntry) → Type 0 where
  start : Reach before before [] []
  allocate :
      {t : Table} {given freed : List AllocationEntry} (answer : Option ℕ) (size : ℕ)
      → answer ≢ some 0
      → Reach before t given freed
      → Reach before (efi_allocate answer size t).1 (gives t answer size ++ given) freed
  deallocate :
      {t : Table} {given freed : List AllocationEntry} (address : ℕ)
      → address ≢ 0
      → Reach before t given freed
      → Reach before (efi_deallocate address t).1 given ((efi_deallocate address t).0 ++ freed)

-- The blocks at an address and the others make up all.
elsewhere-at_address : (a : ℕ) (l : List AllocationEntry) → Perm (elsewhere a l ++ at_address a l) l
unfolding elsewhere at_address
elsewhere-at_address a [] = Perm.refl []
elsewhere-at_address a (b ∷ l) = elim (Bool-cases (b.address == a)) [
  | inl here ↦ rw here (
      Perm.trans (perm_middle (elsewhere a l) (at_address a l))
        (Perm.cons b (elsewhere-at_address a l)))
  | inr other ↦ rw other (Perm.cons b (elsewhere-at_address a l))
]

allocate_kept :
    (t : Table) (answer : Option ℕ) (size : ℕ)
    → answer ≢ some 0
    → Allocated t (num_pages size) answer (efi_allocate answer size t)
    → Perm (live (efi_allocate answer size t).1) (gives t answer size ++ live t)
allocate_kept t none size some_page (Allocated.full f e) =
    rw (ap (λ (r : ℕ × Table). live r.1) e) (Perm.refl (live t))
allocate_kept t (some a) size some_page (Allocated.full f e) =
    rw (ap (λ (r : ℕ × Table). live r.1) e, f) (Perm.refl (live t))
allocate_kept t none size some_page (Allocated.failed f null e same) = rw same (Perm.refl (live t))
allocate_kept t (some a) size some_page (Allocated.failed f null e same) =
    absurd (some_page (ap some null))
allocate_kept t none size some_page (Allocated.added a f given h e p) = cc
allocate_kept t (some b) size some_page (Allocated.added a f given h e p) = rw f (
    subst
      (λ (x : ℕ). Perm (live (efi_allocate (some b) size t).1) (block x (num_pages size) ∷ live t))
      (sym (some-injective b a given)) p)

-- Whatever the table held before, after any calls of `efi_allocate` and `efi_deallocate`, with the
-- firmware's blocks at other addresses than 0 and no deallocation of nullptr, the blocks in the
-- table and those that were handed back are, up to their order, exactly those that the firmware
-- gave and those that the table held before: no block is lost, overwritten or handed back twice.
pub Reach-Perm :
    {before t : Table} {given freed : List AllocationEntry}
    → Reach before t given freed
    → Perm (live t ++ freed) (given ++ live before)
Reach-Perm {before} start =
    subst (λ (l : List AllocationEntry). Perm l (live before)) (sym (append-nil (live before)))
      (Perm.refl (live before))
Reach-Perm {before} (allocate {t} {given} {freed} answer size some_page r) =
    let ih = Reach-Perm r in
    let new = gives t answer size in
    let now = allocate_kept t answer size some_page (efi_allocate-Allocated t size answer) in
    rw (append_assoc new given (live before)) (
      Perm.trans (Perm.append_right freed now) (
        subst (λ (l : List AllocationEntry). Perm l (new ++ (given ++ live before)))
          (sym (append_assoc new (live t) freed)) (Perm.append_left new ih)))
Reach-Perm {before} (deallocate {t} {given} {freed} a not_null r) =
    let ih = Reach-Perm r in
    let (gone, left) = efi_deallocate_lem t a not_null in
    rw (gone, left)
      (subst (λ (l : List AllocationEntry). Perm l (given ++ live before))
        (append_assoc (elsewhere a (live t)) (at_address a (live t)) freed)
        (Perm.trans (Perm.append_right freed (elsewhere-at_address a (live t))) ih))
