-- ===== src/Loader/Start/Search.antt =====
-- The search for a file over the volumes that were opened.
use hypervi.Base.{
  ℕ, zero, suc, ◌+◌, ap, ◌<◌, ◌≤◌, ◌≡◌, ◌≢◌, inl, inr, refl, ◌∙◌, arith, true, false, List, [], ◌∷◌,
  Option, none, some, ◌==◌, ◌||◌, ◌&&◌, if◌then◌else◌, ltb, leb, length, All, Bool-cases,
}
use hypervi.Loader.Allocator.{out_address}
use hypervi.Loader.Start.Volumes.{
  FsState, Volume, Opened, volumes_max, fs_roots_max, label_max, copy_label, set_root, open_volumes,
  efi_fs_init, find_from, efi_fs_find_file,
}

-- The search of a path, volume by volume: the file of the first that opens it, else what was
-- stored last. It faults at a volume without the protocol, and behind the first 16.
abbrev pub search : (open_root : ℕ → Opened) → List Volume → (i output : ℕ) → Option ℕ
search open_root [] i output = some output
search open_root (volume ∷ l) i output =
    let (stores, success) = open_root (out_address volume.root 0) in
    let opened = out_address stores output in
    let rest = search open_root l (suc i) opened in
    if ltb i volumes_max && volume.supported then (if success then some opened else rest) else none

-- Where the handle has the protocol, `open_volume` stores a root, and the label ends within the
-- array that it is copied to.
abbrev pub IsVolume : Volume → Type 0
IsVolume volume =
    volume.supported ≡ true
    → (out_address volume.root 0 ≢ 0) × ((k : ℕ) × (k < label_max) × (volume.label k ≡ 0))

-- Then the copy ends.
copy_label-ends :
    (left i k : ℕ) (label : ℕ → ℕ)
    → i ≤ k
    → k < i + left
    → label k ≡ 0
    → (length : ℕ) × (copy_label left i label ≡ some length)
unfolding copy_label
copy_label-ends zero i k label from to end = absurd (omega arith)
copy_label-ends (suc left) i k label from to end = elim (Bool-cases (label i == 0)) [
  | inl here ↦ (i, rw here refl)
  | inr more ↦
      let ne : i ≢ k = λ e. zero_here i k label e end more in
      let (length, ran) = copy_label-ends left (suc i) k label (omega arith) (omega arith) end in
      (length, rw more ran)
]
  where
    zero_here : (i k : ℕ) (label : ℕ → ℕ) → i ≡ k → label k ≡ 0 → (label i == 0) ≡ false → ⊥
    zero_here i k label e end more = let z : label i ≡ 0 = ap label e ∙ end in ground arith

-- The roots from `i` on are still null.
abbrev Null : (i : ℕ) → (ℕ → ℕ) → Type 0
Null i roots = (j : ℕ) → i ≤ j → roots j ≡ 0

set_root-Null : (i root : ℕ) (roots : ℕ → ℕ) → Null i roots → Null (suc i) (set_root i root roots)
set_root-Null i root roots null j from =
    let other : (j == i) ≡ false = ground arith in rw other (null j (omega arith))

find_from-ends :
    (open_root : ℕ → Opened) (roots : ℕ → ℕ) (i output : ℕ)
    → find_from open_root roots 0 i output ≡ some output
unfolding find_from
find_from-ends open_root roots i output = refl

-- A null root ends the search, any other is asked.
find_from-null :
    (open_root : ℕ → Opened) (roots : ℕ → ℕ) (left i output : ℕ)
    → roots i ≡ 0
    → find_from open_root roots (suc left) i output ≡ none
unfolding find_from
find_from-null open_root roots left i output null =
    let faults : (leb fs_roots_max i || roots i == 0) ≡ true = ground arith in rw faults refl

find_from-root :
    (open_root : ℕ → Opened) (roots : ℕ → ℕ) (left i output root : ℕ)
    → i < volumes_max
    → roots i ≡ root
    → root ≢ 0
    → find_from open_root roots (suc left) i output ≡ (
        let opened = out_address (open_root root).0 output in
        let rest = find_from open_root roots left (suc i) opened in
        if (open_root root).1 then some opened else rest)
unfolding find_from
find_from-root open_root roots left i output root below this not_null =
    let asked : (leb fs_roots_max i || root == 0) ≡ false = ground arith in rw (this, asked) refl

-- The loop opens every volume, and leaves the roots before the first as they were.
open_volumes_lem :
    (l : List Volume) (i : ℕ) (roots : ℕ → ℕ)
    → All IsVolume l
    → Null i roots
    → (r : ℕ → ℕ) × (open_volumes l i roots ≡ some r)
      × ((j : ℕ) → j < i → r j ≡ roots j)
      × ((open_root : ℕ → Opened) (output : ℕ)
          → find_from open_root r (length l) i output ≡ search open_root l i output)
unfolding open_volumes
open_volumes_lem [] i roots ok null =
    (roots, refl, λ j below. refl, λ o output. find_from-ends o roots i output)
open_volumes_lem (volume ∷ l) i roots ok null = elim (Bool-cases (ltb i volumes_max)) [
  | inr behind ↦ rw behind (
    roots,
    refl,
    λ j below. refl,
    λ o output. find_from-null o roots (length l) i output (null i (omega arith)),
  )
  | inl early ↦ elim (Bool-cases volume.supported) [
    | inl supported ↦
        let root = out_address volume.root 0 in
        let not_null : (root == 0) ≡ false = let h = (ok.0 supported).0 in ground arith in
        let (r, ran, below, same) =
          open_volumes_lem l (suc i) (set_root i root roots) ok.1
            (set_root-Null i root roots null) in
        let here : r i ≡ root =
          below i (omega arith) ∙ (let e : (i == i) ≡ true = ground arith in rw e refl) in
        let (k, within, ends) = (ok.0 supported).1 in
        let (copied, copies) =
          copy_label-ends label_max 0 k volume.label (omega arith) (omega arith) ends in
        rw (early, supported, null i (omega arith), not_null, copies)
          (
            r,
            ran,
            λ j h. below j (omega arith) ∙ (let e : (j == i) ≡ false = ground arith in rw e refl),
            λ o output.
                find_from-root o r (length l) i output root (ground arith) here (ok.0 supported).0
                ∙ rw (same o (out_address (o root).0 output)) refl,
          )
    | inr not_supported ↦
        let (r, ran, below, same) =
          open_volumes_lem l (suc i) roots ok.1 (λ j from. null j (omega arith)) in
        rw (early, not_supported)
          (
            r,
            ran,
            λ j h. below j (omega arith),
            λ o output.
                find_from-null o r (length l) i output
                  (below i (omega arith) ∙ null i (omega arith)),
          )
  ]
]

-- With handles whose volumes open and have labels that end within 512 characters, `efi_fs_init` ends, and `efi_fs_find_file` behind it searches
-- the volumes in their order: it returns the file of the first that opens the path, else what was
-- stored last. It faults at a volume whose handle lacks the protocol, and behind the first 16.
pub efi_fs_find_file_lem :
    (open_root : ℕ → Opened) (volumes : List Volume) (s : FsState)
    → All IsVolume volumes
    → ((j : ℕ) → s.fs_roots j ≡ 0)
    → (s' : FsState) × (efi_fs_init (some volumes) s ≡ some s')
      × (efi_fs_find_file open_root s' ≡ search open_root volumes 0 0)
unfolding efi_fs_init efi_fs_find_file
efi_fs_find_file_lem open_root volumes s ok null =
    let (r, ran, below, same) = open_volumes_lem volumes 0 s.fs_roots ok (λ j from. null j) in
    rw ran (_, refl, same open_root 0)
