-- ===== src/Loader/Start/Volumes.antt =====
-- The volumes of loader/efi/fs.cc: `efi_fs_init` and `efi_fs_find_file`. What the firmware answers
-- is an argument; 0 is nullptr.
use hypervi.Base.{
  ℕ, zero, suc, Bool, List, [], ◌∷◌, Option, none, some, ◌>>=◌, ◌==◌, ◌||◌, if◌then◌else◌, ltb, leb,
  length,
}
use hypervi.Loader.Allocator.{out_address}

-- `fs_roots` and `fs_root_count`.
pub record FsState : Type 0 where
  pub fs_roots : ℕ → ℕ
  pub fs_root_count : ℕ

-- The length of `fs_roots`, and how many volumes `efi_fs_init` opens.
abbrev pub fs_roots_max : ℕ
fs_roots_max = 64

abbrev pub volumes_max : ℕ
volumes_max = 0x10

-- Whether `handle_protocol` succeeds for a handle, what `open_volume` stores, if anything, and the
-- characters that `label` holds behind `get_info`: those of the stack where it fails.
pub record Volume : Type 0 where
  pub supported : Bool
  pub root : Option ℕ
  pub label : ℕ → ℕ

abbrev pub set_root : (i root : ℕ) → (ℕ → ℕ) → ℕ → ℕ
set_root i root roots j = if j == i then root else roots j

-- The length of `label_c`.
abbrev pub label_max : ℕ
label_max = 512

-- `efi_string_to_cstring` into `label_c`, from character `i` on, with `left` bytes left: the length of
-- the copy. `none` is a write behind `label_c`.
unfoldable pub copy_label : (left i : ℕ) (label : ℕ → ℕ) → Option ℕ
copy_label zero i label = none
copy_label (suc left) i label =
    let rest = copy_label left (suc i) label in if label i == 0 then some i else rest

-- The loop of `efi_fs_init`, from volume `i` on: `none` is a call of `get_info` behind a null
-- pointer, or a label that does not end within `label_c`.
unfoldable pub open_volumes : List Volume → (i : ℕ) → (roots : ℕ → ℕ) → Option (ℕ → ℕ)
unfolding copy_label
open_volumes [] i roots = some roots
open_volumes (volume ∷ l) i roots =
    let root = out_address volume.root (roots i) in
    let opened = (do
      length ← copy_label label_max 0 volume.label
      open_volumes l (suc i) (set_root i root roots)) in
    let passed = open_volumes l (suc i) roots in
    if ltb i volumes_max
    then (if volume.supported then (if root == 0 then none else opened) else passed)
    else some roots

-- `located` is what `locate_handle_buffer` gives, `none` where it fails.
unfoldable pub efi_fs_init : (located : Option (List Volume)) → FsState → Option FsState
efi_fs_init none s = some s
efi_fs_init (some volumes) s = do
  roots ← open_volumes volumes 0 s.fs_roots
  some (record { fs_roots = roots; fs_root_count = length volumes })

-- What `open` of a root stores, if anything, and whether it succeeds.
abbrev pub Opened : Type 0
Opened = Option ℕ × Bool

-- The loop of `efi_fs_find_file`, from root `i` on: `none` is a call behind a null pointer, or a
-- read past the end of `fs_roots`.
unfoldable pub find_from : (open_root : ℕ → Opened) (roots : ℕ → ℕ) (left i output : ℕ) → Option ℕ
find_from open_root roots zero i output = some output
find_from open_root roots (suc left) i output =
    let (stores, success) = open_root (roots i) in
    let opened = out_address stores output in
    let rest = find_from open_root roots left (suc i) opened in
    if leb fs_roots_max i || roots i == 0 then none else if success then some opened else rest

-- `open_root` is the firmware's `open` of the path that is looked for.
unfoldable pub efi_fs_find_file : (open_root : ℕ → Opened) → FsState → Option ℕ
efi_fs_find_file open_root s = find_from open_root s.fs_roots s.fs_root_count 0 0
