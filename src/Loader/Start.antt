-- ===== src/Loader/Start.antt =====
-- Finding, reading and mapping the file of the hypervisor: loader/efi/loader.cc, fs.cc (Volumes)
-- and string_utils.cc. What the firmware answers is an argument; 0 is nullptr.
pub mod Volumes
pub mod Search
pub mod Exports
pub mod Pages
pub mod Mapping
use hypervi.Base.{
  ℕ, zero, suc, ◌+◌, Bool, List, [], ◌∷◌, Option, none, some, ◌>>=◌, ◌==◌, if◌then◌else◌, u8,
}
use hypervi.Freestanding.Memory.{Bytes, set_byte, read_le}
use hypervi.Freestanding.ElfMapper.{
  ElfImport, ElfMapper, Literals, elf_mapper, get_mapped_size, map_to, get_entrypoint,
}
use hypervi.Loader.Allocator.{Table, num_pages, out_address, operator_new}
use hypervi.Loader.Start.Volumes.{FsState, Opened, efi_fs_find_file}

-- `efi_string_to_cstring`, on fuel: `none` means that it still runs.
unfoldable pub efi_string_to_cstring : (fuel source dest : ℕ) → Bytes → Option Bytes
efi_string_to_cstring zero source dest m = none
efi_string_to_cstring (suc fuel) source dest m =
    let rest =
      efi_string_to_cstring fuel (source + 2) (dest + 1)
        (set_byte dest (u8 (read_le 2 source m)) m) in
    if read_le 2 source m == 0 then some (set_byte dest 0 m) else rest

-- The globals of loader.cc, and what it shares with the rest.
pub record LoaderState : Type 0 where
  pub visor_file : ℕ
  pub visor_real : ℕ
  pub visor_mapped : ℕ
  pub hypervisor_main : ℕ
  pub memory : Bytes
  pub allocations : Table

-- The part of `efi_loader_init` behind the search.
abbrev pub read_file :
    (info : Option ℕ) (answer : Option ℕ) (read : (buffer size : ℕ) → Bytes → Bytes)
    → LoaderState
    → LoaderState
read_file none answer read s = s
read_file (some file_size) answer read s =
    let (visor_real, allocations) = operator_new answer file_size s.allocations in
    record s {
      visor_real = visor_real;
      allocations = allocations;
      memory = read visor_real file_size s.memory;
    }

-- `open_root` opens the file's path on a root, `info` is the size of the file that `get_info` gives,
-- and `read` is the firmware's, of a buffer and a size, whose status is only logged. `none` is a
-- fault of the search.
unfoldable pub efi_loader_init :
    (open_root : ℕ → Opened) (fs : FsState) (info : Option ℕ) (answer : Option ℕ)
    → (read : (buffer size : ℕ) → Bytes → Bytes) → LoaderState
    → Option LoaderState
efi_loader_init open_root fs info answer read s = do
  visor_file ← efi_fs_find_file open_root fs
  let found : LoaderState = record s { visor_file = visor_file }
  if visor_file == 0 then some found else some (read_file info answer read found)

-- `efi_loader_imports`, by the addresses of its names and functions.
abbrev pub efi_loader_imports : (name function : ℕ → ℕ) → List ElfImport
efi_loader_imports name function =
    record { name = name 0; address = function 0 }
    ∷ record { name = name 1; address = function 1 }
    ∷ record { name = name 2; address = function 2 }
    ∷ record { name = name 3; address = function 3 }
    ∷ record { name = name 4; address = function 4 }
    ∷ record { name = name 5; address = function 5 }
    ∷ []

-- The pages that `efi_loader_map` asks for.
unfoldable pub loader_pages : ElfMapper → Bytes → ℕ
loader_pages mapper m = num_pages (get_mapped_size mapper m)

-- `efi_loader_map` up to the call of the hypervisor: the pages asked for, and the state. `none` is
-- a fault of `map_to`, or too little fuel for its strings.
unfoldable pub efi_loader_map :
    (fuel : ℕ) (lit : Literals) (name function : ℕ → ℕ) (answer : Option ℕ)
    → LoaderState
    → Option (ℕ × LoaderState)
efi_loader_map fuel lit name function answer s =
    let mapper = elf_mapper s.visor_real (efi_loader_imports name function) s.memory in
    let visor_mapped = out_address answer s.visor_mapped in
    (do
      memory ← map_to mapper fuel lit visor_mapped s.memory
      some (
        loader_pages mapper s.memory,
        record s {
          visor_mapped = visor_mapped;
          hypervisor_main = get_entrypoint mapper visor_mapped memory;
          memory = memory;
        },
      ))
