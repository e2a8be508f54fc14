-- ===== src/Freestanding/ElfMapper.antt =====
-- The class `elf_mapper` of freestanding/elf_mapper.cc, over memory as bytes: `map_to` and what it
-- calls. `none` is a read behind a null pointer, or a comparison of strings that needs more than
-- `fuel` rounds. Sums of pointers are not cut to 64 bits: past the end of memory they have no
-- meaning. The counts of segments and sections are read before a loop and not in each round: no
-- theorem is about a target that overlaps the file.
pub mod Size
pub mod Image
pub mod Rounds
pub mod Segments
pub mod Imports
pub mod Relocations
pub mod Linked
pub mod Searches
pub mod Slots
pub mod Map
use hypervi.Base.{
  ℕ, zero, suc, ◌+◌, ◌*◌, ◌/◌, Bool, List, [], ◌∷◌, Option, none, some, ◌>>=◌, ◌==◌, ◌/=◌, ◌||◌,
  if◌then◌else◌, truth, ltb, u64, bit_and, ℤ, pos, negsuc, for_range, false, true,
}
use hypervi.Freestanding.Memory.{Bytes, movsb, stosb, read_le, write_le}
use hypervi.Freestanding.Libc.{strcmp}
use hypervi.Freestanding.Elf.{
  Ehdr, Phdr, Shdr, Sym, Rela, read_ehdr, read_phdr, read_shdr, read_sym, read_rela, sizeof_ehdr,
  sizeof_phdr, sizeof_shdr, sizeof_sym, sizeof_rela, strtab, rela, dynsym, x86_64_glob_dat,
  x86_64_junp_slot, x86_64_relative, pt_load, elf64_r_get_type, elf64_r_get_sym,
}

-- `elf_import`: the address of a name, and what it stands for.
pub record ElfImport : Type 0 where
  pub name : ℕ
  pub address : ℕ

-- The fields that the constructor sets; `m_ehdr` is `m_file`.
pub record ElfMapper : Type 0 where
  pub m_file : ℕ
  pub m_imports : List ElfImport
  pub m_phdrs : ℕ
  pub m_shdrs : ℕ

-- The constructor; the count of imports is the length of the list.
unfoldable pub elf_mapper : (elf_file : ℕ) (imports : List ElfImport) → Bytes → ElfMapper
unfolding read_ehdr
elf_mapper elf_file imports m = record {
  m_file = elf_file;
  m_imports = imports;
  m_phdrs = elf_file + (read_ehdr elf_file m).e_phoff;
  m_shdrs = elf_file + (read_ehdr elf_file m).e_shoff;
}

-- The addresses of the string literals `".dynstr"` and `".got"`; and what is read through
-- `dynstr_section`, by the section that it was set to: it points at a variable of the body of a loop
-- that has ended, so that the language leaves open what is there.
pub record Literals : Type 0 where
  pub dynstr : ℕ
  pub got : ℕ
  pub dead_section : Shdr → Shdr

-- `*dynstr_section` behind the loop.
unfoldable pub read_dead : (dead_section : Shdr → Shdr) → Option Shdr → Option Shdr
read_dead dead_section none = none
read_dead dead_section (some section) = some (dead_section section)

-- `strcmp(a, b) == 0`
unfoldable pub same_string : (fuel a b : ℕ) → Bytes → Option Bool
unfolding strcmp
same_string fuel a b m = do
  r ← strcmp fuel a b m
  some (elim r [ pos d ↦ d == 0 | negsuc d ↦ false ])

module _ (e : ElfMapper) where
  abbrev pub ehdr : Bytes → Ehdr
  ehdr m = read_ehdr e.m_file m

  abbrev pub phdr : (i : ℕ) → Bytes → Phdr
  phdr i m = read_phdr (e.m_phdrs + sizeof_phdr * i) m

  abbrev pub shdr : (i : ℕ) → Bytes → Shdr
  shdr i m = read_shdr (e.m_shdrs + sizeof_shdr * i) m

  unfoldable pub get_mapped_size : Bytes → ℕ
  get_mapped_size m =
      for_range (ehdr m).e_phnum 0
        (λ i result.
          let off = u64 ((phdr i m).p_vaddr + (phdr i m).p_memsz) in
          if ltb result off then off else result)
        0

  -- One round of the loop over the segments. The test takes bit 0 of the type.
  unfoldable pub map_segment : (target_mem i : ℕ) → Bytes → Bytes
  map_segment target_mem i m =
      let section = phdr i m in
      let target = target_mem + section.p_vaddr in
      if truth (bit_and section.p_type pt_load)
      then movsb target (e.m_file + section.p_offset) section.p_filesz m
      else if ltb 0 section.p_memsz
      then stosb target 0 section.p_memsz m
      else m

  -- The first part of `map_to`: the header and the segments.
  unfoldable pub map_segments : (target_mem : ℕ) → Bytes → Bytes
  map_segments target_mem m =
      let m' = movsb target_mem e.m_file sizeof_ehdr m in
      for_range (ehdr m').e_phnum 0 (map_segment target_mem) m'

  -- `m_shdrs[m_ehdr->e_shstrndx]`
  unfoldable pub string_section : Bytes → Shdr
  string_section m = shdr (ehdr m).e_shstrndx m

  -- `m_file + string_section.sh_offset + section.sh_name`
  unfoldable pub section_name : (strings section : Shdr) → ℕ
  section_name strings section = e.m_file + strings.sh_offset + section.sh_name

  -- The loop that looks for `.dynstr`, from section i on: the section at whose copy
  -- `dynstr_section` points when the loop ends, or none for null.
  unfoldable pub find_dynstr :
      (fuel literal : ℕ) (strings : Shdr) (left i : ℕ) → Bytes → Option (Option Shdr)
  find_dynstr fuel literal strings zero i m = some none
  find_dynstr fuel literal strings (suc left) i m =
      let section = shdr i m in
      let rest = find_dynstr fuel literal strings left (suc i) m in
      if section.sh_type /= strtab then rest else (do
        same ← same_string fuel (section_name strings section) literal m
        if same then some (some section) else rest)

  -- The loop that looks for the dynamic symbols: their address, or null.
  unfoldable pub find_dynsyms : (left i : ℕ) → Bytes → Option ℕ
  find_dynsyms zero i m = none
  find_dynsyms (suc left) i m =
      let section = shdr i m in
      let rest = find_dynsyms left (suc i) m in
      if section.sh_type /= dynsym then rest else some (e.m_file + section.sh_offset)

  -- `resolve_import`: null is 0.
  unfoldable pub resolve_import : (fuel : ℕ) → List ElfImport → (name : ℕ) → Bytes → Option ℕ
  resolve_import fuel [] name m = some 0
  resolve_import fuel (x ∷ rest) name m =
      let later = resolve_import fuel rest name m in
      (do same ← same_string fuel x.name name m; if same then some x.address else later)

  -- Every entry of the global offset table, moved by the base.
  unfoldable pub relocate_got : (target_mem : ℕ) → Shdr → Bytes → Bytes
  relocate_got target_mem section m =
      let got = target_mem + section.sh_addr in
      for_range (section.sh_size / 8) 0
        (λ i m. write_le 8 (got + 8 * i) (u64 (target_mem + read_le 8 (got + 8 * i) m)) m) m

  -- One relocation. `i` is the section's index, which the source puts where the relocation's
  -- belongs when it reads the addend.
  unfoldable pub relocate :
      (fuel target_mem : ℕ) (dynstr : Shdr) (dynsyms relocs i reli : ℕ) → Bytes → Option Bytes
  relocate fuel target_mem dynstr dynsyms relocs i reli m =
      let reloc = read_rela (relocs + sizeof_rela * reli) m in
      let type = elf64_r_get_type reloc.r_info in
      let sym = read_sym (dynsyms + sizeof_sym * elf64_r_get_sym reloc.r_info) m in
      let reloc_name = e.m_file + dynstr.sh_offset + sym.st_name in
      let reloc_ptr = target_mem + reloc.r_offset in
      if type == x86_64_relative
      then some (write_le 8 reloc_ptr (u64 (read_le 8 reloc_ptr m + target_mem)) m)
      else if type == x86_64_junp_slot || type == x86_64_glob_dat
      then (if sym.st_value == 0
          then (do
            address ← resolve_import fuel e.m_imports reloc_name m
            some (write_le 8 reloc_ptr address m))
          else let addend = (read_rela (relocs + sizeof_rela * i) m).r_addend in
            some (write_le 8 reloc_ptr (u64 (sym.st_value + addend)) m))
      else some m

  -- The loop over the relocations of one section, from number `reli` on.
  unfoldable pub relocate_from :
      (fuel target_mem : ℕ) (dynstr : Shdr) (dynsyms relocs i left reli : ℕ) → Bytes → Option Bytes
  relocate_from fuel target_mem dynstr dynsyms relocs i zero reli m = some m
  relocate_from fuel target_mem dynstr dynsyms relocs i (suc left) reli m = do
    m' ← relocate fuel target_mem dynstr dynsyms relocs i reli m
    relocate_from fuel target_mem dynstr dynsyms relocs i left (suc reli) m'

  -- One section of relocations. With none in it no pointer is read.
  unfoldable pub relocate_section :
      (fuel target_mem : ℕ) (dynstr : Option Shdr) (dynsyms : Option ℕ) (i : ℕ)
      → Shdr
      → Bytes
      → Option Bytes
  relocate_section fuel target_mem dynstr dynsyms i section m =
      let count = section.sh_size / sizeof_rela in
      if count == 0 then some m else (do
        strings ← dynstr
        symbols ← dynsyms
        relocate_from fuel target_mem strings symbols (e.m_file + section.sh_offset) i count 0 m)

  -- The last loop of `map_to`, from section i on.
  unfoldable pub relocate_all :
      (fuel target_mem : ℕ) (lit : Literals) (strings : Shdr) (dynstr : Option Shdr)
      → (dynsyms : Option ℕ) → (left i : ℕ) → Bytes
      → Option Bytes
  relocate_all fuel target_mem lit strings dynstr dynsyms zero i m = some m
  relocate_all fuel target_mem lit strings dynstr dynsyms (suc left) i m =
      let section = shdr i m in
      (do
        is_got ← same_string fuel (section_name strings section) lit.got m
        let moved = (if is_got then relocate_got target_mem section m else m)
        m' ←
            if section.sh_type == rela
            then relocate_section fuel target_mem dynstr dynsyms i section moved
            else some moved
        relocate_all fuel target_mem lit strings dynstr dynsyms left (suc i) m')

  -- `map_to`. The search for the static symbols is left out: nothing uses what it finds.
  unfoldable pub map_to : (fuel : ℕ) (lit : Literals) (target_mem : ℕ) → Bytes → Option Bytes
  unfolding read_dead
  map_to fuel lit target_mem m = do
    let m' = map_segments target_mem m
    let strings = string_section m'
    found ← find_dynstr fuel lit.dynstr strings (ehdr m').e_shnum 0 m'
    let dynstr = read_dead lit.dead_section found
    let dynsyms = find_dynsyms (ehdr m').e_shnum 0 m'
    relocate_all fuel target_mem lit strings dynstr dynsyms (ehdr m').e_shnum 0 m'

  unfoldable pub get_entrypoint : (target_mem : ℕ) → Bytes → ℕ
  get_entrypoint target_mem m = target_mem + (ehdr m).e_entry

  unfoldable pub get_string : (offset : ℕ) → Bytes → ℕ
  get_string offset m = e.m_file + (string_section m).sh_offset + offset

  -- `get_section_by_name`: 0 is null.
  unfoldable pub get_section_from : (fuel target_name left i : ℕ) → Bytes → Option ℕ
  get_section_from fuel target_name zero i m = some 0
  get_section_from fuel target_name (suc left) i m =
      let section = shdr i m in
      let rest = get_section_from fuel target_name left (suc i) m in
      (do
        same ← same_string fuel (get_string section.sh_name m) target_name m
        if same then some (e.m_file + section.sh_offset) else rest)

  unfoldable pub get_section_by_name : (fuel target_name : ℕ) → Bytes → Option ℕ
  get_section_by_name fuel target_name m = get_section_from fuel target_name (ehdr m).e_shnum 0 m
