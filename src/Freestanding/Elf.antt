-- ===== src/Freestanding/Elf.antt =====
-- The structures of freestanding/elf.h: the fields that the mapper reads, each at its offset.
use hypervi.Base.{ℕ, ◌+◌, u32, ◌>>>◌}
use hypervi.Freestanding.Memory.{Bytes, read_le}

-- `elf_section_type`
abbrev pub strtab : ℕ
strtab = 3

abbrev pub rela : ℕ
rela = 4

abbrev pub dynsym : ℕ
dynsym = 11

-- `elf64_r_type`
abbrev pub x86_64_glob_dat : ℕ
x86_64_glob_dat = 6

abbrev pub x86_64_junp_slot : ℕ
x86_64_junp_slot = 7

abbrev pub x86_64_relative : ℕ
x86_64_relative = 8

abbrev pub pt_load : ℕ
pt_load = 1

-- The sizes of the structures.
abbrev pub sizeof_ehdr : ℕ
sizeof_ehdr = 64

abbrev pub sizeof_phdr : ℕ
sizeof_phdr = 56

abbrev pub sizeof_shdr : ℕ
sizeof_shdr = 64

abbrev pub sizeof_sym : ℕ
sizeof_sym = 24

abbrev pub sizeof_rela : ℕ
sizeof_rela = 24

-- `elf64_ehdr`
pub record Ehdr : Type 0 where
  pub e_entry : ℕ
  pub e_phoff : ℕ
  pub e_shoff : ℕ
  pub e_phnum : ℕ
  pub e_shnum : ℕ
  pub e_shstrndx : ℕ

unfoldable pub read_ehdr : (p : ℕ) → Bytes → Ehdr
unfolding read_le
read_ehdr p m = record {
  e_entry = read_le 8 (p + 24) m;
  e_phoff = read_le 8 (p + 32) m;
  e_shoff = read_le 8 (p + 40) m;
  e_phnum = read_le 2 (p + 56) m;
  e_shnum = read_le 2 (p + 60) m;
  e_shstrndx = read_le 2 (p + 62) m;
}

-- `elf64_phdr`
pub record Phdr : Type 0 where
  pub p_type : ℕ
  pub p_offset : ℕ
  pub p_vaddr : ℕ
  pub p_filesz : ℕ
  pub p_memsz : ℕ

unfoldable pub read_phdr : (p : ℕ) → Bytes → Phdr
unfolding read_le
read_phdr p m = record {
  p_type = read_le 4 p m;
  p_offset = read_le 8 (p + 8) m;
  p_vaddr = read_le 8 (p + 16) m;
  p_filesz = read_le 8 (p + 32) m;
  p_memsz = read_le 8 (p + 40) m;
}

-- `elf64_shdr`
pub record Shdr : Type 0 where
  pub sh_name : ℕ
  pub sh_type : ℕ
  pub sh_addr : ℕ
  pub sh_offset : ℕ
  pub sh_size : ℕ

unfoldable pub read_shdr : (p : ℕ) → Bytes → Shdr
unfolding read_le
read_shdr p m = record {
  sh_name = read_le 4 p m;
  sh_type = read_le 4 (p + 4) m;
  sh_addr = read_le 8 (p + 16) m;
  sh_offset = read_le 8 (p + 24) m;
  sh_size = read_le 8 (p + 32) m;
}

-- `elf64_sym`
pub record Sym : Type 0 where
  pub st_name : ℕ
  pub st_value : ℕ

unfoldable pub read_sym : (p : ℕ) → Bytes → Sym
unfolding read_le
read_sym p m = record { st_name = read_le 4 p m; st_value = read_le 8 (p + 8) m }

-- `elf64_rela`; the addend is signed, and is added to 64 bits, so its bits serve as they are.
pub record Rela : Type 0 where
  pub r_offset : ℕ
  pub r_info : ℕ
  pub r_addend : ℕ

unfoldable pub read_rela : (p : ℕ) → Bytes → Rela
unfolding read_le
read_rela p m = record {
  r_offset = read_le 8 p m;
  r_info = read_le 8 (p + 8) m;
  r_addend = read_le 8 (p + 16) m;
}

-- `elf64_r_get_type`, a cast to an enumeration of 32 bits, and `elf64_r_get_sym`.
abbrev pub elf64_r_get_type : ℕ → ℕ
elf64_r_get_type x = u32 x

abbrev pub elf64_r_get_sym : ℕ → ℕ
elf64_r_get_sym x = u32 (x >>> 32)
