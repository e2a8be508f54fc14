-- ===== src/Freestanding/ElfMapper/Linked.antt =====
-- Files whose sections `map_to` can work through, and what stays readable while it does.
use hypervi.Base.{
  ℕ, ◌+◌, ◌*◌, ◌/◌, ◌<◌, ◌≤◌, ◌≡◌, ◌⊎◌, refl, sym, ◌∙◌, arith, Bool, true, List, some, length, All,
}
use hypervi.Freestanding.Memory.{Bytes}
use hypervi.Freestanding.Memory.Laws.{Frame, read_le-Frame}
use hypervi.Freestanding.Libc.Strings.{IsString, IsString-same}
use hypervi.Freestanding.Elf.{
  Shdr, Rela, read_ehdr, read_shdr, read_sym, read_rela, sizeof_ehdr, sizeof_shdr, sizeof_sym,
  sizeof_rela, strtab, dynsym, rela, elf64_r_get_sym,
}
use hypervi.Freestanding.ElfMapper.{
  ElfMapper, ElfImport, Literals, ehdr, shdr, same_string, string_section, section_name,
  find_dynstr, find_dynsyms,
}
use hypervi.Freestanding.ElfMapper.Imports.{same_text, same_string_lem}

-- A string of less than `fuel` bytes that ends, outside of the target.
pub record IsText (fuel target size : ℕ) (m : Bytes) (p : ℕ) : Type 0 where
  pub text : List ℕ
  pub spelled : IsString m p text
  pub short : length text < fuel
  pub elsewhere : (p + length text + 1 ≤ target) ⊎ (target + size ≤ p)

-- A range of bytes outside of the target.
abbrev pub IsElsewhere : (target size p n : ℕ) → Type 0
IsElsewhere target size p n = (p + n ≤ target) ⊎ (target + size ≤ p)

-- What a relocation of a symbol asks for: its slot in the target, its symbol elsewhere, and a
-- name to look up where the symbol has no value.
pub record IsRelocation (e : ElfMapper) (fuel target size : ℕ) (m : Bytes) (dynstr : Shdr)
    (dynsyms : ℕ) (r : Rela) : Type 0 where
  pub slot : r.r_offset + 8 ≤ size
  pub symbol : IsElsewhere target size (dynsyms + sizeof_sym * elf64_r_get_sym r.r_info) sizeof_sym
  pub name :
      (read_sym (dynsyms + sizeof_sym * elf64_r_get_sym r.r_info) m).st_value ≡ 0
      → IsText fuel target size m (
          e.m_file
          + dynstr.sh_offset
          + (read_sym (dynsyms + sizeof_sym * elf64_r_get_sym r.r_info) m).st_name)

-- A file whose tables stand elsewhere, whose names end, and whose global offset table and
-- relocations point into the target. Some section is `.dynstr` and some holds dynamic symbols.
pub record IsLinked (e : ElfMapper) (fuel : ℕ) (lit : Literals) (target size : ℕ) (m : Bytes)
    : Type 0 where
  pub header : IsElsewhere target size e.m_file sizeof_ehdr
  pub sections : IsElsewhere target size e.m_shdrs (sizeof_shdr * (ehdr e m).e_shnum)
  pub string_index : (ehdr e m).e_shstrndx < (ehdr e m).e_shnum
  pub names :
      (i : ℕ)
      → i < (ehdr e m).e_shnum
      → IsText fuel target size m (section_name e (string_section e m) (shdr e i m))
  pub dynstr_literal : IsText fuel target size m lit.dynstr
  pub got_literal : IsText fuel target size m lit.got
  pub imports : All (λ (x : ElfImport). IsText fuel target size m x.name) e.m_imports
  pub some_dynstr :
      (k : ℕ) × (k < (ehdr e m).e_shnum)
      × ((shdr e k m).sh_type ≡ strtab)
      × (same_string fuel (section_name e (string_section e m) (shdr e k m)) lit.dynstr m
          ≡ some true)
  pub some_dynsym : (k : ℕ) × (k < (ehdr e m).e_shnum) × ((shdr e k m).sh_type ≡ dynsym)
  pub got :
      (i : ℕ)
      → i < (ehdr e m).e_shnum
      → same_string fuel (section_name e (string_section e m) (shdr e i m)) lit.got m ≡ some true
      → (shdr e i m).sh_addr + 8 * ((shdr e i m).sh_size / 8) ≤ size
  pub table :
      (i : ℕ)
      → i < (ehdr e m).e_shnum
      → (shdr e i m).sh_type ≡ rela
      → IsElsewhere target size
          (e.m_file + (shdr e i m).sh_offset)
          (sizeof_rela * ((shdr e i m).sh_size / sizeof_rela))
  pub relocations :
      (i k : ℕ) (dynstr : Shdr) (dynsyms : ℕ)
      → i < (ehdr e m).e_shnum
      → (shdr e i m).sh_type ≡ rela
      → k < (shdr e i m).sh_size / sizeof_rela
      → find_dynstr e fuel lit.dynstr (string_section e m) (ehdr e m).e_shnum 0 m
        ≡ some (some dynstr)
      → find_dynsyms e (ehdr e m).e_shnum 0 m ≡ some dynsyms
      → IsRelocation e fuel target size m dynstr dynsyms
          (read_rela (e.m_file + (shdr e i m).sh_offset + sizeof_rela * k) m)

-- Memory that differs from `m` in the target only.
module _ (fuel target size : ℕ) (m s : Bytes) (frame : Frame target size m s) where
  pub same_string-Frame :
      (a b : ℕ)
      → IsText fuel target size m a
      → IsText fuel target size m b
      → (same_string fuel a b s ≡ same_string fuel a b m)
        × ((r : Bool) × (same_string fuel a b m ≡ some r))
  same_string-Frame a b ta tb =
      let still = λ (p : ℕ) (t : IsText fuel target size m p).
        IsString-same m s p t.text (λ q from to. frame q (ground (arith, t.elsewhere))) t.spelled in
      let before = same_string_lem m ta.text tb.text fuel a b ta.spelled tb.spelled ta.short in
      let after = same_string_lem s ta.text tb.text fuel a b (still a ta) (still b tb) ta.short in
      (after ∙ sym before, (same_text ta.text tb.text, before))

  pub read_shdr-Frame :
      (p : ℕ) → IsElsewhere target size p sizeof_shdr → read_shdr p s ≡ read_shdr p m
  unfolding read_shdr
  read_shdr-Frame p out =
      rw
        (
          read_le-Frame 4 p target size m s frame (omega arith),
          read_le-Frame 4 (p + 4) target size m s frame (omega arith),
          read_le-Frame 8 (p + 16) target size m s frame (omega arith),
          read_le-Frame 8 (p + 24) target size m s frame (omega arith),
          read_le-Frame 8 (p + 32) target size m s frame (omega arith),
        )
        refl

  pub read_rela-Frame :
      (p : ℕ) → IsElsewhere target size p sizeof_rela → read_rela p s ≡ read_rela p m
  unfolding read_rela
  read_rela-Frame p out =
      rw
        (
          read_le-Frame 8 p target size m s frame (omega arith),
          read_le-Frame 8 (p + 8) target size m s frame (omega arith),
          read_le-Frame 8 (p + 16) target size m s frame (omega arith),
        )
        refl

  pub read_sym-Frame : (p : ℕ) → IsElsewhere target size p sizeof_sym → read_sym p s ≡ read_sym p m
  unfolding read_sym
  read_sym-Frame p out =
      rw
        (
          read_le-Frame 4 p target size m s frame (omega arith),
          read_le-Frame 8 (p + 8) target size m s frame (omega arith),
        )
        refl

  pub read_ehdr-Frame :
      (p : ℕ) → IsElsewhere target size p sizeof_ehdr → read_ehdr p s ≡ read_ehdr p m
  unfolding read_ehdr
  read_ehdr-Frame p out =
      rw
        (
          read_le-Frame 8 (p + 24) target size m s frame (omega arith),
          read_le-Frame 8 (p + 32) target size m s frame (omega arith),
          read_le-Frame 8 (p + 40) target size m s frame (omega arith),
          read_le-Frame 2 (p + 56) target size m s frame (omega arith),
          read_le-Frame 2 (p + 60) target size m s frame (omega arith),
          read_le-Frame 2 (p + 62) target size m s frame (omega arith),
        )
        refl
