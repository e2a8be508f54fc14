-- ===== src/Tests/Linked.antt =====
-- An ELF file at 4096 with four sections: `.dynstr`, one symbol without a value named "m", a table
-- of two relocations, and `.got`.
use mathlib.Core.Path.{subst}
use mathlib.Core.Option.{some-injective}
use hypervi.Base.{
  ℕ, for_range, zero, suc, ◌^◌, ◌+◌, ◌*◌, ◌/◌, ◌≤◌, ◌<◌, ◌≡◌, ◌⊎◌, inl, inr, refl, sym, ◌∙◌, arith,
  List, [], ◌∷◌, ◌==◌, ◌&&◌, if◌then◌else◌, Bool, true, Option, none, some, ◌/=◌, length,
}
use hypervi.Freestanding.Memory.{Bytes, read_le, write_le, movsb, set_byte}
use hypervi.Freestanding.Libc.Strings.{IsString}
use hypervi.Freestanding.Libc.{strcmp}
use hypervi.Freestanding.Elf.{
  Shdr, read_ehdr, read_phdr, read_rela, read_sym, read_shdr, sizeof_rela, rela,
}
use hypervi.Freestanding.ElfMapper.{
  ElfMapper, Literals, read_dead, elf_mapper, phdr, shdr, same_string, string_section, map_to,
  map_segments, map_segment, relocate_all, relocate_got, relocate_section, relocate_from, relocate,
  resolve_import, get_entrypoint, section_name, get_mapped_size, find_dynstr, find_dynsyms,
}
use hypervi.Freestanding.ElfMapper.Image.{is_load, image}
use hypervi.Freestanding.ElfMapper.Slots.{IsSlot}
use hypervi.Freestanding.Memory.Laws.{Frame}
use hypervi.Freestanding.ElfMapper.Linked.{IsText, IsElsewhere, IsRelocation, IsLinked}
use hypervi.Loader.Allocator.{num_pages}
use hypervi.Loader.Start.{LoaderState, loader_pages, efi_loader_map}
use hypervi.Loader.Start.Pages.{IsElfFile, loader_bytes}
use hypervi.Loader.Start.Mapping.{visor_mapper, efi_loader_map_lem}
use hypervi.Tests.ElfMapper.{sparse}

-- A string spelled out, as a test.
abbrev spells : Bytes → (p : ℕ) → List ℕ → Bool
spells m p [] = m p == 0
spells m p (c ∷ s) = (m p == c) && (c /= 0) && spells m (p + 1) s

spells-IsString : (m : Bytes) (p : ℕ) (s : List ℕ) → spells m p s ≡ true → IsString m p s
spells-IsString m p [] h = ground arith
spells-IsString m p (c ∷ s) h =
    (ground arith, λ e. ground arith, spells-IsString m (p + 1) s (ground arith))

-- A predicate of the numbers below n.
abbrev AllBelow : (ℕ → Type 0) → (n : ℕ) → Type 0
AllBelow P zero = Unit
AllBelow P (suc n) = AllBelow P n × P n

below_all : (P : ℕ → Type 0) (n : ℕ) → AllBelow P n → (i : ℕ) → i < n → P i
below_all P zero all i h = absurd (omega arith)
below_all P (suc n) all i h = elim (last i n h) [
  | inl same ↦ subst P (sym same) all.1
  | inr below ↦ below_all P n all.0 i below
]
  where
    last : (i n : ℕ) → i < suc n → (i ≡ n) ⊎ (i < n)
    last i n h = omega arith

-- The literals at 100 and 110, the names of imports at 120 and 122, and the file.
abbrev pub linked_elf : Bytes
linked_elf = sparse (
    (100, 46)
    ∷ (101, 100)
    ∷ (102, 121)
    ∷ (103, 110)
    ∷ (104, 115)
    ∷ (105, 116)
    ∷ (106, 114)
    ∷ (110, 46)
    ∷ (111, 103)
    ∷ (112, 111)
    ∷ (113, 116)
    ∷ (122, 109)
    ∷ (4120, 16)
    ∷ (4128, 64)
    ∷ (4137, 1)
    ∷ (4152, 1)
    ∷ (4156, 4)
    ∷ (4160, 1)
    ∷ (4192, 128)
    ∷ (4200, 200)
    ∷ (4356, 3)
    ∷ (4376, 88)
    ∷ (4377, 2)
    ∷ (4416, 13)
    ∷ (4420, 11)
    ∷ (4440, 128)
    ∷ (4441, 2)
    ∷ (4480, 13)
    ∷ (4484, 4)
    ∷ (4504, 184)
    ∷ (4505, 2)
    ∷ (4512, 48)
    ∷ (4544, 8)
    ∷ (4548, 1)
    ∷ (4560, 32)
    ∷ (4576, 8)
    ∷ (4696, 46)
    ∷ (4697, 100)
    ∷ (4698, 121)
    ∷ (4699, 110)
    ∷ (4700, 115)
    ∷ (4701, 116)
    ∷ (4702, 114)
    ∷ (4704, 46)
    ∷ (4705, 103)
    ∷ (4706, 111)
    ∷ (4707, 116)
    ∷ (4710, 109)
    ∷ (4760, 14)
    ∷ (4792, 16)
    ∷ (4800, 8)
    ∷ (4816, 24)
    ∷ (4824, 7)
    ∷ (4828, 1)
    ∷ [])

abbrev pub linked_literals : Literals
linked_literals = record { dynstr = 100; got = 110; dead_section = λ d. d }

abbrev pub import_name : ℕ → ℕ
import_name k = if k == 5 then 122 else 120

abbrev read_file : LoaderState
read_file = record {
  visor_file = 9;
  visor_real = 4096;
  visor_mapped = 8388608;
  hypervisor_main = 0;
  memory = linked_elf;
  allocations = [];
}

abbrev pub linked_mapper : ElfMapper
linked_mapper = visor_mapper import_name (λ k. 7000 + k) (some 65536) read_file

pub linked_elf-IsElfFile : IsElfFile linked_mapper 800 linked_elf
unfolding read_ehdr read_phdr read_le get_mapped_size for_range elf_mapper
linked_elf-IsElfFile = record {
  header_in_file = omega arith;
  table_from = omega arith;
  table_to = omega arith;
  in_file =
      below_all
        (λ i.
          is_load (phdr linked_mapper i linked_elf) ≡ true
          → (phdr linked_mapper i linked_elf).p_offset + (phdr linked_mapper i linked_elf).p_filesz
            ≤ 800)
        1 (tt, λ h. omega arith);
  filesz =
      below_all
        (λ i.
          (phdr linked_mapper i linked_elf).p_filesz ≤ (phdr linked_mapper i linked_elf).p_memsz)
        1 (tt, omega arith);
  ends =
      below_all
        (λ i.
          (phdr linked_mapper i linked_elf).p_vaddr + (phdr linked_mapper i linked_elf).p_memsz
          < 2 ^ 64)
        1 (tt, omega arith);
  header_in_target = omega arith;
  size = omega arith;
}

abbrev TextAt : ℕ → Type 0
TextAt p = IsText 10 65536 4096 linked_elf p

text_at :
    (p : ℕ) (s : List ℕ)
    → spells linked_elf p s ≡ true
    → length s < 10
    → p + length s + 1 ≤ 65536
    → TextAt p
text_at p s h short out = record {
  text = s;
  spelled = spells-IsString linked_elf p s h;
  short = short;
  elsewhere = inl out;
}

abbrev dynstr_text : List ℕ
dynstr_text = 46 ∷ 100 ∷ 121 ∷ 110 ∷ 115 ∷ 116 ∷ 114 ∷ []

abbrev got_text : List ℕ
got_text = 46 ∷ 103 ∷ 111 ∷ 116 ∷ []

pub one_page : loader_bytes linked_mapper linked_elf ≡ 4096
unfolding read_ehdr read_phdr read_le get_mapped_size for_range loader_pages num_pages elf_mapper
one_page = refl

section_names :
    (i : ℕ)
    → i < 4
    → TextAt (
        section_name linked_mapper
          (string_section linked_mapper linked_elf)
          (shdr linked_mapper i linked_elf))
unfolding read_ehdr read_shdr read_le elf_mapper string_section section_name
section_names =
    below_all
      (λ i. TextAt (
        section_name linked_mapper (string_section linked_mapper linked_elf)
          (shdr linked_mapper i linked_elf)))
      4
      (
        (
          (
            (tt, text_at 4696 dynstr_text refl (omega arith) (omega arith)),
            text_at 4709 [] refl (omega arith) (omega arith),
          ),
          text_at 4709 [] refl (omega arith) (omega arith),
        ),
        text_at 4704 got_text refl (omega arith) (omega arith),
      )

-- What the searches find.
strings_found :
    find_dynstr linked_mapper 10 100 (string_section linked_mapper linked_elf) 4 0 linked_elf
    ≡ some (some (shdr linked_mapper 0 linked_elf))
unfolding read_ehdr read_shdr read_le elf_mapper string_section section_name find_dynstr same_string
    strcmp
strings_found = refl

symbols_found : find_dynsyms linked_mapper 4 0 linked_elf ≡ some 4736
unfolding read_ehdr read_shdr read_le elf_mapper find_dynsyms
symbols_found = refl

relocations_ok :
    (k : ℕ)
    → k < 2
    → IsRelocation linked_mapper 10 65536 4096 linked_elf
        (shdr linked_mapper 0 linked_elf)
        4736
        (read_rela (4792 + sizeof_rela * k) linked_elf)
unfolding read_ehdr read_shdr read_rela read_sym read_le elf_mapper
relocations_ok =
    below_all
      (λ k.
        IsRelocation linked_mapper 10 65536 4096 linked_elf (shdr linked_mapper 0 linked_elf) 4736
          (read_rela (4792 + sizeof_rela * k) linked_elf))
      2
      (
        (
          tt,
          record {
            slot = omega arith;
            symbol = inl (omega arith);
            name = λ h. text_at 4696 dynstr_text refl (omega arith) (omega arith);
          },
        ),
        record {
          slot = omega arith;
          symbol = inl (omega arith);
          name = λ h. text_at 4710 (109 ∷ []) refl (omega arith) (omega arith);
        },
      )

abbrev LinkedRelocations : ℕ → Type 0
LinkedRelocations i =
    (k : ℕ) (dynstr : Shdr) (dynsyms : ℕ)
    → (shdr linked_mapper i linked_elf).sh_type ≡ rela
    → k < (shdr linked_mapper i linked_elf).sh_size / sizeof_rela
    → find_dynstr linked_mapper 10 100 (string_section linked_mapper linked_elf) 4 0 linked_elf
      ≡ some (some dynstr)
    → find_dynsyms linked_mapper 4 0 linked_elf ≡ some dynsyms
    → IsRelocation linked_mapper 10 65536 4096 linked_elf dynstr dynsyms (
        read_rela (4096 + (shdr linked_mapper i linked_elf).sh_offset + sizeof_rela * k) linked_elf)

the_table : LinkedRelocations 2
unfolding read_shdr read_le elf_mapper read_ehdr
the_table k dynstr dynsyms type below strings symbols =
    let e = some-injective _ _ (some-injective _ _ (sym strings_found ∙ strings)) in
    let e' = some-injective _ _ (sym symbols_found ∙ symbols) in
    subst
      (λ d.
        IsRelocation linked_mapper 10 65536 4096 linked_elf d dynsyms
          (read_rela (4792 + sizeof_rela * k) linked_elf))
      e
      (subst
        (λ y.
          IsRelocation linked_mapper 10 65536 4096 linked_elf (shdr linked_mapper 0 linked_elf) y
            (read_rela (4792 + sizeof_rela * k) linked_elf))
        e' (relocations_ok k (omega arith)))

linked_relocations : (i : ℕ) → i < 4 → LinkedRelocations i
unfolding read_shdr read_le elf_mapper read_ehdr
linked_relocations = below_all LinkedRelocations 4 (
  (
    (
      (tt, λ k dynstr dynsyms type below strings symbols. absurd (omega arith)),
      λ k dynstr dynsyms type below strings symbols. absurd (omega arith),
    ),
    the_table,
  ),
  λ k dynstr dynsyms type below strings symbols. absurd (omega arith),
)

tables_elsewhere :
    (i : ℕ)
    → i < 4
    → (shdr linked_mapper i linked_elf).sh_type ≡ rela
    → IsElsewhere 65536 4096
        (4096 + (shdr linked_mapper i linked_elf).sh_offset)
        (sizeof_rela * ((shdr linked_mapper i linked_elf).sh_size / sizeof_rela))
unfolding read_shdr read_le elf_mapper read_ehdr
tables_elsewhere =
    below_all
      (λ i.
        (shdr linked_mapper i linked_elf).sh_type ≡ rela
        → IsElsewhere 65536 4096 (4096 + (shdr linked_mapper i linked_elf).sh_offset)
            (sizeof_rela * ((shdr linked_mapper i linked_elf).sh_size / sizeof_rela)))
      4
      (
        (((tt, λ h. inl (omega arith)), λ h. inl (omega arith)), λ h. inl (omega arith)),
        λ h. inl (omega arith),
      )

got_fits :
    (i : ℕ)
    → i < 4
    → (shdr linked_mapper i linked_elf).sh_addr
        + 8 * ((shdr linked_mapper i linked_elf).sh_size / 8)
      ≤ 4096
unfolding read_shdr read_le elf_mapper read_ehdr
got_fits =
    below_all
      (λ i.
        (shdr linked_mapper i linked_elf).sh_addr
          + 8 * ((shdr linked_mapper i linked_elf).sh_size / 8)
        ≤ 4096)
      4 ((((tt, omega arith), omega arith), omega arith), omega arith)

dynstr_named :
    same_string 10
      (section_name linked_mapper
        (string_section linked_mapper linked_elf)
        (shdr linked_mapper 0 linked_elf))
      100
      linked_elf
    ≡ some true
unfolding read_ehdr read_shdr read_le elf_mapper string_section section_name same_string strcmp
dynstr_named = refl

pub linked_elf-IsLinked :
    IsLinked linked_mapper 10 linked_literals 65536
      (loader_bytes linked_mapper linked_elf)
      linked_elf
unfolding read_ehdr read_shdr read_le elf_mapper get_mapped_size for_range loader_pages num_pages
    read_phdr
linked_elf-IsLinked = record {
  header = inl (omega arith);
  sections = inl (omega arith);
  string_index = omega arith;
  names = section_names;
  dynstr_literal = text_at 100 dynstr_text refl (omega arith) (omega arith);
  got_literal = text_at 110 got_text refl (omega arith) (omega arith);
  imports =
      let none_named = text_at 120 [] refl (omega arith) (omega arith) in
      let m_named = text_at 122 (109 ∷ []) refl (omega arith) (omega arith) in
      (none_named, (none_named, (none_named, (none_named, (none_named, (m_named, tt))))));
  some_dynstr = (0, omega arith, refl, dynstr_named);
  some_dynsym = (1, omega arith, refl);
  got = λ i h named. got_fits i h;
  table = tables_elsewhere;
  relocations = λ i k dynstr dynsyms h type. linked_relocations i h k dynstr dynsyms type;
}

-- One page, and the entry point 16 in it.
efi_loader_map_lem_example :
    (s' : LoaderState) × (efi_loader_map 10 linked_literals import_name
        (λ k. 7000 + k)
        (some 65536)
        read_file
      ≡ some (1, s'))
    × (s'.visor_mapped ≡ 65536)
    × (s'.hypervisor_main ≡ 65552)
    × Frame 65536 4096 linked_elf s'.memory
    × ((q : ℕ)
        → ((p : ℕ)
            → IsSlot linked_mapper 10 linked_literals 65536 linked_elf p
            → (65536 + q < p) ⊎ (p + 8 ≤ 65536 + q))
        → s'.memory (65536 + q) ≡ image linked_mapper 65536 linked_elf 1 q)
unfolding read_ehdr read_le elf_mapper get_mapped_size for_range loader_pages num_pages read_phdr
efi_loader_map_lem_example =
    efi_loader_map_lem 10 linked_literals import_name (λ k. 7000 + k) (some 65536) read_file 800
      linked_elf-IsElfFile (inl (omega arith)) linked_elf-IsLinked (λ d. refl)

-- The undefined symbol's slot holds the import's address, and the other word is moved by the base.
abbrev mapped_words : Option (ℕ × LoaderState) → List ℕ
mapped_words none = []
mapped_words (some (pages, s)) =
    read_le 8 65552 s.memory ∷ read_le 8 65560 s.memory ∷ read_le 8 65568 s.memory ∷ []

mapped_words_test :
    mapped_words
      (efi_loader_map 10 linked_literals import_name (λ k. 7000 + k) (some 65536) read_file)
    ≡ 65536 ∷ 7005 ∷ 65600 ∷ []
unfolding efi_loader_map read_ehdr read_le elf_mapper get_mapped_size for_range loader_pages
    num_pages read_phdr map_to map_segments map_segment movsb set_byte string_section section_name
    find_dynstr find_dynsyms same_string strcmp relocate_all relocate_got relocate_section
    relocate_from relocate resolve_import write_le read_rela read_sym read_shdr get_entrypoint
    read_dead
mapped_words_test = refl
