-- ===== src/Tests/ElfMapper.antt =====
-- A small ELF file at 4096: a header, two program headers and a table of two relocations. The
-- first segment is the file's own 200 bytes, the second a dynamic segment inside it.
use hypervi.Base.{
  ℕ, zero, suc, ◌+◌, ◌*◌, ◌≤◌, ◌<◌, ◌≡◌, ◌≢◌, ◌⊎◌, inl, inr, refl, arith, List, [], ◌∷◌, ◌==◌,
  if◌then◌else◌, true, some,
}
use hypervi.Freestanding.Memory.{Bytes, read_le}
use hypervi.Freestanding.Elf.{
  Shdr, read_ehdr, read_phdr, read_rela, sizeof_rela, elf64_r_get_type, x86_64_relative,
}
use hypervi.Freestanding.ElfMapper.{
  ElfMapper, ElfImport, elf_mapper, phdr, map_segments, relocate_from, resolve_import,
}
use hypervi.Freestanding.ElfMapper.Image.{IsLoadable, is_load, extent, image}
use hypervi.Freestanding.ElfMapper.Segments.{map_segments-image}
use hypervi.Freestanding.ElfMapper.Imports.{same_text, first_address, resolve_import_lem}
use hypervi.Freestanding.ElfMapper.Relocations.{IsRelative, Relocated, relocate_from-Relocated}

abbrev pub sparse : List (ℕ × ℕ) → Bytes
sparse [] q = 0
sparse ((p, v) ∷ l) q = if p == q then v else sparse l q

-- e_phoff = 64, e_phnum = 2; segment 0: type 1, 200 bytes; segment 1: type 2, 8 bytes at 180.
abbrev small_elf : Bytes
small_elf = sparse (
    (4096 + 32, 64)
    ∷ (4096 + 56, 2)
    ∷ (4160, 1)
    ∷ (4160 + 32, 200)
    ∷ (4160 + 40, 200)
    ∷ (4216, 2)
    ∷ (4216 + 16, 180)
    ∷ (4216 + 40, 8)
    ∷ (4096 + 182, 77)
    ∷ (4096 + 190, 55)
    ∷ [])

abbrev small_mapper : ElfMapper
small_mapper = record { m_file = 4096; m_imports = []; m_phdrs = 4160; m_shdrs = 4096 }

small_mapper_made : elf_mapper 4096 [] small_elf ≡ small_mapper
unfolding elf_mapper read_ehdr read_le
small_mapper_made = refl

below_two : (P : ℕ → Type 0) → P 0 → P 1 → (i : ℕ) → i < 2 → P i
below_two P first second zero h = first
below_two P first second (suc zero) h = second
below_two P first second (suc (suc i)) h = absurd (omega arith)

two_apart :
    (f : ℕ → ℕ)
    → f 0 + 8 ≤ f 1
    → (j k : ℕ) → j < 2
    → k < 2
    → j ≢ k
    → (f j + 8 ≤ f k) ⊎ (f k + 8 ≤ f j)
two_apart f h zero zero hj hk ne = absurd (ne refl)
two_apart f h zero (suc zero) hj hk ne = inl h
two_apart f h (suc zero) zero hj hk ne = inr h
two_apart f h (suc zero) (suc zero) hj hk ne = absurd (ne refl)
two_apart f h (suc (suc j)) k hj hk ne = absurd (omega arith)
two_apart f h zero (suc (suc k)) hj hk ne = absurd (omega arith)
two_apart f h (suc zero) (suc (suc k)) hj hk ne = absurd (omega arith)

small_elf-IsLoadable : IsLoadable small_mapper 200 8192 256 small_elf
unfolding read_ehdr read_phdr read_le
small_elf-IsLoadable = record {
  header_in_file = omega arith;
  header_in_target = omega arith;
  table_from = omega arith;
  table_to = omega arith;
  in_file =
      below_two
        (λ i.
          is_load (phdr small_mapper i small_elf) ≡ true
          → (phdr small_mapper i small_elf).p_offset + (phdr small_mapper i small_elf).p_filesz
            ≤ 200)
        (λ h. omega arith) (λ h. omega arith);
  in_target =
      below_two
        (λ i.
          (phdr small_mapper i small_elf).p_vaddr + extent (phdr small_mapper i small_elf) ≤ 256)
        (omega arith) (omega arith);
  elsewhere = inl (omega arith);
}

-- The file's byte 190 at its place, in the first segment only.
map_segments-image_example : map_segments small_mapper 8192 small_elf (8192 + 190) ≡ 55
unfolding image read_ehdr read_phdr read_le
map_segments-image_example =
    (map_segments-image small_mapper 200 8192 256 small_elf small_elf-IsLoadable).0 190

-- Two relocations at 5000, for the words at 16 and 32 of the target.
abbrev relocated_memory : Bytes
relocated_memory =
    sparse ((5000, 16) ∷ (5008, 8) ∷ (5024, 32) ∷ (5032, 8) ∷ (8192 + 16, 5) ∷ (8192 + 32, 7) ∷ [])

relocated_memory-IsRelative : IsRelative 8192 5000 2 relocated_memory
unfolding read_rela read_le
relocated_memory-IsRelative = record {
  relative =
      below_two
        (λ k.
          elf64_r_get_type (read_rela (5000 + sizeof_rela * k) relocated_memory).r_info
          ≡ x86_64_relative)
        refl refl;
  apart =
      two_apart (λ k. (read_rela (5000 + sizeof_rela * k) relocated_memory).r_offset) (omega arith);
  elsewhere =
      below_two
        (λ k.
          (5000 + sizeof_rela * 2
            ≤ 8192 + (read_rela (5000 + sizeof_rela * k) relocated_memory).r_offset)
          ⊎ (8192 + (read_rela (5000 + sizeof_rela * k) relocated_memory).r_offset + 8 ≤ 5000))
        (inl (omega arith)) (inl (omega arith));
}

abbrev no_strings : Shdr
no_strings = record { sh_name = 0; sh_type = 3; sh_addr = 0; sh_offset = 0; sh_size = 0 }

relocate_from-Relocated_example :
    (s' : Bytes) × (relocate_from small_mapper 0 8192 no_strings 0 5000 4 2 0 relocated_memory
      ≡ some s')
    × Relocated small_mapper 0 8192 no_strings 0 5000 4 2 relocated_memory
        relocated_memory-IsRelative 2 s'
relocate_from-Relocated_example =
    relocate_from-Relocated small_mapper 0 8192 no_strings 0 5000 4 2 relocated_memory
      relocated_memory-IsRelative

-- The names "a" and "b" at 0 and 10; "b" is looked up at 20.
abbrev names : Bytes
names = sparse ((0, 97) ∷ (10, 98) ∷ (20, 98) ∷ [])

abbrev import_a : ElfImport
import_a = record { name = 0; address = 111 }

abbrev import_b : ElfImport
import_b = record { name = 10; address = 222 }

resolve_import_lem_example :
    resolve_import small_mapper 2 (import_a ∷ import_b ∷ []) 20 names ≡ some 222
unfolding same_text first_address
resolve_import_lem_example =
    resolve_import_lem small_mapper names 2 20 (98 ∷ [])
      ((import_a, 97 ∷ []) ∷ (import_b, 98 ∷ []) ∷ []) (omega arith)
      (((refl, omega arith, refl), omega arith), (((refl, omega arith, refl), omega arith), tt))
