-- ===== src/Freestanding/ElfMapper/Slots.antt =====
-- The last loop of `map_to`: it ends, and writes the words that the sections name only.
use hypervi.Base.{
  ℕ, zero, suc, ◌+◌, ◌*◌, ◌/◌, ◌<◌, ◌≡◌, inl, inr, refl, arith, Bool, true, false, Option, some,
  ◌==◌, ◌||◌, if◌then◌else◌, Bool-cases, for_range_keeps, u64,
}
use hypervi.Freestanding.Memory.{Bytes, read_le, write_le}
use hypervi.Freestanding.Memory.Laws.{Frame}
use hypervi.Freestanding.Elf.{
  Shdr, read_sym, read_rela, sizeof_sym, sizeof_rela, rela, elf64_r_get_sym, elf64_r_get_type,
  x86_64_relative, x86_64_junp_slot, x86_64_glob_dat,
}
use hypervi.Freestanding.ElfMapper.{
  ElfMapper, Literals, ehdr, shdr, same_string, string_section, section_name, find_dynstr,
  find_dynsyms, relocate_got, relocate, relocate_from, relocate_section, relocate_all,
}
use hypervi.Freestanding.ElfMapper.Linked.{
  IsElsewhere, IsRelocation, IsLinked, same_string-Frame, read_rela-Frame, read_sym-Frame,
}
use hypervi.Freestanding.ElfMapper.Searches.{resolved, shdr_same}

-- The words of the target that the last loop of `map_to` writes: the entries of a section named
-- `.got`, and what the relocations of a section point at.
pub data IsSlot (e : ElfMapper) (fuel : ℕ) (lit : Literals) (target : ℕ) (m : Bytes)
    : ℕ → Type 0 where
  got_entry :
      (i j : ℕ)
      → i < (ehdr e m).e_shnum
      → same_string fuel (section_name e (string_section e m) (shdr e i m)) lit.got m ≡ some true
      → j < (shdr e i m).sh_size / 8
      → IsSlot e fuel lit target m (target + (shdr e i m).sh_addr + 8 * j)
  relocation :
      (i k : ℕ)
      → i < (ehdr e m).e_shnum
      → (shdr e i m).sh_type ≡ rela
      → k < (shdr e i m).sh_size / sizeof_rela
      → IsSlot e fuel lit target m
          (target + (read_rela (e.m_file + (shdr e i m).sh_offset + sizeof_rela * k) m).r_offset)

module _ (e : ElfMapper) (fuel : ℕ) (lit : Literals) (target size : ℕ) (m : Bytes)
    (linked : IsLinked e fuel lit target size m) where
  abbrev strings : Shdr
  strings = string_section e m

  abbrev shnum : ℕ
  shnum = (ehdr e m).e_shnum

  -- What writing a slot keeps, and nothing outside of the target.
  module _ (Inv : Bytes → Type 0) (inv-Frame : (s : Bytes) → Inv s → Frame target size m s)
      (inv_written : (p v : ℕ) (s : Bytes)
        → IsSlot e fuel lit target m p
        → Inv s
        → Inv (write_le 8 p v s)) where
    -- An option with a value that keeps it.
    abbrev Kept : Option Bytes → Type 0
    Kept o = (s : Bytes) × (o ≡ some s) × Inv s

    -- One relocation writes its slot, or nothing.
    relocate-Kept :
        (s : Bytes)
        → Inv s
        → (dynstr : Shdr) (dynsyms relocs i k : ℕ)
        → IsElsewhere target size (relocs + sizeof_rela * k) sizeof_rela
        → IsRelocation e fuel target size m dynstr dynsyms (read_rela (relocs + sizeof_rela * k) m)
        → IsSlot e fuel lit target m (target + (read_rela (relocs + sizeof_rela * k) m).r_offset)
        → Kept (relocate e fuel target dynstr dynsyms relocs i k s)
    unfolding relocate
    relocate-Kept s inv dynstr dynsyms relocs i k out r at =
        let frame = inv-Frame s inv in
        let reloc = read_rela (relocs + sizeof_rela * k) m in
        let place = dynsyms + sizeof_sym * elf64_r_get_sym reloc.r_info in
        let slot = target + reloc.r_offset in
        let written = λ (v : ℕ). inv_written slot v s at inv in
        let table = read_rela-Frame fuel target size m s frame (relocs + sizeof_rela * k) out in
        let entry = read_sym-Frame fuel target size m s frame place r.symbol in
        elim (Bool-cases (elf64_r_get_type reloc.r_info == x86_64_relative)) [
          | inl relative ↦
              rw (table, relative)
                (write_le 8 slot (u64 (read_le 8 slot s + target)) s, refl, written _)
          | inr other ↦
              elim (Bool-cases (
                elf64_r_get_type reloc.r_info == x86_64_junp_slot
                || elf64_r_get_type reloc.r_info == x86_64_glob_dat)) [
                  | inr none_of_them ↦ rw (table, other, none_of_them) (s, refl, inv)
                  | inl symbolic ↦ elim (Bool-cases ((read_sym place m).st_value == 0)) [
                    | inr defined ↦ rw (table, other, symbolic, entry, defined) (_, refl, written _)
                    | inl undefined ↦
                        let no_value : (read_sym place m).st_value ≡ 0 = ground arith in
                        let (a, found) =
                          resolved e fuel lit target size m linked s frame
                            (e.m_file + dynstr.sh_offset + (read_sym place m).st_name) e.m_imports
                            (r.name no_value) linked.imports in
                        rw (table, other, symbolic, entry, undefined, found)
                          (write_le 8 slot a s, refl, written a)
                  ]
                ]
        ]

    relocate_from-Kept :
        (dynstr : Shdr) (dynsyms relocs i count : ℕ)
        → ((k : ℕ)
            → k < count
            → IsElsewhere target size (relocs + sizeof_rela * k) sizeof_rela
              × IsRelocation e fuel target size m dynstr dynsyms
                  (read_rela (relocs + sizeof_rela * k) m)
              × IsSlot e fuel lit target m
                  (target + (read_rela (relocs + sizeof_rela * k) m).r_offset))
        → (left k : ℕ) (s : Bytes) → Inv s
        → k + left ≡ count
        → Kept (relocate_from e fuel target dynstr dynsyms relocs i left k s)
    unfolding relocate_from
    relocate_from-Kept dynstr dynsyms relocs i count all zero k s inv end = (s, refl, inv)
    relocate_from-Kept dynstr dynsyms relocs i count all (suc left) k s inv end =
        let (table, r, at) = all k (omega arith) in
        let (next, ran, inv') = relocate-Kept s inv dynstr dynsyms relocs i k table r at in
        rw ran (
          relocate_from-Kept dynstr dynsyms relocs i count all left (suc k) next inv' (omega arith))

    relocate_got_kept :
        (i : ℕ) (s : Bytes)
        → Inv s
        → i < shnum
        → same_string fuel (section_name e strings (shdr e i m)) lit.got m ≡ some true
        → Inv (relocate_got e target (shdr e i m) s)
    unfolding relocate_got
    relocate_got_kept i s inv h named =
        let got = target + (shdr e i m).sh_addr in
        for_range_keeps Inv _ ((shdr e i m).sh_size / 8)
          (λ j t below kept.
            inv_written (got + 8 * j) (u64 (target + read_le 8 (got + 8 * j) t)) t
              (got_entry i j h named below) kept)
          ((shdr e i m).sh_size / 8) 0 s (omega arith) inv

    -- A section named `.got` is moved.
    got_round :
        (i : ℕ) (s : Bytes) (r : Bool)
        → Inv s
        → i < shnum
        → same_string fuel (section_name e strings (shdr e i m)) lit.got m ≡ some r
        → Inv (if r then relocate_got e target (shdr e i m) s else s)
    got_round i s true inv h known = relocate_got_kept i s inv h known
    got_round i s false inv h known = inv

    -- The strings and symbols that the searches find.
    module _ (dynstr : Shdr) (dynsyms : ℕ)
        (strings_found : find_dynstr e fuel lit.dynstr strings shnum 0 m ≡ some (some dynstr))
        (symbols_found : find_dynsyms e shnum 0 m ≡ some dynsyms) where
      relocate_section-Kept :
          (i : ℕ) (s : Bytes)
          → Inv s
          → i < shnum
          → (shdr e i m).sh_type ≡ rela
          → Kept (relocate_section e fuel target (some dynstr) (some dynsyms) i (shdr e i m) s)
      unfolding relocate_section
      relocate_section-Kept i s inv h type =
          elim (Bool-cases ((shdr e i m).sh_size / sizeof_rela == 0)) [
            | inl empty ↦ rw empty (s, refl, inv)
            | inr more ↦ rw more (
                relocate_from-Kept dynstr dynsyms (e.m_file + (shdr e i m).sh_offset) i
                  ((shdr e i m).sh_size / sizeof_rela)
                  (λ k hk. (
                    omega (arith, linked.table i h type),
                    linked.relocations i k dynstr dynsyms h type hk strings_found symbols_found,
                    relocation i k h type hk,
                  ))
                  ((shdr e i m).sh_size / sizeof_rela) 0 s inv (omega arith))
          ]

      pub relocate_all-Kept :
          (left i : ℕ) (s : Bytes)
          → Inv s
          → i + left ≡ shnum
          → Kept (relocate_all e fuel target lit strings (some dynstr) (some dynsyms) left i s)
      unfolding relocate_all
      relocate_all-Kept zero i s inv end = (s, refl, inv)
      relocate_all-Kept (suc left) i s inv end =
          let frame = inv-Frame s inv in
          let h : i < shnum = omega arith in
          let (same, (r, known)) =
            same_string-Frame fuel target size m s frame (section_name e strings (shdr e i m))
              lit.got (linked.names i h) linked.got_literal in
          let moved = if r then relocate_got e target (shdr e i m) s else s in
          let moved_inv = got_round i s r inv h known in
          elim (Bool-cases ((shdr e i m).sh_type == rela)) [
            | inl table ↦
                let (next, ran, inv') = relocate_section-Kept i moved moved_inv h (ground arith) in
                rw (shdr_same e fuel lit target size m linked s frame i h, same, known, table, ran)
                  (relocate_all-Kept left (suc i) next inv' (omega arith))
            | inr other ↦
                rw (shdr_same e fuel lit target size m linked s frame i h, same, known, other)
                  (relocate_all-Kept left (suc i) moved moved_inv (omega arith))
          ]
