-- ===== src/Freestanding/ElfMapper/Relocations.antt =====
-- A section of relative relocations.
use mathlib.Core.Path.{subst}
use hypervi.Base.{
  ℕ, zero, suc, ◌+◌, ◌*◌, ◌<◌, ◌≤◌, ◌≡◌, ◌≢◌, ◌⊎◌, inl, inr, refl, sym, ◌∙◌, arith, some, u64,
}
use hypervi.Freestanding.Memory.{Bytes, read_le, write_le}
use hypervi.Freestanding.Memory.Laws.{
  SameOn, read_le-SameOn, read_le-same, read_le-write_le, write_le-Frame,
}
use hypervi.Freestanding.Elf.{Shdr, read_rela, sizeof_rela, x86_64_relative, elf64_r_get_type}
use hypervi.Freestanding.ElfMapper.{ElfMapper, relocate, relocate_from}

-- A table of `count` relocations at `relocs`, all of them relative, and slots elsewhere that share
-- no byte.
pub record IsRelative (target relocs count : ℕ) (m : Bytes) : Type 0 where
  pub relative :
      (k : ℕ)
      → k < count
      → elf64_r_get_type (read_rela (relocs + sizeof_rela * k) m).r_info ≡ x86_64_relative
  pub apart :
      (j k : ℕ)
      → j < count
      → k < count
      → j ≢ k
      → ((read_rela (relocs + sizeof_rela * j) m).r_offset + 8
          ≤ (read_rela (relocs + sizeof_rela * k) m).r_offset)
        ⊎ ((read_rela (relocs + sizeof_rela * k) m).r_offset + 8
            ≤ (read_rela (relocs + sizeof_rela * j) m).r_offset)
  pub elsewhere :
      (k : ℕ)
      → k < count
      → (relocs + sizeof_rela * count ≤ target + (read_rela (relocs + sizeof_rela * k) m).r_offset)
        ⊎ (target + (read_rela (relocs + sizeof_rela * k) m).r_offset + 8 ≤ relocs)

-- A byte of one word is none of another that shares no byte with it.
apart_byte : (a b o : ℕ) → o < 8 → (a + 8 ≤ b) ⊎ (b + 8 ≤ a) → (a + o < b) ⊎ (b + 8 ≤ a + o)
apart_byte a b o ho h = omega arith

module _ (e : ElfMapper) (fuel target : ℕ) (dynstr : Shdr) (dynsyms relocs i count : ℕ) (m : Bytes)
    (ok : IsRelative target relocs count m) where
  -- The word that relocation k points at.
  abbrev pub slot : (k : ℕ) → ℕ
  slot k = target + (read_rela (relocs + sizeof_rela * k) m).r_offset

  -- Memory after the first n relocations.
  pub record Relocated (n : ℕ) (s : Bytes) : Type 0 where
    pub moved : (k : ℕ) → k < n → read_le 8 (slot k) s ≡ u64 (read_le 8 (slot k) m + target)
    pub rest : (q : ℕ) → ((k : ℕ) → k < n → (q < slot k) ⊎ (slot k + 8 ≤ q)) → s q ≡ m q

  -- The table stays as it was.
  table_same :
      (n : ℕ) (s : Bytes)
      → n ≤ count
      → Relocated n s
      → SameOn relocs (relocs + sizeof_rela * count) m s
  table_same n s below inv q from to = inv.rest q (λ j hj. ground (arith, ok.elsewhere j))

  rela_same :
      (n k : ℕ) (s : Bytes)
      → k < count
      → n ≤ count
      → Relocated n s
      → read_rela (relocs + sizeof_rela * k) s ≡ read_rela (relocs + sizeof_rela * k) m
  unfolding read_rela
  rela_same n k s h below inv =
      let same = table_same n s below inv in
      let at = relocs + sizeof_rela * k in
      let end = relocs + sizeof_rela * count in
      rw
        (
          read_le-SameOn 8 at relocs end m s same (omega arith) (omega arith),
          read_le-SameOn 8 (at + 8) relocs end m s same (omega arith) (omega arith),
          read_le-SameOn 8 (at + 16) relocs end m s same (omega arith) (omega arith),
        )
        refl

  -- Slots of different relocations share no byte.
  slots_apart :
      (j k : ℕ) → j < count → k < count → j ≢ k → (slot j + 8 ≤ slot k) ⊎ (slot k + 8 ≤ slot j)
  slots_apart j k hj hk ne = ground (arith, ok.apart j k)

  slot_same :
      (n k : ℕ) (s : Bytes)
      → n ≤ k
      → k < count
      → Relocated n s
      → read_le 8 (slot k) s ≡ read_le 8 (slot k) m
  slot_same n k s from h inv = read_le-same 8 (slot k) m s (λ o ho.
      inv.rest (slot k + o)
        (λ j hj. apart_byte (slot k) (slot j) o ho (slots_apart k j h (omega arith) (omega arith))))

  moved_word : (n : ℕ) → Bytes → Bytes
  moved_word n s = write_le 8 (slot n) (u64 (read_le 8 (slot n) s + target)) s

  moved_word-Relocated :
      (n : ℕ) (s : Bytes) → n < count → Relocated n s → Relocated (suc n) (moved_word n s)
  unfolding moved_word
  moved_word-Relocated n s h inv = record {
    moved = λ k hk. elim (last k hk) [
      | inl same ↦
          subst (λ t. read_le 8 (slot t) (moved_word n s) ≡ u64 (read_le 8 (slot t) m + target))
            (sym same) (this (slot_same n n s (omega arith) h inv))
      | inr below ↦ kept k below ∙ inv.moved k below
    ];
    rest = λ q apart.
        write_le-Frame 8 (slot n) (u64 (read_le 8 (slot n) s + target)) s q (apart n (omega arith))
        ∙ inv.rest q (λ k hk. apart k (omega arith));
  }
    where
      last : (k : ℕ) → k < suc n → (k ≡ n) ⊎ (k < n)
      last k hk = omega arith

      this :
          read_le 8 (slot n) s ≡ read_le 8 (slot n) m
          → read_le 8 (slot n) (moved_word n s) ≡ u64 (read_le 8 (slot n) m + target)
      this same =
          omega (arith, read_le-write_le 8 (slot n) (u64 (read_le 8 (slot n) s + target)) s, same)

      kept : (k : ℕ) → k < n → read_le 8 (slot k) (moved_word n s) ≡ read_le 8 (slot k) s
      kept k below = read_le-same 8 (slot k) s (moved_word n s) (λ o ho.
          write_le-Frame 8 (slot n) (u64 (read_le 8 (slot n) s + target)) s (slot k + o)
            (apart_byte (slot k) (slot n) o ho (slots_apart k n (omega arith) h (omega arith))))

  relocate_relative :
      (n : ℕ) (s : Bytes)
      → n < count
      → Relocated n s
      → relocate e fuel target dynstr dynsyms relocs i n s ≡ some (moved_word n s)
  unfolding relocate moved_word
  relocate_relative n s h inv = rw (rela_same n n s h (omega arith) inv, ok.relative n h) refl

  relocate_rounds :
      (left n : ℕ) (s : Bytes)
      → n + left ≡ count
      → Relocated n s
      → (s' : Bytes) × (relocate_from e fuel target dynstr dynsyms relocs i left n s ≡ some s')
        × Relocated count s'
  unfolding relocate_from
  relocate_rounds zero n s end inv =
      (s, refl, let end' : n ≡ count = omega arith in subst (λ t. Relocated t s) end' inv)
  relocate_rounds (suc left) n s end inv =
      let h : n < count = omega arith in
      rw (relocate_relative n s h inv) (
        relocate_rounds left (suc n) (moved_word n s) (omega arith)
          (moved_word-Relocated n s h inv))

  -- A table of relative relocations is worked through without a fault: each word pointed at is
  -- moved by the base of the mapping, once, and no other byte changes.
  pub relocate_from-Relocated :
      (s' : Bytes) × (relocate_from e fuel target dynstr dynsyms relocs i count 0 m ≡ some s')
      × Relocated count s'
  relocate_from-Relocated =
      relocate_rounds count 0 m (omega arith)
        (record { moved = λ k h. absurd (omega arith); rest = λ q apart. refl })
