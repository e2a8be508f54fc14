-- ===== src/Freestanding/ElfMapper/Image.antt =====
-- What the target holds once the segments are in place, from the last segment back.
use mathlib.Core.Path.{subst}
use hypervi.Base.{
  ℕ, zero, suc, ◌+◌, ◌-◌, ◌*◌, ◌<◌, ◌≤◌, ◌≡◌, ◌⊎◌, inl, inr, refl, sym, arith, Bool, true, false,
  ◌&&◌, if◌then◌else◌, ltb, leb, truth, bit_and,
}
use hypervi.Freestanding.Memory.{Bytes}
use hypervi.Freestanding.Elf.{Phdr, sizeof_ehdr, sizeof_phdr, pt_load}
use hypervi.Freestanding.ElfMapper.{ElfMapper, ehdr, phdr}

where_in : (v k q : ℕ) → ((v ≤ q) × (q < v + k)) ⊎ ((q < v) ⊎ (v + k ≤ q))
where_in v k q = omega arith

-- A value that is `x` inside a range and `y` outside.
pub by_range :
    (v k q x y z : ℕ)
    → (v ≤ q → q < v + k → z ≡ x)
    → ((q < v) ⊎ (v + k ≤ q) → z ≡ y)
    → z ≡ (if leb v q && ltb q (v + k) then x else y)
by_range v k q x y z inside outside = elim (where_in v k q) [
  | inl (from, to) ↦
      let e : (leb v q && ltb q (v + k)) ≡ true = ground arith in rw e (inside from to)
  | inr out ↦ let e : (leb v q && ltb q (v + k)) ≡ false = ground arith in rw e (outside out)
]

-- The segment is copied from the file.
abbrev pub is_load : Phdr → Bool
is_load s = truth (bit_and s.p_type pt_load)

-- How many bytes of the mapping a segment sets.
abbrev pub extent : Phdr → ℕ
extent s = if is_load s then s.p_filesz else s.p_memsz

-- A file of `len` bytes whose headers and segments lie in it, and a target of `size` bytes
-- elsewhere that holds every segment.
pub record IsLoadable (e : ElfMapper) (len target size : ℕ) (m : Bytes) : Type 0 where
  pub header_in_file : sizeof_ehdr ≤ len
  pub header_in_target : sizeof_ehdr ≤ size
  pub table_from : e.m_file ≤ e.m_phdrs
  pub table_to : e.m_phdrs + sizeof_phdr * (ehdr e m).e_phnum ≤ e.m_file + len
  pub in_file :
      (i : ℕ)
      → i < (ehdr e m).e_phnum
      → is_load (phdr e i m) ≡ true
      → (phdr e i m).p_offset + (phdr e i m).p_filesz ≤ len
  pub in_target :
      (i : ℕ) → i < (ehdr e m).e_phnum → (phdr e i m).p_vaddr + extent (phdr e i m) ≤ size
  pub elsewhere : (e.m_file + len ≤ target) ⊎ (target + size ≤ e.m_file)

module _ (e : ElfMapper) (target : ℕ) (m : Bytes) where
  -- Segment i sets byte q of the mapping.
  abbrev pub covers : (i q : ℕ) → Bool
  covers i q = leb (phdr e i m).p_vaddr q && ltb q ((phdr e i m).p_vaddr + extent (phdr e i m))

  -- Byte q of the mapping by the last of the first n segments that covers it: a byte of the file
  -- or 0; then the header, then what was there.
  unfoldable pub image : (n q : ℕ) → ℕ
  image zero q = if ltb q sizeof_ehdr then m (e.m_file + q) else m (target + q)
  image (suc n) q =
      if covers n q
      then (if is_load (phdr e n m)
          then m (e.m_file + (phdr e n m).p_offset + (q - (phdr e n m).p_vaddr))
          else 0)
      else image n q

  -- The last segment that covers a byte decides it.
  pub image_last :
      (n k q : ℕ)
      → k < n
      → covers k q ≡ true
      → ((j : ℕ) → k < j → j < n → covers j q ≡ false)
      → image n q ≡ (
          if is_load (phdr e k m)
          then m (e.m_file + (phdr e k m).p_offset + (q - (phdr e k m).p_vaddr))
          else 0)
  unfolding image
  image_last zero k q h here later = absurd (omega arith)
  image_last (suc n) k q h here later = elim (last k n h) [
    | inl same ↦
        let e' : k ≡ n = same in
        subst (λ t. (if covers n q then value n q else image n q) ≡ value t q) (sym e')
          (rw (subst (λ t. covers t q ≡ true) e' here) refl)
    | inr below ↦
        rw (later n below (omega arith))
          (image_last n k q below here (λ j from to. later j from (omega arith)))
  ]
    where
      last : (k n : ℕ) → k < suc n → (k ≡ n) ⊎ (k < n)
      last k n h = omega arith

      value : ℕ → ℕ → ℕ
      value t q =
          if is_load (phdr e t m)
          then m (e.m_file + (phdr e t m).p_offset + (q - (phdr e t m).p_vaddr))
          else 0
