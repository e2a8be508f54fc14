-- ===== src/Freestanding/ElfMapper/Rounds.antt =====
-- One round of the loop that copies the segments.
use mathlib.Core.Path.{subst}
use hypervi.Base.{
  ℕ, suc, ◌+◌, ◌-◌, ◌*◌, ◌<◌, ◌≤◌, ◌≡◌, ◌⊎◌, inl, inr, refl, sym, ap, ◌∙◌, arith, true, false, ◌&&◌,
  if◌then◌else◌, ltb, leb, for_range, Bool-cases,
}
use hypervi.Freestanding.Memory.{Bytes, movsb, stosb, read_le}
use hypervi.Freestanding.Memory.Laws.{
  Frame, SameOn, read_le-SameOn, movsb-Frame, movsb_lem, stosb-Frame, stosb_lem,
}
use hypervi.Freestanding.Elf.{read_phdr, sizeof_phdr}
use hypervi.Freestanding.ElfMapper.{ElfMapper, ehdr, phdr, map_segment}
use hypervi.Freestanding.ElfMapper.Image.{by_range, is_load, IsLoadable, image}

module _ (e : ElfMapper) (len target size : ℕ) (m : Bytes)
    (ok : IsLoadable e len target size m) where
  -- Memory with the first n segments in place.
  pub record Mapped (n : ℕ) (s : Bytes) : Type 0 where
    pub bytes : (q : ℕ) → s (target + q) ≡ image e target m n q
    pub file : SameOn e.m_file (e.m_file + len) m s
    pub before : (p : ℕ) → p < target → s p ≡ m p

  -- A field of a program header reads the same while the file does.
  field_same :
      (s : Bytes) (i n o : ℕ)
      → i < (ehdr e m).e_phnum
      → o + n ≤ sizeof_phdr
      → SameOn e.m_file (e.m_file + len) m s
      → read_le n (e.m_phdrs + sizeof_phdr * i + o) s
        ≡ read_le n (e.m_phdrs + sizeof_phdr * i + o) m
  field_same s i n o h fits same =
      read_le-SameOn n (e.m_phdrs + sizeof_phdr * i + o) e.m_file (e.m_file + len) m s same
        (omega (arith, ok.table_from)) (omega (arith, ok.table_to))

  phdr_same :
      (i : ℕ) (s : Bytes)
      → i < (ehdr e m).e_phnum
      → SameOn e.m_file (e.m_file + len) m s
      → phdr e i s ≡ phdr e i m
  unfolding read_phdr
  phdr_same i s h same = rw (
    read_le-SameOn 4 (e.m_phdrs + sizeof_phdr * i) e.m_file (e.m_file + len) m s same
        (omega (arith, ok.table_from)) (omega (arith, ok.table_to)),
    field_same s i 8 8 h (omega arith) same,
    field_same s i 8 16 h (omega arith) same,
    field_same s i 8 32 h (omega arith) same,
    field_same s i 8 40 h (omega arith) same,
  )

  -- Any change to the bytes of one segment leaves the file, and the memory below the target.
  changed_inside :
      (n v k : ℕ) (s s' : Bytes)
      → Mapped n s
      → v + k ≤ size
      → Frame (target + v) k s s'
      → SameOn e.m_file (e.m_file + len) m s' × ((p : ℕ) → p < target → s' p ≡ m p)
  changed_inside n v k s s' inv fits frame = (
    λ q from to. frame q (away q from to) ∙ inv.file q from to,
    λ p below. frame p (inl (omega arith)) ∙ inv.before p below,
  )
    where
      away : (q : ℕ) → e.m_file ≤ q → q < e.m_file + len → (q < target + v) ⊎ (target + v + k ≤ q)
      away q from to = ground (arith, ok.elsewhere)

  image_load :
      (n q : ℕ)
      → is_load (phdr e n m) ≡ true
      → image e target m (suc n) q ≡ (
          if leb (phdr e n m).p_vaddr q && ltb q ((phdr e n m).p_vaddr + (phdr e n m).p_filesz)
          then m (e.m_file + (phdr e n m).p_offset + (q - (phdr e n m).p_vaddr))
          else image e target m n q)
  unfolding image
  image_load n q load = rw load refl

  image_zero :
      (n q : ℕ)
      → is_load (phdr e n m) ≡ false
      → image e target m (suc n) q ≡ (
          if leb (phdr e n m).p_vaddr q && ltb q ((phdr e n m).p_vaddr + (phdr e n m).p_memsz)
          then 0
          else image e target m n q)
  unfolding image
  image_zero n q zeroed = rw zeroed refl

  load_fits :
      (n : ℕ)
      → n < (ehdr e m).e_phnum
      → is_load (phdr e n m) ≡ true
      → (phdr e n m).p_vaddr + (phdr e n m).p_filesz ≤ size
  load_fits n h load = ground (arith, ok.in_target n h)

  zero_fits :
      (n : ℕ)
      → n < (ehdr e m).e_phnum
      → is_load (phdr e n m) ≡ false
      → (phdr e n m).p_vaddr + (phdr e n m).p_memsz ≤ size
  zero_fits n h zero_type = ground (arith, ok.in_target n h)

  load_byte :
      (n : ℕ) (s : Bytes) (q : ℕ)
      → n < (ehdr e m).e_phnum
      → Mapped n s
      → is_load (phdr e n m) ≡ true
      → (phdr e n m).p_vaddr ≤ q
      → q < (phdr e n m).p_vaddr + (phdr e n m).p_filesz
      → movsb
          (target + (phdr e n m).p_vaddr)
          (e.m_file + (phdr e n m).p_offset)
          (phdr e n m).p_filesz
          s
          (target + q)
        ≡ m (e.m_file + (phdr e n m).p_offset + (q - (phdr e n m).p_vaddr))
  load_byte n s q h inv load from to =
      let sec = phdr e n m in
      let fits = load_fits n h load in
      let in_file = ok.in_file n h load in
      ap (movsb (target + sec.p_vaddr) (e.m_file + sec.p_offset) sec.p_filesz s) (omega arith)
      ∙ movsb_lem (target + sec.p_vaddr) (e.m_file + sec.p_offset) sec.p_filesz s (q - sec.p_vaddr)
          (ground (arith, ok.elsewhere)) (omega arith)
      ∙ inv.file (e.m_file + sec.p_offset + (q - sec.p_vaddr)) (omega arith) (omega arith)

  copied :
      (n : ℕ) (s : Bytes)
      → n < (ehdr e m).e_phnum
      → Mapped n s
      → is_load (phdr e n m) ≡ true
      → Mapped (suc n) (
          movsb
            (target + (phdr e n m).p_vaddr)
            (e.m_file + (phdr e n m).p_offset)
            (phdr e n m).p_filesz
            s)
  copied n s h inv load =
      let sec = phdr e n m in
      let fits = load_fits n h load in
      let frame = movsb-Frame (target + sec.p_vaddr) (e.m_file + sec.p_offset) sec.p_filesz s in
      let rest = changed_inside n sec.p_vaddr sec.p_filesz s _ inv fits frame in
      record {
        bytes = λ q.
            by_range sec.p_vaddr sec.p_filesz q _ (image e target m n q) _
              (λ from to. load_byte n s q h inv load from to)
              (λ out. frame (target + q) (ground arith) ∙ inv.bytes q)
            ∙ sym (image_load n q load);
        file = rest.0;
        before = rest.1;
      }

  zeroed :
      (n : ℕ) (s : Bytes)
      → n < (ehdr e m).e_phnum
      → Mapped n s
      → is_load (phdr e n m) ≡ false
      → Mapped (suc n) (stosb (target + (phdr e n m).p_vaddr) 0 (phdr e n m).p_memsz s)
  zeroed n s h inv zero_type =
      let sec = phdr e n m in
      let fits = zero_fits n h zero_type in
      let frame = stosb-Frame (target + sec.p_vaddr) 0 sec.p_memsz s in
      let rest = changed_inside n sec.p_vaddr sec.p_memsz s _ inv fits frame in
      record {
        bytes = λ q.
            by_range sec.p_vaddr sec.p_memsz q 0 (image e target m n q) _
              (λ from to.
                ap (stosb (target + sec.p_vaddr) 0 sec.p_memsz s) (omega arith)
                ∙ stosb_lem (target + sec.p_vaddr) 0 sec.p_memsz s (q - sec.p_vaddr) (omega arith))
              (λ out. frame (target + q) (ground arith) ∙ inv.bytes q)
            ∙ sym (image_zero n q zero_type);
        file = rest.0;
        before = rest.1;
      }

  no_stosb :
      (n : ℕ) (s : Bytes)
      → ltb 0 (phdr e n m).p_memsz ≡ false
      → stosb (target + (phdr e n m).p_vaddr) 0 (phdr e n m).p_memsz s ≡ s
  unfolding stosb for_range
  no_stosb n s h = let none_left : (phdr e n m).p_memsz ≡ 0 = ground arith in rw none_left refl

  -- A round that sets nothing is one that sets no byte to 0.
  pub map_segment-Mapped :
      (n : ℕ) (s : Bytes)
      → n < (ehdr e m).e_phnum
      → Mapped n s
      → Mapped (suc n) (map_segment e target n s)
  unfolding map_segment
  map_segment-Mapped n s h inv =
      rw (phdr_same n s h inv.file) (elim (Bool-cases (is_load (phdr e n m))) [
        | inl load ↦ rw load (copied n s h inv load)
        | inr zero_type ↦ rw zero_type (elim (Bool-cases (ltb 0 (phdr e n m).p_memsz)) [
          | inl some_bytes ↦ rw some_bytes (zeroed n s h inv zero_type)
          | inr no_bytes ↦
              rw no_bytes
                (subst (Mapped (suc n)) (no_stosb n s no_bytes) (zeroed n s h inv zero_type))
        ])
      ])
