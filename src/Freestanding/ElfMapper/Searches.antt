-- ===== src/Freestanding/ElfMapper/Searches.antt =====
-- The searches of `map_to`: they end, and read nothing of the target.
use hypervi.Base.{
  ℕ, zero, suc, ◌+◌, ◌*◌, ◌<◌, ◌≤◌, ◌≡◌, ◌≢◌, ◌⊎◌, inl, inr, refl, sym, ap, ◌∙◌, arith, Bool, true,
  false, List, [], ◌∷◌, some, ◌/=◌, if◌then◌else◌, All, Bool-cases,
}
use hypervi.Freestanding.Memory.{Bytes}
use hypervi.Freestanding.Memory.Laws.{Frame}
use hypervi.Freestanding.Elf.{Shdr, sizeof_shdr, strtab, dynsym}
use hypervi.Freestanding.ElfMapper.{
  ElfMapper, ElfImport, Literals, ehdr, shdr, same_string, string_section, section_name,
  find_dynstr, find_dynsyms, resolve_import,
}
use hypervi.Freestanding.ElfMapper.Linked.{
  IsText, IsLinked, same_string-Frame, read_shdr-Frame, read_ehdr-Frame,
}

-- A search goes past what differs from the one to be found.
past : {A : Type 0} (f : ℕ → A) (i k : ℕ) → i ≤ k → f i ≢ f k → suc i ≤ k
past f i k h ne = elim (last i k h) [ inl same ↦ absurd (ne (ap f same)) | inr below ↦ below ]
  where
    last : (i k : ℕ) → i ≤ k → (i ≡ k) ⊎ (suc i ≤ k)
    last i k h = omega arith

module _ (e : ElfMapper) (fuel : ℕ) (lit : Literals) (target size : ℕ) (m : Bytes)
    (linked : IsLinked e fuel lit target size m) where
  abbrev pub strings : Shdr
  strings = string_section e m

  abbrev pub shnum : ℕ
  shnum = (ehdr e m).e_shnum

  -- The searches find what is there.
  pub dynstr_found :
      (left i k : ℕ)
      → i + left ≡ shnum
      → i ≤ k
      → k < shnum
      → (shdr e k m).sh_type ≡ strtab
      → same_string fuel (section_name e strings (shdr e k m)) lit.dynstr m ≡ some true
      → (d : Shdr) × (find_dynstr e fuel lit.dynstr strings left i m ≡ some (some d))
  unfolding find_dynstr string_section
  dynstr_found zero i k end from to type name = absurd (omega arith)
  dynstr_found (suc left) i k end from to type name =
      let later = λ (h : suc i ≤ k). dynstr_found left (suc i) k (omega arith) h to type name in
      elim (Bool-cases ((shdr e i m).sh_type /= strtab)) [
        | inl other ↦
            rw other (later (past (λ j. (shdr e j m).sh_type) i k from (λ same. ground arith)))
        | inr this ↦
            let known =
              same_string-Frame fuel target size m m (λ q out. refl)
                (section_name e strings (shdr e i m)) lit.dynstr (linked.names i (omega arith))
                linked.dynstr_literal in
            elim (Bool-cases known.1.0) [
              | inl yes_name ↦ (shdr e i m, rw (this, known.1.1, yes_name) refl)
              | inr no_name ↦
                  rw (this, known.1.1, no_name)
                    (later (
                      past
                        (λ j. same_string fuel (section_name e strings (shdr e j m)) lit.dynstr m) i
                        k from (λ same. let e' = sym known.1.1 ∙ same ∙ name in ground arith)))
            ]
      ]

  pub dynsyms_found :
      (left i k : ℕ)
      → i + left ≡ shnum
      → i ≤ k
      → k < shnum
      → (shdr e k m).sh_type ≡ dynsym
      → (p : ℕ) × (find_dynsyms e left i m ≡ some p)
  unfolding find_dynsyms
  dynsyms_found zero i k end from to type = absurd (omega arith)
  dynsyms_found (suc left) i k end from to type =
      elim (Bool-cases ((shdr e i m).sh_type /= dynsym)) [
        | inl other ↦ rw other (
            dynsyms_found left (suc i) k (omega arith)
              (past (λ j. (shdr e j m).sh_type) i k from (λ same. ground arith)) to type)
        | inr this ↦ (e.m_file + (shdr e i m).sh_offset, rw this refl)
      ]

  module _ (s : Bytes) (frame : Frame target size m s) where
    pub shdr_same : (i : ℕ) → i < shnum → shdr e i s ≡ shdr e i m
    shdr_same i h =
        read_shdr-Frame fuel target size m s frame (e.m_shdrs + sizeof_shdr * i)
          (omega (arith, linked.sections))

    pub ehdr_same : ehdr e s ≡ ehdr e m
    ehdr_same = read_ehdr-Frame fuel target size m s frame e.m_file linked.header

    -- Looking a name up ends.
    pub resolved :
        (name : ℕ) (l : List ElfImport)
        → IsText fuel target size m name
        → All (λ (x : ElfImport). IsText fuel target size m x.name) l
        → (a : ℕ) × (resolve_import e fuel l name s ≡ some a)
    unfolding resolve_import
    resolved name [] text all = (0, refl)
    resolved name (x ∷ l) text all =
        let (same, (r, known)) =
          same_string-Frame fuel target size m s frame x.name name all.0 text in
        let (a, later) = resolved name l text all.1 in
        rw (same, known, later) (chosen r x.address a)
      where
        chosen : (r : Bool) (a b : ℕ) → (c : ℕ) × ((if r then some a else some b) ≡ some c)
        chosen true a b = (a, refl)
        chosen false a b = (b, refl)

  -- The searches read nothing of the target.
  pub find_dynstr_same :
      (s : Bytes) (frame : Frame target size m s) (left i : ℕ)
      → i + left ≡ shnum
      → find_dynstr e fuel lit.dynstr strings left i s
        ≡ find_dynstr e fuel lit.dynstr strings left i m
  unfolding find_dynstr
  find_dynstr_same s frame zero i end = refl
  find_dynstr_same s frame (suc left) i end =
      rw
        (
          shdr_same s frame i (omega arith),
          (same_string-Frame fuel target size m s frame (section_name e strings (shdr e i m))
              lit.dynstr (linked.names i (omega arith)) linked.dynstr_literal).0,
          find_dynstr_same s frame left (suc i) (omega arith),
        )
        refl

  pub find_dynsyms_same :
      (s : Bytes) (frame : Frame target size m s) (left i : ℕ)
      → i + left ≡ shnum
      → find_dynsyms e left i s ≡ find_dynsyms e left i m
  unfolding find_dynsyms
  find_dynsyms_same s frame zero i end = refl
  find_dynsyms_same s frame (suc left) i end =
      rw (shdr_same s frame i (omega arith), find_dynsyms_same s frame left (suc i) (omega arith))
        refl
