-- ===== src/Freestanding/ElfMapper/Segments.antt =====
-- What `map_to` copies: the header and the segments, byte by byte.
use mathlib.Core.Path.{subst}
use hypervi.Base.{
  ℕ, zero, suc, ◌+◌, ◌-◌, ◌≤◌, ◌<◌, ◌≡◌, inl, inr, refl, ◌∙◌, arith, true, false, if◌then◌else◌,
  ltb, for_range, Bool-cases,
}
use hypervi.Freestanding.Memory.{Bytes, movsb}
use hypervi.Freestanding.Memory.Laws.{
  Frame, SameOn, read_le-SameOn, movsb-Frame, movsb_lem, at_offset,
}
use hypervi.Freestanding.Elf.{read_ehdr, sizeof_ehdr}
use hypervi.Freestanding.ElfMapper.{ElfMapper, ehdr, phdr, map_segment, map_segments}
use hypervi.Freestanding.ElfMapper.Image.{is_load, IsLoadable, covers, image, image_last}
use hypervi.Freestanding.ElfMapper.Rounds.{Mapped, map_segment-Mapped}

module _ (e : ElfMapper) (len target size : ℕ) (m : Bytes)
    (ok : IsLoadable e len target size m) where
  -- Memory with the first n segments in place.
  abbrev InPlace : (n : ℕ) → Bytes → Type 0
  InPlace n s = Mapped e len target size m ok n s

  rounds-Mapped :
      (k n : ℕ) (s : Bytes)
      → n + k ≡ (ehdr e m).e_phnum
      → InPlace n s
      → InPlace (ehdr e m).e_phnum (for_range k n (map_segment e target) s)
  unfolding for_range
  rounds-Mapped zero n s end inv =
      let end' : n ≡ (ehdr e m).e_phnum = omega arith in subst (λ t. InPlace t s) end' inv
  rounds-Mapped (suc k) n s end inv =
      rounds-Mapped k (suc n) (map_segment e target n s) (omega arith)
        (map_segment-Mapped e len target size m ok n s (omega arith) inv)

  abbrev with_header : Bytes
  with_header = movsb target e.m_file sizeof_ehdr m

  header-Mapped : InPlace 0 with_header
  unfolding image
  header-Mapped = record {
    bytes = λ q. header_byte q;
    file = λ q from to. frame q (ground (arith, ok.elsewhere, ok.header_in_target));
    before = λ p below. frame p (inl (omega arith));
  }
    where
      frame : Frame target sizeof_ehdr m with_header
      frame = movsb-Frame target e.m_file sizeof_ehdr m

      header_byte :
          (q : ℕ)
          → with_header (target + q)
            ≡ (if ltb q sizeof_ehdr then m (e.m_file + q) else m (target + q))
      header_byte q = elim (Bool-cases (ltb q sizeof_ehdr)) [
        | inl inside ↦ rw inside (
            movsb_lem target e.m_file sizeof_ehdr m q
              (ground (arith, ok.elsewhere, ok.header_in_target, ok.header_in_file)) (ground arith))
        | inr outside ↦ rw outside (frame (target + q) (ground arith))
      ]

  phnum_same : (ehdr e with_header).e_phnum ≡ (ehdr e m).e_phnum
  unfolding read_ehdr
  phnum_same =
      read_le-SameOn 2 (e.m_file + 56) e.m_file (e.m_file + len) m with_header header-Mapped.file
        (omega arith) (omega (arith, ok.header_in_file))

-- Of a file whose parts lie in it and whose segments lie in a target elsewhere, `map_to` first
-- makes each byte of the target that of the last segment that covers it: the file's for a type
-- with bit 0 set, 0 for any other; else the header's, else what was there. It leaves the file,
-- and all memory below the target.
pub map_segments-image :
    (e : ElfMapper) (len target size : ℕ) (m : Bytes)
    → IsLoadable e len target size m
    → ((q : ℕ) → map_segments e target m (target + q) ≡ image e target m (ehdr e m).e_phnum q)
      × SameOn e.m_file (e.m_file + len) m (map_segments e target m)
      × ((p : ℕ) → p < target → map_segments e target m p ≡ m p)
unfolding map_segments
map_segments-image e len target size m ok =
    let start = header-Mapped e len target size m ok in
    let count = phnum_same e len target size m ok in
    let final =
      rounds-Mapped e len target size m ok (ehdr e m).e_phnum 0
        (movsb target e.m_file sizeof_ehdr m) (omega arith) start in
    rw count (final.bytes, final.file, final.before)

-- No segment covers a byte behind the target.
image_behind :
    (e : ElfMapper) (len target size : ℕ) (m : Bytes)
    → IsLoadable e len target size m
    → (n q : ℕ) → n ≤ (ehdr e m).e_phnum
    → size ≤ q
    → image e target m n q ≡ m (target + q)
unfolding image
image_behind e len target size m ok zero q few behind =
    let out : ltb q sizeof_ehdr ≡ false = ground (arith, ok.header_in_target) in rw out refl
image_behind e len target size m ok (suc n) q few behind =
    let out : covers e target m n q ≡ false = ground (arith, ok.in_target n (omega arith)) in
    rw out (image_behind e len target size m ok n q (omega arith) behind)

-- Copying the header and the segments changes no byte outside of the target.
pub map_segments-Frame :
    (e : ElfMapper) (len target size : ℕ) (m : Bytes)
    → IsLoadable e len target size m
    → Frame target size m (map_segments e target m)
map_segments-Frame e len target size m ok q out =
    let (bytes, file, before) = map_segments-image e len target size m ok in
    elim out [
      | inl below ↦ before q below
      | inr behind ↦
          at_offset m (map_segments e target m) target (q - target) q
            (bytes (q - target)
              ∙ image_behind e len target size m ok (ehdr e m).e_phnum (q - target) (omega arith)
                  (omega arith))
            (omega arith)
    ]

-- A segment whose type has bit 0 clear leaves 0 in each of its bytes that no later segment
-- covers, whatever an earlier segment put there.
pub map_segments-erased :
    (e : ElfMapper) (len target size : ℕ) (m : Bytes) (k q : ℕ)
    → IsLoadable e len target size m
    → k < (ehdr e m).e_phnum
    → is_load (phdr e k m) ≡ false
    → covers e target m k q ≡ true
    → ((j : ℕ) → k < j → j < (ehdr e m).e_phnum → covers e target m j q ≡ false)
    → map_segments e target m (target + q) ≡ 0
map_segments-erased e len target size m k q ok h zero_type here later =
    (map_segments-image e len target size m ok).0 q
    ∙ image_last e target m (ehdr e m).e_phnum k q h here later
    ∙ rw zero_type refl
