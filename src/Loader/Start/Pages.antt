-- ===== src/Loader/Start/Pages.antt =====
-- The pages that the loader asks for hold the segments.
use hypervi.Base.{ℕ, ◌+◌, ◌*◌, ◌^◌, ◌<◌, ◌≤◌, ◌≡◌, ◌⊎◌, inl, inr, arith, true, Bool-cases, u64}
use hypervi.Freestanding.Memory.{Bytes}
use hypervi.Freestanding.Memory.Laws.{Frame}
use hypervi.Freestanding.Elf.{sizeof_ehdr, sizeof_phdr}
use hypervi.Freestanding.ElfMapper.{ElfMapper, ehdr, phdr, get_mapped_size, map_segments}
use hypervi.Freestanding.ElfMapper.Size.{segment_end, get_mapped_size_lem}
use hypervi.Freestanding.ElfMapper.Image.{is_load, extent, IsLoadable}
use hypervi.Freestanding.ElfMapper.Segments.{map_segments-Frame}
use hypervi.Loader.Allocator.{num_pages, page_size}
use hypervi.Loader.Start.{loader_pages}

-- Below the last page of 64 bits, the pages hold the bytes asked for.
pub num_pages_lem : (size : ℕ) → size + page_size ≤ 2 ^ 64 → size ≤ page_size * num_pages size
unfolding num_pages
num_pages_lem size h = omega arith

-- A file of `len` bytes whose headers and segments lie in it, with no more bytes of a segment in
-- the file than in memory, and ends that 64 bits hold.
pub record IsElfFile (e : ElfMapper) (len : ℕ) (m : Bytes) : Type 0 where
  pub header_in_file : sizeof_ehdr ≤ len
  pub table_from : e.m_file ≤ e.m_phdrs
  pub table_to : e.m_phdrs + sizeof_phdr * (ehdr e m).e_phnum ≤ e.m_file + len
  pub in_file :
      (i : ℕ)
      → i < (ehdr e m).e_phnum
      → is_load (phdr e i m) ≡ true
      → (phdr e i m).p_offset + (phdr e i m).p_filesz ≤ len
  pub filesz : (i : ℕ) → i < (ehdr e m).e_phnum → (phdr e i m).p_filesz ≤ (phdr e i m).p_memsz
  pub ends : (i : ℕ) → i < (ehdr e m).e_phnum → (phdr e i m).p_vaddr + (phdr e i m).p_memsz < 2 ^ 64
  pub header_in_target : sizeof_ehdr ≤ get_mapped_size e m
  pub size : get_mapped_size e m + page_size ≤ 2 ^ 64

-- The bytes of the pages that the loader asks for.
abbrev pub loader_bytes : ElfMapper → Bytes → ℕ
loader_bytes e m = page_size * loader_pages e m

module _ (e : ElfMapper) (len target : ℕ) (m : Bytes) (ok : IsElfFile e len m)
    (elsewhere : (e.m_file + len ≤ target) ⊎ (target + loader_bytes e m ≤ e.m_file)) where
  extent_fits :
      (i : ℕ)
      → i < (ehdr e m).e_phnum
      → (phdr e i m).p_vaddr + extent (phdr e i m) ≤ loader_bytes e m
  unfolding loader_pages
  extent_fits i h =
      let end : segment_end e m i ≤ get_mapped_size e m = (get_mapped_size_lem e m).0 i h in
      let pages = num_pages_lem (get_mapped_size e m) ok.size in
      let whole : u64 ((phdr e i m).p_vaddr + (phdr e i m).p_memsz)
          ≡ (phdr e i m).p_vaddr + (phdr e i m).p_memsz =
        omega (arith, ok.ends i h) in
      elim (Bool-cases (is_load (phdr e i m))) [
        | inl load ↦ rw load (omega (arith, end, pages, whole, ok.filesz i h))
        | inr zeroed ↦ rw zeroed (omega (arith, end, pages, whole))
      ]

  pub loadable : IsLoadable e len target (loader_bytes e m) m
  unfolding loader_pages
  loadable = record {
    header_in_file = ok.header_in_file;
    header_in_target =
        omega (arith, ok.header_in_target, num_pages_lem (get_mapped_size e m) ok.size);
    table_from = ok.table_from;
    table_to = ok.table_to;
    in_file = ok.in_file;
    in_target = extent_fits;
    elsewhere = elsewhere;
  }

  -- Of a file whose parts lie in it, whose segments end within 64 bits and which shares no byte
  -- with the pages that `efi_loader_map` asks for, every segment lies in those pages, and copying
  -- the header and the segments changes no byte outside of them.
  pub loader_pages_lem :
      ((i : ℕ)
        → i < (ehdr e m).e_phnum
        → (phdr e i m).p_vaddr + extent (phdr e i m) ≤ page_size * loader_pages e m)
      × Frame target (page_size * loader_pages e m) m (map_segments e target m)
  loader_pages_lem = (extent_fits, map_segments-Frame e len target (loader_bytes e m) m loadable)
