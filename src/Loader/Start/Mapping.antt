-- ===== src/Loader/Start/Mapping.antt =====
-- Mapping the hypervisor: `efi_loader_map` with a complete file.
use hypervi.Base.{ℕ, ◌+◌, ◌≤◌, ◌<◌, ◌≡◌, ◌⊎◌, Option, some, refl}
use hypervi.Freestanding.Memory.Laws.{Frame}
use hypervi.Freestanding.Elf.{Shdr}
use hypervi.Freestanding.ElfMapper.{ElfMapper, Literals, ehdr, elf_mapper, get_entrypoint}
use hypervi.Freestanding.ElfMapper.Image.{image}
use hypervi.Freestanding.ElfMapper.Linked.{IsLinked, read_ehdr-Frame}
use hypervi.Freestanding.ElfMapper.Slots.{IsSlot}
use hypervi.Freestanding.ElfMapper.Map.{map_to_lem}
use hypervi.Loader.Allocator.{out_address}
use hypervi.Loader.Start.{LoaderState, efi_loader_imports, efi_loader_map, loader_pages}
use hypervi.Loader.Start.Pages.{IsElfFile, loader_bytes, loadable}

module _ (name function : ℕ → ℕ) (answer : Option ℕ) (s : LoaderState) where
  -- The mapper of the file that was read, and where the pages are.
  abbrev pub visor_mapper : ElfMapper
  visor_mapper = elf_mapper s.visor_real (efi_loader_imports name function) s.memory

  abbrev pub visor_target : ℕ
  visor_target = out_address answer s.visor_mapped

-- With a file whose headers, sections and names are complete, pages that share no byte with it,
-- and a variable that still holds the section of `.dynstr` when it is read behind its loop,
-- `efi_loader_map` comes to the call of the hypervisor: it asks for the pages of the mapped size,
-- calls the address that stands as far behind their start as the header's entry says, and changes
-- no byte outside of them. In them
-- each byte that no relocation and no entry of a `.got` section covers is that of the image.
pub efi_loader_map_lem :
    (fuel : ℕ) (lit : Literals) (name function : ℕ → ℕ) (answer : Option ℕ) (s : LoaderState)
    → (len : ℕ)
    → let e = visor_mapper name function answer s in
      let target = visor_target name function answer s in
      IsElfFile e len s.memory
      → (e.m_file + len ≤ target) ⊎ (target + loader_bytes e s.memory ≤ e.m_file)
      → IsLinked e fuel lit target (loader_bytes e s.memory) s.memory
      → ((d : Shdr) → lit.dead_section d ≡ d)
      → (s' : LoaderState) × (efi_loader_map fuel lit name function answer s
          ≡ some (loader_pages e s.memory, s'))
        × (s'.visor_mapped ≡ target)
        × (s'.hypervisor_main ≡ target + (ehdr e s.memory).e_entry)
        × Frame target (loader_bytes e s.memory) s.memory s'.memory
        × ((q : ℕ)
            → ((p : ℕ)
                → IsSlot e fuel lit target s.memory p
                → (target + q < p) ⊎ (p + 8 ≤ target + q))
            → s'.memory (target + q) ≡ image e target s.memory (ehdr e s.memory).e_phnum q)
unfolding efi_loader_map get_entrypoint
efi_loader_map_lem fuel lit name function answer s len file elsewhere linked alive =
    let e = visor_mapper name function answer s in
    let target = visor_target name function answer s in
    let size = loader_bytes e s.memory in
    let (m', ran, frame, rest) =
      map_to_lem e fuel lit len target size s.memory (loadable e len target s.memory file elsewhere)
        linked alive in
    let same = read_ehdr-Frame fuel target size s.memory m' frame e.m_file linked.header in
    rw ran (_, refl, refl, rw same refl, frame, rest)
