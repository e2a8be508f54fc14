-- ===== src/Freestanding/ElfMapper/Map.antt =====
-- The whole of `map_to`: it ends, only the target changes, and what it then holds.
use hypervi.Base.{ℕ, ◌+◌, ◌<◌, ◌≤◌, ◌≡◌, ◌⊎◌, refl, ◌∙◌, arith, some}
use hypervi.Freestanding.Memory.{Bytes}
use hypervi.Freestanding.Memory.Laws.{Frame, write_le-Frame, write_le_within}
use hypervi.Freestanding.Elf.{Shdr}
use hypervi.Freestanding.ElfMapper.{
  ElfMapper, Literals, read_dead, ehdr, string_section, find_dynstr, find_dynsyms, map_segments,
  map_to,
}
use hypervi.Freestanding.ElfMapper.Image.{IsLoadable, image}
use hypervi.Freestanding.ElfMapper.Segments.{map_segments-Frame, map_segments-image}
use hypervi.Freestanding.ElfMapper.Linked.{IsLinked}
use hypervi.Freestanding.ElfMapper.Searches.{
  dynstr_found, dynsyms_found, find_dynstr_same, find_dynsyms_same, shdr_same, ehdr_same,
}
use hypervi.Freestanding.ElfMapper.Slots.{IsSlot, got_entry, relocation, relocate_all-Kept}

-- A slot lies in the target.
slot_inside :
    (e : ElfMapper) (fuel : ℕ) (lit : Literals) (target size : ℕ) (m : Bytes) (dynstr : Shdr)
    → (dynsyms : ℕ) → IsLinked e fuel lit target size m
    → find_dynstr e fuel lit.dynstr (string_section e m) (ehdr e m).e_shnum 0 m ≡ some (some dynstr)
    → find_dynsyms e (ehdr e m).e_shnum 0 m ≡ some dynsyms
    → (p : ℕ) → IsSlot e fuel lit target m p
    → (target ≤ p) × (p + 8 ≤ target + size)
slot_inside e fuel lit target size m dynstr dynsyms linked strings_found symbols_found _
      (got_entry i j h name below) =
    let fits = linked.got i h name in (omega arith, omega arith)
slot_inside e fuel lit target size m dynstr dynsyms linked strings_found symbols_found _
      (relocation i k h type below) =
    let r = linked.relocations i k dynstr dynsyms h type below strings_found symbols_found in
    (omega arith, omega (arith, r.slot))

-- Memory after the segments `s` and some writes of slots.
abbrev After :
    (e : ElfMapper) (fuel : ℕ) (lit : Literals) (target size : ℕ) (m s : Bytes) → Bytes → Type 0
After e fuel lit target size m s t =
    Frame target size m t
    × ((q : ℕ) → ((p : ℕ) → IsSlot e fuel lit target m p → (q < p) ⊎ (p + 8 ≤ q)) → t q ≡ s q)

-- Where the variable that `dynstr_section` points at still holds its section when it is read,
-- `map_to` of a file of `len` bytes with complete headers, sections and names ends. It changes no
-- byte outside of the target, and inside it each byte that is in no entry of a `.got` section and in no word that a relocation points at is that of the image: the last segment's that covers it, else the header's.
pub map_to_lem :
    (e : ElfMapper) (fuel : ℕ) (lit : Literals) (len target size : ℕ) (m : Bytes)
    → IsLoadable e len target size m
    → IsLinked e fuel lit target size m
    → ((d : Shdr) → lit.dead_section d ≡ d)
    → (m' : Bytes) × (map_to e fuel lit target m ≡ some m')
      × Frame target size m m'
      × ((q : ℕ)
          → ((p : ℕ) → IsSlot e fuel lit target m p → (target + q < p) ⊎ (p + 8 ≤ target + q))
          → m' (target + q) ≡ image e target m (ehdr e m).e_phnum q)
unfolding map_to read_dead string_section
map_to_lem e fuel lit len target size m loadable linked alive =
    let s = map_segments e target m in
    let frame = map_segments-Frame e len target size m loadable in
    let (k, inside, type, name) = linked.some_dynstr in
    let (dynstr, strings_found) =
      dynstr_found e fuel lit target size m linked (ehdr e m).e_shnum 0 k (omega arith)
        (omega arith) inside type name in
    let (j, inside', type') = linked.some_dynsym in
    let (dynsyms, symbols_found) =
      dynsyms_found e fuel lit target size m linked (ehdr e m).e_shnum 0 j (omega arith)
        (omega arith) inside' type' in
    let slot_in =
      slot_inside e fuel lit target size m dynstr dynsyms linked strings_found symbols_found in
    let (m', ran, (frame', rest)) =
      relocate_all-Kept e fuel lit target size m linked (After e fuel lit target size m s)
        (λ t inv. inv.0)
        (λ p v t at inv. (
          write_le_within 8 p v target size m t inv.0 (slot_in p at).0 (slot_in p at).1,
          λ q out. write_le-Frame 8 p v t q (out p at) ∙ inv.1 q out,
        ))
        dynstr dynsyms strings_found symbols_found (ehdr e m).e_shnum 0 s (frame, λ q out. refl)
        (omega arith) in
    rw
      (
        ehdr_same e fuel lit target size m linked s frame,
        shdr_same e fuel lit target size m linked s frame (ehdr e m).e_shstrndx linked.string_index,
        find_dynstr_same e fuel lit target size m linked s frame (ehdr e m).e_shnum 0 (omega arith),
        find_dynsyms_same e fuel lit target size m linked s frame (ehdr e m).e_shnum 0
            (omega arith),
        strings_found,
        alive dynstr,
        symbols_found,
      )
      (
        m',
        ran,
        frame',
        λ q out. rest (target + q) out ∙ (map_segments-image e len target size m loadable).0 q,
      )
