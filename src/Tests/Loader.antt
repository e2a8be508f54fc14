-- ===== src/Tests/Loader.antt =====
-- A run of the loader from its entry to its end, its video mode, its volumes and its keys.
use hypervi.Base.{
  ℕ, ◌≡◌, ◌⊎◌, inl, refl, sym, ap, ◌∙◌, zero, suc, arith, List, [], ◌∷◌, ◌==◌, if◌then◌else◌, true,
  false, Option, none, some, get_elem?, All, ◌<◌, ◌+◌,
}
use mathlib.Core.Option.{some-injective}
use hypervi.Loader.Allocator.{Table, free_entry}
use hypervi.Loader.Allocator.Live.{block}
use hypervi.Loader.Gfx.Init.{Gop, GopMode, GfxState, handle_protocols, efi_gfx_init}
use hypervi.Loader.Gfx.Screen.{IsGop, Widest, efi_gfx_init_lem}
use hypervi.Loader.Start.Volumes.{FsState, Volume, Opened, efi_fs_init, efi_fs_find_file, set_root}
use hypervi.Loader.Start.Search.{IsVolume, efi_fs_find_file_lem}
use hypervi.Loader.Input.{EfiStipKey, efi_input_wait_for_key, efi_input_wait_for_key-ends}
use hypervi.Loader.Main.{World, Firmware}
use hypervi.Tests.Gdt.{intel_gdt}
use hypervi.Tests.Linked.{linked_elf, linked_literals, import_name}

-- A protocol at 700 with three modes, of which number 2 is the widest.
abbrev small_mode : GopMode
small_mode = record { mode = 0; horizontal_resolution = 640; vertical_resolution = 480 }

abbrev large_mode : GopMode
large_mode = record { mode = 2; horizontal_resolution = 1024; vertical_resolution = 768 }

abbrev small_gop : Gop
small_gop = record {
  current = small_mode;
  query_mode = some 640 ∷ none ∷ some 1024 ∷ [];
  set_mode = λ k. if k == 2 then some large_mode else none;
}

abbrev dark : GfxState
dark = record { gop = 0; protocols = λ a. small_gop; fills = [] }

mode_after :
    (k w : ℕ) (mode : GopMode)
    → get_elem? small_gop.query_mode k ≡ some (some w)
    → small_gop.set_mode k ≡ some mode
    → w ≡ mode.horizontal_resolution
mode_after zero w mode e set = cc
mode_after (suc zero) w mode e set = cc
mode_after (suc (suc zero)) w mode e set =
    sym (some-injective _ _ (some-injective _ _ e))
    ∙ ap (λ (m : GopMode). m.horizontal_resolution) (some-injective large_mode mode set)
mode_after (suc (suc (suc k))) w mode e set = cc

small_gop-IsGop : IsGop small_gop
small_gop-IsGop = record {
  now = λ w e. sym (some-injective _ _ (some-injective _ _ e));
  after = mode_after;
}

efi_gfx_init_lem_example :
    (s' : GfxState) × (efi_gfx_init (some ((none, false) ∷ (some 700, true) ∷ [])) dark ≡ some s')
    × (s'.gop ≡ 700)
    × (Widest dark s' small_gop.query_mode
        ⊎ ((s'.fills ≡ []) × ((k : ℕ) × (small_gop.set_mode k ≡ none))))
unfolding handle_protocols
efi_gfx_init_lem_example =
    efi_gfx_init_lem ((none, false) ∷ (some 700, true) ∷ []) dark (λ e. omega arith) small_gop-IsGop

abbrev two_volumes : List Volume
two_volumes =
    record { supported = true; root = some 800; label = λ i. 0 }
    ∷ record { supported = true; root = some 900; label = λ i. if i == 2 then 0 else 65 }
    ∷ []

two_volumes_open : All IsVolume two_volumes
two_volumes_open = (
  λ e. ((λ h. omega arith), (0, omega arith, refl)),
  (λ e. ((λ h. omega arith), (2, omega arith, refl)), tt),
)

abbrev no_volumes : FsState
no_volumes = record { fs_roots = λ i. 0; fs_root_count = 0 }

-- The file is on the second volume.
abbrev open_root : ℕ → Opened
open_root root = if root == 900 then (some 950, true) else (none, false)

efi_fs_find_file_lem_example :
    (s' : FsState) × (efi_fs_init (some two_volumes) no_volumes ≡ some s')
    × (efi_fs_find_file open_root s' ≡ some 950)
efi_fs_find_file_lem_example =
    efi_fs_find_file_lem open_root two_volumes no_volumes two_volumes_open (λ j. refl)

abbrev no_key : EfiStipKey
no_key = record { scan_code = 0; unicode_char = 0 }

abbrev enter : EfiStipKey
enter = record { scan_code = 0; unicode_char = 13 }

-- Two empty strokes, then a key.
abbrev strokes : ℕ → Option EfiStipKey
strokes n = if n == 2 then some enter else some no_key

strokes-before : (j : ℕ) → j < 2 → strokes j ≡ some no_key
strokes-before j h = let other : (j == 2) ≡ false = ground arith in rw other refl

efi_input_wait_for_key-ends_example : efi_input_wait_for_key 3 strokes 0 no_key ≡ some 3
efi_input_wait_for_key-ends_example =
    (efi_input_wait_for_key-ends strokes no_key).0 2 enter
      (λ j h. (no_key, strokes-before j h, (refl, refl))) refl (inl (λ e. cc)) 3 (omega arith)

abbrev two_entries : Table
two_entries = free_entry ∷ free_entry ∷ free_entry ∷ []

-- The file of the hypervisor is read to 4096 and mapped at 65536.
abbrev firmware : Firmware
firmware = record {
  mp = some 600;
  handles = some ((some 700, true) ∷ []);
  images = record {
    bitmapfont_image_width = 256;
    bitmapfont_image_height = 128;
    logo_image_width = 100;
    logo_image_height = 100;
  };
  console_pages = some 0x20000;
  table_pages = some (block 9 9 ∷ block 9 9 ∷ block 9 9 ∷ []);
  stub = λ i. 1000 + i;
  idt_pages = some 0x40000;
  layout = intel_gdt;
  gdt_pages = some 0x60000;
  volumes = some two_volumes;
  open_root = open_root;
  file_size = some 800;
  file_pages = some 4096;
  read = λ buffer size m. linked_elf;
  literals = linked_literals;
  import_name = import_name;
  import_function = λ k. 7000 + k;
  visor_pages = some 65536;
  hypervisor = λ entry m. m;
  strokes = strokes;
  key = no_key;
}

abbrev start : World
start = record {
  mp = 0;
  gfx = dark;
  ctx = record {
    rows = 0;
    columns = 0;
    current_row = 0;
    current_column = 0;
    buffer = 0;
    buffer_size = 0;
    char_width = 0;
    char_height = 0;
  };
  test = false;
  efi_idtr = record { limit = 0; base_address = 0 };
  custom_idt = 0;
  custom_idtr = record { limit = 0; base_address = 0 };
  efi_gdtr = record { limit = 0; base_address = 0 };
  new_gdt = 0;
  new_tss = 0x70000;
  fs = no_volumes;
  visor_file = 0;
  visor_real = 0;
  visor_mapped = 0x00800000;
  hypervisor_main = 0;
  memory = λ q. 0;
  allocations = [];
  idtr = record { limit = 0xff; base_address = 0x30000 };
  gdtr = record { limit = 0x2f; base_address = 0x50000 };
  tr = 0;
}

abbrev lit_screen : GfxState
lit_screen = record {
  gop = 700;
  protocols = λ a. if a == 700 then record small_gop { current = large_mode } else small_gop;
  fills = (1024, 768) ∷ [];
}

abbrev opened : FsState
opened = record { fs_roots = set_root 1 900 (set_root 0 800 (λ i. 0)); fs_root_count = 2 }
