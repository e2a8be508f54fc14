-- ===== src/Loader/Gfx.antt =====
-- Drawing of characters and the choice of a video mode: loader/efi/gfx.cc. What is handed to `blt`
-- of the firmware is a list of calls.
pub mod Mode
pub mod Init
pub mod Screen
use hypervi.Base.{
  ℕ, zero, suc, ◌+◌, ◌-◌, ◌*◌, ◌/◌, ◌%◌, ◌^◌, List, [], ◌∷◌, ◌++◌, ◌>>=◌, Option, none, some, ◌==◌,
  if◌then◌else◌, ltb, leb, u64,
}
use hypervi.Freestanding.Memory.{Bytes}

-- The sizes of the two images, which the build generates.
pub record Images : Type 0 where
  pub bitmapfont_image_width : ℕ
  pub bitmapfont_image_height : ℕ
  pub logo_image_width : ℕ
  pub logo_image_height : ℕ

pub data Image : Type 0 where
  bitmapfont_image_data : Image
  logo_image_data : Image

-- A call of `efi_gfx_blit`.
pub record Blit : Type 0 where
  pub image_data : Image
  pub image_width : ℕ
  pub width : ℕ
  pub height : ℕ
  pub dest_x : ℕ
  pub dest_y : ℕ
  pub source_x : ℕ
  pub source_y : ℕ

-- A byte as a `char`, which is signed: division and remainder go towards 0, and the result is
-- converted to 64 bits.
abbrev pub char_div : (character d : ℕ) → ℕ
char_div character d =
    if ltb character 128 then character / d else u64 (2 ^ 64 - (256 - character) / d)

abbrev pub char_mod : (character d : ℕ) → ℕ
char_mod character d =
    if ltb character 128 then character % d else u64 (2 ^ 64 - (256 - character) % d)

module _ (I : Images) where
  -- `efi_gfx_get_char_size`
  abbrev pub char_width : ℕ
  char_width = I.bitmapfont_image_width / 32

  abbrev pub char_height : ℕ
  char_height = I.bitmapfont_image_height / 8

  unfoldable pub efi_gfx_char : (x y character : ℕ) → List Blit
  efi_gfx_char x y character =
      if character == 0
      then []
      else (record {
        image_data = bitmapfont_image_data;
        image_width = I.bitmapfont_image_width;
        width = char_width;
        height = char_height;
        dest_x = x;
        dest_y = y;
        source_x = u64 (char_mod character 32 * char_width);
        source_y = u64 (char_div character 32 * char_height);
      }
          ∷ [])

  -- The loop of `efi_gfx_string`, on fuel: `none` means that it still runs.
  unfoldable pub draw_string : (fuel start_x x y string : ℕ) → Bytes → Option (List Blit)
  draw_string zero start_x x y string m = none
  draw_string (suc fuel) start_x x y string m =
      let current = m string in
      let newline = current == b'\n' in
      let next_x = (if newline then start_x else u64 (x + char_width)) in
      let next_y = (if newline then u64 (y + char_height) else y) in
      let rest = draw_string fuel start_x next_x next_y (string + 1) m in
      if current == 0
      then some []
      else (do drawn ← rest; some ((if newline then [] else efi_gfx_char x y current) ++ drawn))

  -- `nullptr_text` is the address of the literal that stands for a null pointer.
  unfoldable pub efi_gfx_string : (fuel nullptr_text x y string : ℕ) → Bytes → Option (List Blit)
  efi_gfx_string fuel nullptr_text x y string m =
      draw_string fuel x x y (if string == 0 then nullptr_text else string) m

-- The loop over the modes in `efi_gfx_init`, from mode `i` on: `current_mode` and
-- `current_width`. A mode is the width that `query_mode` gives, or `none` where it fails.
unfoldable pub select_mode : (modes : List (Option ℕ)) (i current_mode current_width : ℕ) → ℕ × ℕ
select_mode [] i current_mode current_width = (current_mode, current_width)
select_mode (none ∷ l) i current_mode current_width =
    select_mode l (i + 1) current_mode current_width
select_mode (some horizontal_resolution ∷ l) i current_mode current_width =
    let wider = leb current_width horizontal_resolution in
    let mode = (if wider then i else current_mode) in
    let width = (if wider then horizontal_resolution else current_width) in
    select_mode l (i + 1) mode width
