-- ===== src/Loader/Console.antt =====
-- The text console of loader/efi/console.cc, over memory as bytes and the keys of input.cc.
pub mod Cells
pub mod Write
pub mod Hex
pub mod Text
use hypervi.Base.{
  ℕ, zero, suc, ◌+◌, ◌-◌, ◌*◌, ◌/◌, ◌^◌, Bool, true, false, List, [], ◌∷◌, ◌++◌, Option, none, some,
  ◌>>=◌, ◌==◌, if◌then◌else◌, leb, u64, for_range,
}
use hypervi.Freestanding.Memory.{Bytes, set_byte, stosb}
use hypervi.Freestanding.Libc.Itoa.{itoa}
use hypervi.Loader.Allocator.{out_address}
use hypervi.Loader.Input.{Keyboard, efi_input_wait_for_key}
use hypervi.Loader.Gfx.{Images, Blit, char_width, char_height, efi_gfx_char, logo_image_data}

-- `efi_console_ctx`
pub record EfiConsoleCtx : Type 0 where
  pub rows : ℕ
  pub columns : ℕ
  pub current_row : ℕ
  pub current_column : ℕ
  pub buffer : ℕ
  pub buffer_size : ℕ
  pub char_width : ℕ
  pub char_height : ℕ

-- `ctx`, the flag `test` of `efi_console_draw`, memory, and the number of key events waited for.
pub record Console : Type 0 where
  pub events : ℕ
  pub ctx : EfiConsoleCtx
  pub test : Bool
  pub memory : Bytes

-- `answer` is what `allocate_pages` of the firmware stores.
unfoldable pub efi_console_init : Images → (answer : Option ℕ) → Console → Console
efi_console_init I answer c =
    let rows : ℕ = 120 in
    let columns : ℕ = 70 in
    let buffer_size : ℕ = rows * columns * 1 * 2 in
    let buffer = out_address answer c.ctx.buffer in
    record c {
      ctx = record {
        rows = rows;
        columns = columns;
        current_row = 0;
        current_column = 0;
        buffer = buffer;
        buffer_size = buffer_size;
        char_width = char_width I;
        char_height = char_height I;
      };
      memory = stosb buffer 0 buffer_size c.memory;
    }

unfoldable pub efi_console_setcell : (x y character attribute : ℕ) → Console → Console
unfolding set_byte
efi_console_setcell x y character attribute c =
    let idx = y * c.ctx.rows + x in
    let first = set_byte (c.ctx.buffer + idx) character c.memory in
    record c { memory = set_byte (c.ctx.buffer + (idx + 1)) attribute first }

unfoldable pub efi_console_fill : (character attribute : ℕ) → Console → Console
unfolding efi_console_setcell for_range
efi_console_fill character attribute c =
    for_range c.ctx.columns 0
      (λ y c. for_range c.ctx.rows 0 (λ x c. efi_console_setcell x y character attribute c) c) c

abbrev pub move_cursor : (current_row current_column : ℕ) → Console → Console
move_cursor row column c = record c {
  ctx = record c.ctx { current_row = row; current_column = column };
}

-- One round of the loop of `efi_console_write`: where the screen is full, the cursor goes back to
-- the start, a key is waited for on the fuel `wait`, and the screen is cleared; `none` means that
-- the wait still runs. Then comes the character.
unfoldable pub make_room : (K : Keyboard) (wait : ℕ) → Console → Option Console
make_room K wait c =
    if leb c.ctx.columns c.ctx.current_column
    then (do
      events ← efi_input_wait_for_key wait K.strokes c.events K.key
      some (efi_console_fill 0x20 0 (record (move_cursor 0 0 c) { events = events })))
    else some c

unfoldable pub put_char : (character : ℕ) → Console → Console
put_char character c =
    if character == b'\n'
    then move_cursor 0 (c.ctx.current_column + 1) c
    else if character == b'\t'
    then move_cursor (c.ctx.current_row + 4) c.ctx.current_column c
    else let set = efi_console_setcell c.ctx.current_row c.ctx.current_column character 0 c in
      move_cursor (c.ctx.current_row + 1) c.ctx.current_column set

-- The loop, on fuel: `none` means that it still runs.
unfoldable pub write_from : (K : Keyboard) (wait fuel curr_char : ℕ) → Console → Option Console
write_from K wait zero curr_char c = none
write_from K wait (suc fuel) curr_char c =
    let rest = (do
      roomy ← make_room K wait c
      write_from K wait fuel (curr_char + 1) (put_char (roomy.memory curr_char) roomy)) in
    if c.memory curr_char == 0 then some c else rest

module _ (I : Images) where
  -- The logo is drawn the first time.
  unfoldable pub efi_console_draw : Console → Console × List Blit
  efi_console_draw c =
      let cells =
        for_range c.ctx.columns 0
          (λ y drawn.
            for_range c.ctx.rows 0
              (λ x drawn.
                drawn
                ++ efi_gfx_char I (u64 (x * c.ctx.char_width)) (u64 (y * c.ctx.char_height))
                    (c.memory (c.ctx.buffer + (y * c.ctx.rows + x))))
              drawn)
          [] in
      let logo : Blit = record {
        image_data = logo_image_data;
        image_width = I.logo_image_width;
        width = I.logo_image_width;
        height = I.logo_image_height;
        dest_x = u64 (2 ^ 64 + 1920 - I.logo_image_width);
        dest_y = u64 (2 ^ 64 + 1080 - I.logo_image_height);
        source_x = 0;
        source_y = 0;
      } in
      (record c { test = true }, if c.test then cells else cells ++ (logo ∷ []))

  -- `whoami` is what the multiprocessor service answers.
  unfoldable pub efi_console_write :
      (K : Keyboard) (wait fuel message whoami : ℕ) → Console → Option (Console × List Blit)
  efi_console_write K wait fuel message whoami c = do
    c' ← write_from K wait fuel message c
    some (if whoami == 0 then efi_console_draw c' else (c', []))

  -- `buff` is the address of the 17 bytes on the stack.
  unfoldable pub efi_console_hex :
      (K : Keyboard) (wait fuel buff number whoami : ℕ) → Console → Option (Console × List Blit)
  efi_console_hex K wait fuel buff number whoami c = do
    printed ← itoa number buff 16 1 0 c.memory
    efi_console_write K wait fuel buff whoami (record c { memory = printed.1 })
