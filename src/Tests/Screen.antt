-- ===== src/Tests/Screen.antt =====
-- Video modes, and a message on an empty screen.
use hypervi.Base.{
  ℕ, ◌≡◌, inl, refl, arith, List, [], ◌∷◌, Option, none, some, ◌==◌, if◌then◌else◌, false,
}
use hypervi.Freestanding.Memory.{Bytes}
use hypervi.Loader.Gfx.{Images, select_mode}
use hypervi.Loader.Input.{Keyboard, IsTyped}
use hypervi.Loader.Console.{Console, write_from, efi_console_hex, efi_console_write}
use hypervi.Loader.Console.Text.{Drawn, efi_console_write-Drawn}
use hypervi.Loader.Gfx.{Blit}
use hypervi.Loader.Console.Cells.{Moved}
use hypervi.Loader.Console.Hex.{Shown, efi_console_hex-Shown}
use hypervi.Loader.Console.Write.{write_from-Moved}

-- The widest of the modes is number 2.
abbrev modes : List (Option ℕ)
modes = some 800 ∷ none ∷ some 1024 ∷ some 640 ∷ []

chosen_mode : select_mode modes 0 0 640 ≡ (2, 1024)
unfolding select_mode
chosen_mode = refl

-- "Hi" and a new line at 256, the buffer at 0x20000.
abbrev screen_memory : Bytes
screen_memory p =
    if p == 256 then b'H' else if p == 257 then b'i' else if p == 258 then b'\n' else 0

abbrev screen : Console
screen = record {
  events = 0;
  ctx = record {
    rows = 120;
    columns = 70;
    current_row = 0;
    current_column = 69;
    buffer = 0x20000;
    buffer_size = 16800;
    char_width = 8;
    char_height = 16;
  };
  test = false;
  memory = screen_memory;
}

-- Enter at every stroke.
abbrev keyboard : Keyboard
keyboard = record {
  strokes = λ n. some (record { scan_code = 0; unicode_char = 13 });
  key = record { scan_code = 0; unicode_char = 0 };
}

keyboard-IsTyped : IsTyped keyboard 3
keyboard-IsTyped n = (
  0,
  omega arith,
  record { scan_code = 0; unicode_char = 13 },
  (λ j from below. absurd (omega arith)),
  refl,
  inl (λ e. cc),
)

write_from-Moved_example :
    (c' : Console) × (write_from keyboard 3 4 256 screen ≡ some c') × Moved 12 70 screen c'
write_from-Moved_example =
    write_from-Moved keyboard 3 (b'H' ∷ b'i' ∷ b'\n' ∷ []) 4 256 screen keyboard-IsTyped
      (record { rows = refl; columns = refl }) (omega arith) (omega arith)
      (refl, omega arith, (refl, omega arith, (refl, omega arith, refl))) (inl (omega arith))
      (omega arith)

-- 255 from 17 bytes on the stack at 0x8000, on a core that is not the first.
abbrev images : Images
images = record {
  bitmapfont_image_width = 256;
  bitmapfont_image_height = 128;
  logo_image_width = 64;
  logo_image_height = 64;
}

efi_console_hex-Shown_example :
    Shown 0x8000 screen (efi_console_hex images keyboard 3 17 0x8000 255 1 screen)
efi_console_hex-Shown_example =
    efi_console_hex-Shown images keyboard 3 17 0x8000 255 1 screen keyboard-IsTyped (omega arith)
      (record { rows = refl; columns = refl }) (omega arith) (omega arith) (inl (omega arith))
      (omega arith)

-- "Hi" alone, on a line above the last.
abbrev short_message : Bytes
short_message p = if p == 256 then b'H' else if p == 257 then b'i' else 0

abbrev short_screen : Console
short_screen = record screen { memory = short_message }

efi_console_write-Drawn_example :
    (c' : Console) × (drawn : List Blit) × (efi_console_write images keyboard 1 3 256 1 short_screen
      ≡ some (c', drawn))
    × Drawn (b'H' ∷ b'i' ∷ []) short_screen c'
efi_console_write-Drawn_example =
    efi_console_write-Drawn images keyboard (b'H' ∷ b'i' ∷ []) 1 3 256 1 short_screen
      (refl, omega arith, (refl, omega arith, refl)) ((refl, refl), ((refl, refl), tt))
      (omega arith) (inl (omega arith)) (omega arith)
