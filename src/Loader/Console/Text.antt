-- ===== src/Loader/Console/Text.antt =====
-- Plain text on the console: where its characters stand in the buffer.
use mathlib.Core.Option.{some-injective}
use hypervi.Base.{
  ℕ, zero, suc, ◌+◌, ◌*◌, ◌<◌, ◌≤◌, ◌≡◌, ◌≢◌, ◌⊎◌, inl, inr, refl, sym, ap, ◌∙◌, arith, false, List,
  [], ◌∷◌, some, ◌==◌, leb, length, All, get_elem?, Bool-cases,
}
use hypervi.Freestanding.Memory.{Bytes, set_byte}
use hypervi.Freestanding.Memory.Laws.{set_byte_self, set_byte-ne}
use hypervi.Freestanding.Libc.Strings.{IsString, IsString-same}
use hypervi.Loader.Input.{Keyboard}
use hypervi.Loader.Console.{
  Console, efi_console_setcell, move_cursor, make_room, put_char, write_from, efi_console_draw,
  efi_console_write,
}
use hypervi.Loader.Gfx.{Images, Blit}

-- The address of the cell under the cursor.
abbrev pub cursor : Console → ℕ
cursor c = c.ctx.buffer + (c.ctx.current_column * c.ctx.rows + c.ctx.current_row)

-- A character that is drawn: neither a new line nor a tab.
abbrev pub IsPlain : ℕ → Type 0
IsPlain x = ((x == b'\n') ≡ false) × ((x == b'\t') ≡ false)

-- The characters of a text stand from an address on.
abbrev pub Spelled : (text : List ℕ) (p : ℕ) → Bytes → Type 0
Spelled text p m = (i x : ℕ) → get_elem? text i ≡ some x → m (p + i) ≡ x

abbrev behind_cursor : Console → ℕ
behind_cursor c = c.ctx.buffer + (c.ctx.current_column * c.ctx.rows + c.ctx.current_row + 1)

-- One plain character.
abbrev after_one : (x : ℕ) → Console → Console
after_one x c =
    move_cursor (c.ctx.current_row + 1) c.ctx.current_column
      (efi_console_setcell c.ctx.current_row c.ctx.current_column x 0 c)

put_plain : (x : ℕ) (c : Console) → IsPlain x → put_char x c ≡ after_one x c
unfolding put_char
put_plain x c plain = rw (plain.0, plain.1) refl

room_memory :
    (K : Keyboard) (wait : ℕ) (c : Console)
    → c.ctx.current_column < c.ctx.columns
    → make_room K wait c ≡ some c
unfolding make_room
room_memory K wait c room =
    let no_wrap : leb c.ctx.columns c.ctx.current_column ≡ false = ground arith in rw no_wrap refl

after_one-cell : (x : ℕ) (c : Console) → (after_one x c).memory (cursor c) ≡ x
unfolding efi_console_setcell
after_one-cell x c =
    set_byte-ne (behind_cursor c) 0 (cursor c) (set_byte (cursor c) x c.memory) (λ e. omega arith)
    ∙ set_byte_self (cursor c) x c.memory

after_one-same :
    (x q : ℕ) (c : Console)
    → q ≢ cursor c
    → q ≢ cursor c + 1
    → (after_one x c).memory q ≡ c.memory q
unfolding efi_console_setcell
after_one-same x q c ne ne' =
    set_byte-ne (behind_cursor c) 0 q (set_byte (cursor c) x c.memory)
      (λ e. ne' (sym e ∙ omega arith))
    ∙ set_byte-ne (cursor c) x q c.memory (λ e. ne (sym e))

first_and_rest :
    (x : ℕ) (text : List ℕ) (p : ℕ) (m : Bytes)
    → m p ≡ x
    → Spelled text (p + 1) m
    → Spelled (x ∷ text) p m
first_and_rest x text p m first rest zero y e = ap m (omega arith) ∙ first ∙ some-injective x y e
first_and_rest x text p m first rest (suc i) y e = ap m (omega arith) ∙ rest i y e

-- What stays below the cursor, and the characters from it on.
abbrev pub Drawn : (text : List ℕ) → Console → Console → Type 0
Drawn text c c' =
    (c'.ctx.current_row ≡ c.ctx.current_row + length text)
    × (c'.ctx.current_column ≡ c.ctx.current_column)
    × ((q : ℕ) → q < cursor c → c'.memory q ≡ c.memory q)
    × Spelled text (cursor c) c'.memory

write_from-Drawn :
    (K : Keyboard) (wait : ℕ) (text : List ℕ) (fuel message : ℕ) (c : Console)
    → IsString c.memory message text
    → All IsPlain text
    → c.ctx.current_column < c.ctx.columns
    → (message + length text + 1 ≤ cursor c) ⊎ (cursor c + length text + 1 ≤ message)
    → length text < fuel
    → (c' : Console) × (write_from K wait fuel message c ≡ some c') × Drawn text c c'
unfolding write_from efi_console_setcell
write_from-Drawn K wait text zero message c spelled plain room apart enough = absurd (omega arith)
write_from-Drawn K wait [] (suc fuel) message c spelled plain room apart enough =
    rw spelled (c, refl, (omega arith, refl, (λ q below. refl), λ i x e. cc))
write_from-Drawn K wait (x ∷ text) (suc fuel) message c spelled plain room apart enough =
    let c1 = after_one x c in
    let this : c.memory message ≡ x = spelled.0 in
    let more : (x == 0) ≡ false = let ne = spelled.1 in ground arith in
    let still = λ (q : ℕ) (from : message + 1 ≤ q) (to : q < message + 1 + length text + 1).
      after_one-same x q c (λ e. omega arith) (λ e. omega arith) in
    let (c', ran, (row, column, below, drawn)) =
      write_from-Drawn K wait text fuel (message + 1) c1
        (IsString-same c.memory c1.memory (message + 1) text still spelled.2) plain.1 room
        (omega arith) (omega arith) in
    rw (room_memory K wait c room, this, more, put_plain x c plain.0)
      (
        c',
        ran,
        (
          omega arith,
          column,
          (λ q h.
              below q (omega arith) ∙ after_one-same x q c (λ e. omega arith) (λ e. omega arith)),
          first_and_rest x text (cursor c) c'.memory
              (below (cursor c) (omega arith) ∙ after_one-cell x c)
              (λ i y e. ap c'.memory (omega arith) ∙ drawn i y e),
        ),
      )

-- A plain text that ends, outside of its own cells, with the cursor on the screen: `efi_console_write`
-- ends, and the characters stand in the buffer from the cell under the cursor on, one for each
-- byte. The cursor moves on by their number, and the cells before it stay.
pub efi_console_write-Drawn :
    (I : Images) (K : Keyboard) (text : List ℕ) (wait fuel message whoami : ℕ) (c : Console)
    → IsString c.memory message text
    → All IsPlain text
    → c.ctx.current_column < c.ctx.columns
    → (message + length text + 1 ≤ cursor c) ⊎ (cursor c + length text + 1 ≤ message)
    → length text < fuel
    → (c' : Console) × (drawn : List Blit) × (efi_console_write I K wait fuel message whoami c
        ≡ some (c', drawn))
      × Drawn text c c'
unfolding efi_console_write efi_console_draw
efi_console_write-Drawn I K text wait fuel message whoami c spelled plain room apart enough =
    let (c', ran, shown) =
      write_from-Drawn K wait text fuel message c spelled plain room apart enough in
    elim (Bool-cases (whoami == 0)) [
      | inl first ↦ rw (ran, first) (_, _, refl, shown)
      | inr other ↦ rw (ran, other) (c', [], refl, shown)
    ]
