-- ===== src/Loader/Console/Write.antt =====
-- Writing a message.
use hypervi.Base.{
  ℕ, zero, suc, ◌+◌, ◌*◌, ◌<◌, ◌≤◌, ◌≡◌, ◌⊎◌, refl, ◌∙◌, arith, List, [], ◌∷◌, some, length, ◌==◌,
  false, true,
}
use hypervi.Freestanding.Libc.Strings.{IsString, IsString-same}
use hypervi.Loader.Input.{Keyboard, IsTyped}
use hypervi.Loader.Console.{Console, make_room, put_char, write_from}
use hypervi.Loader.Console.Cells.{
  buffer_bytes, IsSized, Drawn-refl, Drawn-trans, Moved, make_room-Moved, put_char-Moved,
}

-- A message of `n` bytes, its end included, shares no byte with the buffer.
abbrev pub IsElsewhere : (c : Console) (p n : ℕ) → Type 0
IsElsewhere c p n = (p + n ≤ c.ctx.buffer) ⊎ (c.ctx.buffer + buffer_bytes ≤ p)

-- One round of the loop.
round-Moved :
    (K : Keyboard) (wait : ℕ) (c : Console) (p : ℕ)
    → IsTyped K wait
    → IsSized c
    → c.ctx.current_column ≤ 70
    → c.ctx.current_row ≤ 8400
    → (roomy : Console) × (make_room K wait c ≡ some roomy)
      × Moved 4 70 c (put_char (roomy.memory p) roomy)
round-Moved K wait c p typed size column row =
    let (roomy, made, room) = make_room-Moved K wait c typed size column in
    let put =
      put_char-Moved (roomy.memory p) roomy
        (record { rows = room.drawn.rows ∙ size.rows; columns = room.drawn.columns ∙ size.columns })
        room.column (omega (arith, room.row)) in
    (
      roomy,
      made,
      record {
        drawn = Drawn-trans c roomy (put_char (roomy.memory p) roomy) room.drawn put.drawn;
        row = omega (arith, put.row, room.row);
        column = put.column;
      },
    )

-- With a keyboard on which a key is read before `wait` empty strokes, a cursor that four cells for
-- each byte of the message keep within 8400 of the start of its line, and a message elsewhere in
-- memory, the loop of `efi_console_write` ends within as many rounds as the message has bytes, its
-- end included, also where the screen is full and a key is waited for; the screen keeps its size,
-- the cursor stays within the 70 columns, and no byte outside the buffer changes.
pub write_from-Moved :
    (K : Keyboard) (wait : ℕ) (s : List ℕ) (fuel p : ℕ) (c : Console)
    → IsTyped K wait
    → IsSized c
    → c.ctx.current_column ≤ 70
    → c.ctx.current_row + 4 * length s ≤ 8400
    → IsString c.memory p s
    → IsElsewhere c p (length s + 1)
    → length s < fuel
    → (c' : Console) × (write_from K wait fuel p c ≡ some c') × Moved (4 * length s) 70 c c'
unfolding write_from
write_from-Moved K wait s zero p c typed size column row text apart enough = absurd (omega arith)
write_from-Moved K wait [] (suc fuel) p c typed size column row text apart enough =
    let ended : (c.memory p == 0) ≡ true = ground arith in
    (c, rw ended refl, record { drawn = Drawn-refl c; row = omega arith; column = column })
write_from-Moved K wait (x ∷ s) (suc fuel) p c typed size column row text apart enough =
    let more : (c.memory p == 0) ≡ false = ground (arith, text.0, text.1) in
    let (roomy, made, round) = round-Moved K wait c p typed size column (omega arith) in
    let next = put_char (roomy.memory p) roomy in
    let same = round.drawn.buffer in
    let (c', e, rest) =
      write_from-Moved K wait s fuel (p + 1) next typed
        (record {
          rows = round.drawn.rows ∙ size.rows;
          columns = round.drawn.columns ∙ size.columns;
        })
        round.column (omega (arith, round.row))
        (IsString-same c.memory next.memory (p + 1) s
          (λ q from to. round.drawn.frame q (omega arith)) text.2)
        (rw same (omega arith)) (omega arith) in
    (
      c',
      rw (more, made) e,
      record {
        drawn = Drawn-trans c next c' round.drawn rest.drawn;
        row = omega (arith, rest.row, round.row);
        column = rest.column;
      },
    )
