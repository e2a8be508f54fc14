-- ===== src/Loader/Console/Cells.antt =====
-- Which bytes the console writes.
use hypervi.Base.{
  some, ℕ, ◌+◌, ◌*◌, ◌<◌, ◌≤◌, ◌≡◌, inl, inr, refl, ap, ◌∙◌, arith, for_range, for_range_keeps,
  ◌==◌, leb, Bool-cases,
}
use hypervi.Freestanding.Memory.{set_byte}
use hypervi.Freestanding.Memory.Laws.{Frame, set_byte-ne}
use hypervi.Loader.Input.{Keyboard, IsTyped, IsTyped-ends}
use hypervi.Loader.Console.{
  EfiConsoleCtx, Console, efi_console_setcell, efi_console_fill, move_cursor, make_room, put_char,
}

-- The bytes of the buffer that `efi_console_init` asks for.
abbrev pub buffer_bytes : ℕ
buffer_bytes = 16800

-- The size that `efi_console_init` sets.
pub record IsSized (c : Console) : Type 0 where
  pub rows : c.ctx.rows ≡ 120
  pub columns : c.ctx.columns ≡ 70

-- Only bytes of the buffer differ.
record Painted (c c' : Console) : Type 0 where
  pub ctx : c'.ctx ≡ c.ctx
  pub frame : Frame c.ctx.buffer buffer_bytes c.memory c'.memory

Painted-refl : (c : Console) → Painted c c
Painted-refl c = record { ctx = refl; frame = λ q h. refl }

Painted-trans : (c d e : Console) → Painted c d → Painted d e → Painted c e
Painted-trans c d e first second = record {
  ctx = second.ctx ∙ first.ctx;
  frame = λ q h.
      let same : d.ctx.buffer ≡ c.ctx.buffer = ap (λ (x : EfiConsoleCtx). x.buffer) first.ctx in
      second.frame q (rw same h) ∙ first.frame q h;
}

setcell-Painted :
    (x y character attribute : ℕ) (c : Console)
    → y * c.ctx.rows + x + 1 < buffer_bytes
    → Painted c (efi_console_setcell x y character attribute c)
unfolding efi_console_setcell
setcell-Painted x y character attribute c h = record {
  ctx = refl;
  frame = λ q out.
      let idx = y * c.ctx.rows + x in
      set_byte-ne (c.ctx.buffer + (idx + 1)) attribute q
        (set_byte (c.ctx.buffer + idx) character c.memory) (omega arith)
      ∙ set_byte-ne (c.ctx.buffer + idx) character q c.memory (omega arith);
}

rows_same : (c d : Console) → IsSized c → Painted c d → d.ctx.rows ≡ 120
rows_same c d size painted = ap (λ (x : EfiConsoleCtx). x.rows) painted.ctx ∙ size.rows

fill-Painted :
    (character attribute : ℕ) (c : Console)
    → IsSized c
    → Painted c (efi_console_fill character attribute c)
unfolding efi_console_fill
fill-Painted character attribute c size =
    for_range_keeps (Painted c)
      (λ y d. for_range d.ctx.rows 0 (λ x e. efi_console_setcell x y character attribute e) d)
      c.ctx.columns
      (λ y d hy before.
        let wide = rows_same c d size before in
        for_range_keeps (Painted c) (λ x e. efi_console_setcell x y character attribute e)
          d.ctx.rows
          (λ x e hx within.
            let still = rows_same c e size within in
            Painted-trans c e (efi_console_setcell x y character attribute e) within (
              setcell-Painted x y character attribute e
                (rw still (omega (arith, size.columns, wide)))))
          d.ctx.rows 0 d (omega arith) before)
      c.ctx.columns 0 c (omega arith) (Painted-refl c)

-- Only the cursor and bytes of the buffer differ.
pub record Drawn (c c' : Console) : Type 0 where
  pub rows : c'.ctx.rows ≡ c.ctx.rows
  pub columns : c'.ctx.columns ≡ c.ctx.columns
  pub buffer : c'.ctx.buffer ≡ c.ctx.buffer
  pub frame : Frame c.ctx.buffer buffer_bytes c.memory c'.memory

pub Drawn-refl : (c : Console) → Drawn c c
Drawn-refl c = record { rows = refl; columns = refl; buffer = refl; frame = λ q h. refl }

pub Drawn-trans : (c d e : Console) → Drawn c d → Drawn d e → Drawn c e
Drawn-trans c d e first second = record {
  rows = second.rows ∙ first.rows;
  columns = second.columns ∙ first.columns;
  buffer = second.buffer ∙ first.buffer;
  frame = λ q h. second.frame q (rw (first.buffer) h) ∙ first.frame q h;
}

-- The state `c'` after painting and moving the cursor, from `c`.
Painted-Drawn : (row column : ℕ) (c d : Console) → Painted c d → Drawn c (move_cursor row column d)
Painted-Drawn row column c d painted = record {
  rows = ap (λ (x : EfiConsoleCtx). x.rows) painted.ctx;
  columns = ap (λ (x : EfiConsoleCtx). x.columns) painted.ctx;
  buffer = ap (λ (x : EfiConsoleCtx). x.buffer) painted.ctx;
  frame = painted.frame;
}

-- What one step does: the screen's size stays, the cursor moves `by` cells at most and stays
-- within the columns.
pub record Moved (by limit : ℕ) (c c' : Console) : Type 0 where
  pub drawn : Drawn c c'
  pub row : c'.ctx.current_row ≤ c.ctx.current_row + by
  pub column : c'.ctx.current_column ≤ limit

pub make_room-Moved :
    (K : Keyboard) (wait : ℕ) (c : Console)
    → IsTyped K wait
    → IsSized c
    → c.ctx.current_column ≤ 70
    → (roomy : Console) × (make_room K wait c ≡ some roomy) × Moved 0 69 c roomy
unfolding make_room
make_room-Moved K wait c typed size below =
    elim (Bool-cases (leb c.ctx.columns c.ctx.current_column)) [
      | inl end ↦
          let (events, pressed) = IsTyped-ends K wait c.events (typed c.events) in
          let start = record (move_cursor 0 0 c) { events = events } in
          let filled =
            fill-Painted 0x20 0 start (record { rows = size.rows; columns = size.columns }) in
          let row = ap (λ (x : EfiConsoleCtx). x.current_row) filled.ctx in
          let column = ap (λ (x : EfiConsoleCtx). x.current_column) filled.ctx in
          (
            efi_console_fill 0x20 0 start,
            rw (end, pressed) refl,
            record {
              drawn = record {
                rows = ap (λ (x : EfiConsoleCtx). x.rows) filled.ctx;
                columns = ap (λ (x : EfiConsoleCtx). x.columns) filled.ctx;
                buffer = ap (λ (x : EfiConsoleCtx). x.buffer) filled.ctx;
                frame = filled.frame;
              };
              row = omega (arith, row);
              column = omega (arith, column);
            },
          )
      | inr room ↦ (
        c,
        rw room refl,
        record { drawn = Drawn-refl c; row = omega arith; column = ground (arith, size.columns) },
      )
    ]

pub put_char-Moved :
    (character : ℕ) (c : Console)
    → IsSized c
    → c.ctx.current_column ≤ 69
    → c.ctx.current_row ≤ 8400
    → Moved 4 70 c (put_char character c)
unfolding put_char
put_char-Moved character c size column row =
    let cell =
      setcell-Painted c.ctx.current_row c.ctx.current_column character 0 c
        (rw size.rows (omega arith)) in
    elim (Bool-cases (character == b'\n')) [
      | inl newline ↦ rw newline (record {
        drawn = Painted-Drawn 0 (c.ctx.current_column + 1) c c (Painted-refl c);
        row = omega arith;
        column = omega arith;
      })
      | inr other ↦ elim (Bool-cases (character == b'\t')) [
        | inl tab ↦
            rw (other, tab)
              (record {
                drawn =
                    Painted-Drawn (c.ctx.current_row + 4) c.ctx.current_column c c (Painted-refl c);
                row = omega arith;
                column = omega arith;
              })
        | inr plain ↦
            rw (other, plain)
              (record {
                drawn =
                    Painted-Drawn (c.ctx.current_row + 1) c.ctx.current_column c
                      (efi_console_setcell c.ctx.current_row c.ctx.current_column character 0 c)
                      cell;
                row = omega arith;
                column = omega arith;
              })
      ]
    ]
