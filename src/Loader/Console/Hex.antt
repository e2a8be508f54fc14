-- ===== src/Loader/Console/Hex.antt =====
-- Writing a number.
use hypervi.Base.{
  ℕ, zero, suc, ◌+◌, ◌^◌, ◌<◌, ◌≤◌, ◌≡◌, ◌≢◌, ◌⊎◌, inl, inr, refl, sym, ap, ◌∙◌, arith, List, [],
  ◌∷◌, Option, some, length, ◌==◌, if◌then◌else◌, Bool-cases, Option-cases,
}
use mathlib.Core.Path.{subst}
use mathlib.Core.Option.{none-ne-some}
use hypervi.Freestanding.Memory.{Bytes}
use hypervi.Freestanding.Libc.Strings.{IsString}
use hypervi.Freestanding.Libc.Digits.{digit_value}
use hypervi.Freestanding.Libc.Number.{number, itoa-Printed}
use hypervi.Loader.Gfx.{Images, Blit}
use hypervi.Loader.Input.{Keyboard, IsTyped}
use hypervi.Loader.Console.{
  EfiConsoleCtx, Console, efi_console_draw, efi_console_write, efi_console_hex,
}
use hypervi.Loader.Console.Cells.{buffer_bytes, IsSized}
use hypervi.Loader.Console.Write.{IsElsewhere, write_from-Moved}

-- A digit is not the end of a string.
digit_nonzero : (radix c d : ℕ) → digit_value radix c ≡ some d → c ≢ 0
unfolding digit_value
digit_nonzero radix c d e zero_char = ground (arith, e, zero_char)

number_nonzero :
    (radix : ℕ) (m : Bytes) (p k v : ℕ)
    → number radix m p k ≡ some v
    → (j : ℕ) → j < k
    → m (p + j) ≢ 0
unfolding number
number_nonzero radix m p zero v h j below = absurd (omega arith)
number_nonzero radix m p (suc k) v h j below = elim (Option-cases (number radix m p k)) [
  | inl nothing ↦ absurd (none-ne-some v (rw nothing at h))
  | inr (front, e) ↦ elim (Option-cases (digit_value radix (m (p + k)))) [
    | inl nothing ↦ absurd (none-ne-some v (rw (e, nothing) at h))
    | inr (d, e') ↦ elim (last j k below) [
      | inl same ↦ subst (λ t. m (p + t) ≢ 0) (sym same) (digit_nonzero radix (m (p + k)) d e')
      | inr before ↦ number_nonzero radix m p k front e j before
    ]
  ]
]
  where
    last : (j k : ℕ) → j < suc k → (j ≡ k) ⊎ (j < k)
    last j k h = omega arith

-- The bytes at an address.
bytes_at : Bytes → (p k : ℕ) → List ℕ
bytes_at m p zero = []
bytes_at m p (suc k) = m p ∷ bytes_at m (p + 1) k

length-bytes_at : (m : Bytes) (p k : ℕ) → length (bytes_at m p k) ≡ k
unfolding bytes_at
length-bytes_at m p zero = refl
length-bytes_at m p (suc k) = ap suc (length-bytes_at m (p + 1) k)

bytes_at-IsString :
    (m : Bytes) (p k : ℕ)
    → ((j : ℕ) → j < k → m (p + j) ≢ 0)
    → m (p + k) ≡ 0
    → IsString m p (bytes_at m p k)
unfolding bytes_at
bytes_at-IsString m p zero some_byte end = subst (λ t. m t ≡ 0) (omega arith) end
bytes_at-IsString m p (suc k) some_byte end =
    let here : p + 0 ≡ p = omega arith in
    (
      refl,
      subst (λ t. m t ≢ 0) here (some_byte 0 (omega arith)),
      bytes_at-IsString m (p + 1) k
          (λ j hj.
            let there : p + suc j ≡ p + 1 + j = omega arith in
            subst (λ t. m t ≢ 0) there (some_byte (suc j) (omega arith)))
          (let there : p + suc k ≡ p + 1 + k = omega arith in subst (λ t. m t ≡ 0) there end),
    )

-- Where the number's text stands.
abbrev IsOutside : (c : Console) (buff q : ℕ) → Type 0
IsOutside c buff q =
    ((q < buff) ⊎ (buff + 17 ≤ q)) × ((q < c.ctx.buffer) ⊎ (c.ctx.buffer + buffer_bytes ≤ q))

-- What a call leaves of the cursor and of memory outside both ranges.
pub record Shown (buff : ℕ) (c : Console) (r : Option (Console × List Blit)) : Type 0 where
  pub state : Console
  pub blits : List Blit
  pub result : r ≡ some (state, blits)
  pub column : state.ctx.current_column ≤ 70
  pub row : state.ctx.current_row ≤ c.ctx.current_row + 64
  pub frame : (q : ℕ) → IsOutside c buff q → state.memory q ≡ c.memory q

drawn_state :
    (I : Images) (whoami : ℕ) (c : Console)
    → let r = (if whoami == 0 then efi_console_draw I c else (c, [])) in
      (r.0.ctx ≡ c.ctx) × (r.0.memory ≡ c.memory)
unfolding efi_console_draw
drawn_state I whoami c = elim (Bool-cases (whoami == 0)) [
  | inl first ↦ rw first (refl, refl)
  | inr other ↦ rw other (refl, refl)
]

module _ (I : Images) (K : Keyboard) (wait fuel buff number whoami : ℕ) (c : Console) where
  -- With a keyboard on which a key is read before `wait` empty strokes, on a screen of the size set,
  -- with the cursor within 8336 of the start of its line and the 17
  -- bytes on the stack outside the buffer, `efi_console_hex` of a 64-bit number ends; it keeps the
  -- cursor within the columns, and no byte outside the 17 and the buffer changes.
  pub efi_console_hex-Shown :
      IsTyped K wait
      → number < 2 ^ 64
      → IsSized c
      → c.ctx.current_column ≤ 70
      → c.ctx.current_row + 64 ≤ 8400
      → IsElsewhere c buff 17
      → 16 < fuel
      → Shown buff c (efi_console_hex I K wait fuel buff number whoami c)
  unfolding efi_console_hex efi_console_write
  efi_console_hex-Shown typed word size column row apart enough =
      let printed =
        itoa-Printed 16 number buff 0 1 15 c.memory (omega arith) (omega arith) (omega arith)
          (omega arith) (omega arith) in
      let text = bytes_at printed.out buff printed.len in
      let long = length-bytes_at printed.out buff printed.len in
      let some_byte = number_nonzero 16 printed.out buff printed.len number printed.spelled in
      let (c', e, moved) =
        write_from-Moved K wait text fuel buff (record c { memory = printed.out }) typed
          (record { rows = size.rows; columns = size.columns }) column
          (omega (arith, long, printed.few))
          (bytes_at-IsString printed.out buff printed.len some_byte printed.end)
          (omega (arith, long, printed.few, apart)) (omega (arith, long, printed.few)) in
      let drawn = (if whoami == 0 then efi_console_draw I c' else (c', [])) in
      let (ctx, memory) = drawn_state I whoami c' in
      record {
        state = drawn.0;
        blits = drawn.1;
        result = rw (printed.result, e) refl;
        column = omega (arith, moved.column, ap (λ (x : EfiConsoleCtx). x.current_column) ctx);
        row =
            omega
              (arith, moved.row, long, printed.few, ap (λ (x : EfiConsoleCtx). x.current_row) ctx);
        frame = λ q out.
            ap (λ (m : Bytes). m q) memory
            ∙ moved.drawn.frame q out.1
            ∙ printed.frame q (omega (arith, printed.few, out.0));
      }
