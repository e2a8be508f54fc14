-- ===== src/Freestanding/Libc/Number.antt =====
-- What `itoa` leaves in its buffer.
use hypervi.Base.{
  ℕ, zero, suc, ◌+◌, ◌-◌, ◌*◌, ◌^◌, ◌<◌, ◌≤◌, ◌≡◌, inr, refl, ap, ◌∙◌, arith, false, ◌&&◌, Option,
  none, some, ◌>>=◌, ◌==◌, ltb, truth, u32, for_range,
}
use hypervi.Freestanding.Memory.{Bytes, set_byte}
use hypervi.Freestanding.Memory.Laws.{Frame, at_offset, set_byte_self, set_byte-ne}
use hypervi.Freestanding.Libc.Itoa.{write_digits, write_pad, swap_bytes, itoa}
use hypervi.Freestanding.Libc.Reverse.{swap_bytes_lem, swap_bytes-Frame}
use hypervi.Freestanding.Libc.Digits.{digit_value, reversed_number, Written, write_digits-Written}

-- The number that the `k` bytes at an address spell in a radix.
unfoldable pub number : (radix : ℕ) → Bytes → (p k : ℕ) → Option ℕ
number radix m p zero = some 0
number radix m p (suc k) = do
  front ← number radix m p k
  digit ← digit_value radix (m (p + k))
  some (front * radix + digit)

bind_swap :
    (radix : ℕ) (a b : Option ℕ)
    → (a >>= λ x. b >>= λ y. some (x * radix + y)) ≡ (b >>= λ y. a >>= λ x. some (x * radix + y))
bind_swap radix none none = refl
bind_swap radix none (some y) = refl
bind_swap radix (some x) none = refl
bind_swap radix (some x) (some y) = refl

number-reversed :
    (radix : ℕ) (m out : Bytes) (p q k : ℕ)
    → ((j : ℕ) → j < k → out (p + j) ≡ m (q + (k - j - 1)))
    → number radix out p k ≡ reversed_number radix m q k
unfolding number reversed_number
number-reversed radix m out p q zero h = refl
number-reversed radix m out p q (suc k) h =
    let front =
      number-reversed radix m out p (q + 1) k (λ j hj. h j (omega arith) ∙ ap m (omega arith)) in
    let last : out (p + k) ≡ m q = h k (omega arith) ∙ ap m (omega arith) in
    rw (front, last) (bind_swap radix (reversed_number radix m (q + 1) k) (digit_value radix (m q)))

reversed_number-same :
    (radix : ℕ) (m m' : Bytes) (p k : ℕ)
    → ((j : ℕ) → j < k → m' (p + j) ≡ m (p + j))
    → reversed_number radix m' p k ≡ reversed_number radix m p k
unfolding reversed_number
reversed_number-same radix m m' p zero h = refl
reversed_number-same radix m m' p (suc k) h =
    let first : m' p ≡ m p = at_offset m m' p 0 p (h 0 (omega arith)) (omega arith) in
    let rest =
      reversed_number-same radix m m' (p + 1) k
        (λ j hj. at_offset m m' p (suc j) (p + 1 + j) (h (suc j) (omega arith)) (omega arith)) in
    rw (first, rest) refl

-- What `itoa` returns and leaves behind: a text of `len` digits that spells the value, its end,
-- and memory as it was around them.
pub record Printed (radix value buff most : ℕ) (m : Bytes) (r : Option (ℕ × Bytes)) : Type 0 where
  pub len : ℕ
  pub out : Bytes
  pub result : r ≡ some (len, out)
  pub spelled : number radix out buff len ≡ some value
  pub some_digit : 0 < len
  pub few : len ≤ most
  pub end : out (buff + len) ≡ 0
  pub frame : Frame buff (len + 1) m out

write_pad-none :
    (buff count pad : ℕ) (m : Bytes)
    → count ≤ 64
    → pad ≤ count
    → write_pad buff (buff + count) pad m ≡ (buff + count, m)
unfolding write_pad for_range
write_pad-none buff count pad m few short =
    let nothing : pad - u32 (buff + count - buff) ≡ 0 = omega arith in
    rw nothing (ap (λ (t : ℕ). (t, m)) (omega arith))

module _ (radix value buff pad sign b : ℕ) (m : Bytes) (small : radix ≤ 16) (big : 1 < radix)
    (fits : value < radix ^ suc b) (word : b < 64) where
  digits : Written radix value buff (suc b) m (write_digits 64 value radix buff m)
  digits = write_digits-Written radix small big 64 value b buff m fits word

  -- Without padding the buffer goes from the digits to the end and the swaps.
  itoa_run :
      pad ≤ digits.count
      → itoa value buff radix sign pad m
        ≡ some (
          digits.count,
          swap_bytes buff digits.count (set_byte (buff + digits.count) 0 digits.out),
        )
  unfolding itoa
  itoa_run short =
      let count = digits.count in
      let in_radix : ltb 16 radix ≡ false = ground arith in
      let not_zero : (radix == 0) ≡ false = ground arith in
      let not_below : (truth sign && ltb value 0) ≡ false = ground arith in
      let padding = write_pad-none buff count pad digits.out (omega (arith, digits.few)) short in
      let shown : u32 (buff + count - buff) ≡ count = omega (arith, digits.few) in
      rw (in_radix, not_zero, not_below, digits.result, padding, shown) refl

  -- In a radix from 2 to 16, with no more padding than there are digits, `itoa` ends and leaves
  -- the text that spells the value, at most as many digits as the bound on the value asks for,
  -- a terminating 0, and no other byte changed.
  pub itoa-Printed : pad ≤ 1 → Printed radix value buff (suc b) m (itoa value buff radix sign pad m)
  itoa-Printed short =
      let count = digits.count in
      let ended = set_byte (buff + count) 0 digits.out in
      record {
        len = count;
        out = swap_bytes buff count ended;
        result = itoa_run (omega (arith, digits.some_digit));
        spelled =
            number-reversed radix ended (swap_bytes buff count ended) buff buff count
              (swap_bytes_lem buff count ended)
            ∙ reversed_number-same radix digits.out ended buff count
                (λ j h. set_byte-ne (buff + count) 0 (buff + j) digits.out (ground arith))
            ∙ digits.spelled;
        some_digit = digits.some_digit;
        few = digits.few;
        end =
            swap_bytes-Frame buff count ended (buff + count) (inr (omega arith))
            ∙ set_byte_self (buff + count) 0 digits.out;
        frame = λ q apart.
            swap_bytes-Frame buff count ended q (ground arith)
            ∙ set_byte-ne (buff + count) 0 q digits.out (ground arith)
            ∙ digits.frame q (ground arith);
      }
