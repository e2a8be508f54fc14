-- ===== src/Freestanding/Libc/Itoa.antt =====
-- `itoa`. The digits' loop has fuel 64: a 64-bit value has no more digits in radix 2 or above.
-- `none` is a division by zero, or a loop that does not end (radix 1).
use hypervi.Base.{
  ℕ, zero, suc, ◌+◌, ◌-◌, ◌/◌, ◌%◌, ◌^◌, ◌&&◌, Option, none, some, ◌>>=◌, ◌==◌, if◌then◌else◌,
  truth, ltb, u32, u64, for_range,
}
use hypervi.Freestanding.Memory.{Bytes, set_byte}

-- `digit < 10 ? '0' + digit : 'A' + digit - 10`
unfoldable pub digit_char : ℕ → ℕ
digit_char digit = if ltb digit 10 then b'0' + digit else b'A' + digit - 10

-- The `do` loop, from the pointer `p` on: the pointer behind the last digit, and memory.
unfoldable pub write_digits : (fuel value radix p : ℕ) → Bytes → Option (ℕ × Bytes)
write_digits zero value radix p m = none
write_digits (suc fuel) value radix p m =
    let m' = set_byte p (digit_char (value % radix)) m in
    let rest = write_digits fuel (value / radix) radix (p + 1) m' in
    if ltb 0 (value / radix) then rest else some (p + 1, m')

-- `for (i = buff_ptr - buff; i < pad; i++) *(buff_ptr++) = 0;`
unfoldable pub write_pad : (buff p pad : ℕ) → Bytes → ℕ × Bytes
unfolding set_byte for_range
write_pad buff p pad m =
    let count = pad - u32 (p - buff) in
    (p + count, for_range count 0 (λ i m. set_byte (p + i) 0 m) m)

-- One round of the swaps.
unfoldable pub swap_round : (buff len i : ℕ) → Bytes → Bytes
unfolding set_byte
swap_round buff len i m =
    let tmp = m (buff + i) in
    set_byte (buff + (len - i - 1)) tmp (set_byte (buff + i) (m (buff + (len - i - 1))) m)

unfoldable pub swap_bytes : (buff len : ℕ) → Bytes → Bytes
unfolding swap_round for_range
swap_bytes buff len m = for_range (len / 2) 0 (swap_round buff len) m

-- The length returned, and memory. An unsigned value is never below 0, so that the sign is dead.
unfoldable pub itoa : (value buff radix sign pad : ℕ) → Bytes → Option (ℕ × Bytes)
itoa value buff radix sign pad m =
    if ltb 16 radix
    then some (0, set_byte buff 0 m)
    else if radix == 0
    then none
    else let neg = truth sign && ltb value 0 in
      let magnitude = if neg then u64 (2 ^ 64 - value) else value in
      (do
        digits ← write_digits 64 magnitude radix buff m
        let padded = write_pad buff digits.0 pad digits.1
        let signed = (if neg then (padded.0 + 1, set_byte padded.0 b'-' padded.1) else padded)
        let ended = set_byte signed.0 0 signed.1
        let len = u32 (signed.0 - buff)
        some (len, swap_bytes buff len ended))
