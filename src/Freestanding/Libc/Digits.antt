-- ===== src/Freestanding/Libc/Digits.antt =====
-- The digits that `itoa` writes, and the number that digits spell.
use native.Mathlib.Nat.{pow-suc, pow-zero, mod-lt, div-add-mod', div-lt_iff_lt-mul}
use hypervi.Base.{
  ℕ, zero, suc, ◌+◌, ◌-◌, ◌*◌, ◌/◌, ◌%◌, ◌^◌, ◌<◌, ◌≤◌, ◌≡◌, inl, inr, refl, ap, ◌∙◌, arith, ◌&&◌,
  Option, none, some, ◌>>=◌, if◌then◌else◌, ltb, leb, Bool-cases,
}
use hypervi.Freestanding.Memory.{Bytes, set_byte}
use hypervi.Freestanding.Memory.Laws.{Frame, set_byte_self, set_byte-ne}
use hypervi.Freestanding.Libc.Itoa.{digit_char, write_digits}

-- What a character counts for in a radix, if it is a digit there.
unfoldable pub digit_value : (radix c : ℕ) → Option ℕ
digit_value radix c =
    if leb b'0' c && leb c b'9'
    then (if ltb (c - b'0') radix then some (c - b'0') else none)
    else if leb b'A' c && ltb (c - b'A' + 10) radix
    then some (c - b'A' + 10)
    else none

-- A digit below 16 is written as a character that counts for it.
digit_value-digit_char :
    (radix d : ℕ) → radix ≤ 16 → d < radix → digit_value radix (digit_char d) ≡ some d
unfolding digit_value digit_char
digit_value-digit_char radix d h k = ground arith

-- The number that `k` bytes spell from the last one on, each of them a digit.
unfoldable pub reversed_number : (radix : ℕ) → Bytes → (p k : ℕ) → Option ℕ
reversed_number radix m p zero = some 0
reversed_number radix m p (suc k) = do
  digit ← digit_value radix (m p)
  rest ← reversed_number radix m (p + 1) k
  some (rest * radix + digit)

-- What the loop of `itoa` leaves: `count` digits of the value, at most `most` of them.
pub record Written (radix value p most : ℕ) (m : Bytes) (r : Option (ℕ × Bytes)) : Type 0 where
  pub count : ℕ
  pub out : Bytes
  pub result : r ≡ some (p + count, out)
  pub some_digit : 0 < count
  pub few : count ≤ most
  pub spelled : reversed_number radix out p count ≡ some value
  pub frame : Frame p count m out

module _ (radix : ℕ) (small : radix ≤ 16) (big : 1 < radix) where
  below_digits : (value b : ℕ) → value < radix ^ suc b → value / radix < radix ^ b
  below_digits value b h = (div-lt_iff_lt-mul (omega arith)).1 (rw (pow-suc radix b) at h)

  digit-first :
      (value p : ℕ) (m out : Bytes)
      → out p ≡ set_byte p (digit_char (value % radix)) m p
      → digit_value radix (out p) ≡ some (value % radix)
  digit-first value p m out e =
      rw (e, set_byte_self p (digit_char (value % radix)) m)
        (digit_value-digit_char radix (value % radix) small (mod-lt value (omega arith)))

  -- A single digit.
  last_digit :
      (value b p : ℕ) (m : Bytes)
      → value / radix ≡ 0
      → Written radix value p (suc b) m (some (p + 1, set_byte p (digit_char (value % radix)) m))
  unfolding reversed_number
  last_digit value b p m e =
      let here = set_byte p (digit_char (value % radix)) m in
      record {
        count = 1;
        out = here;
        result = refl;
        some_digit = omega arith;
        few = omega arith;
        spelled =
            rw (digit-first value p m here refl)
              (ap some (omega (arith, div-add-mod' value radix, ap (λ (t : ℕ). t * radix) e)));
        frame = λ q apart. set_byte-ne p (digit_char (value % radix)) q m (ground arith);
      }

  more_digits :
      (value b p : ℕ) (m : Bytes) (r : Option (ℕ × Bytes))
      → Written radix (value / radix) (p + 1) (suc b) (set_byte p (digit_char (value % radix)) m) r
      → Written radix value p (suc (suc b)) m r
  unfolding reversed_number
  more_digits value b p m r w = record {
    count = suc w.count;
    out = w.out;
    result = w.result ∙ ap (λ (t : ℕ). some (t, w.out)) (omega arith);
    some_digit = omega arith;
    few = omega (arith, w.few);
    spelled =
        rw (digit-first value p m w.out (w.frame p (inl (omega arith))), w.spelled)
          (ap some (div-add-mod' value radix));
    frame = λ q apart.
        w.frame q (ground arith) ∙ set_byte-ne p (digit_char (value % radix)) q m (ground arith);
  }

  pub write_digits-Written :
      (fuel value b p : ℕ) (m : Bytes)
      → value < radix ^ suc b
      → b < fuel
      → Written radix value p (suc b) m (write_digits fuel value radix p m)
  unfolding write_digits
  write_digits-Written zero value b p m h enough = absurd (omega arith)
  write_digits-Written (suc fuel) value zero p m h enough =
      let e : value / radix ≡ 0 = omega (arith, below_digits value 0 h, pow-zero radix) in
      rw e (last_digit value 0 p m e)
  write_digits-Written (suc fuel) value (suc b) p m h enough =
      let rest =
        write_digits-Written fuel (value / radix) b (p + 1)
          (set_byte p (digit_char (value % radix)) m) (below_digits value (suc b) h)
          (omega arith) in
      elim (Bool-cases (ltb 0 (value / radix))) [
        | inl more ↦ rw more (more_digits value b p m _ rest)
        | inr last ↦ rw last (last_digit value (suc b) p m (ground arith))
      ]
