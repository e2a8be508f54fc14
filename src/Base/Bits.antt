-- ===== src/Base/Bits.antt =====
-- Bit-fields of an unsigned word: reading and assigning one, for every offset and width.
use Prim.Native.Nat.{ℕ, zero, suc, ◌+◌, ◌-◌, ◌*◌, ◌/◌, ◌%◌, ◌^◌, ◌≤◌, ◌<◌}
use mathlib.Core.Path.{◌≡◌, refl, sym, ap, ◌∙◌}
use mathlib.Core.Logic.{◌⊎◌, inl, inr}
use native.Mathlib.Nat.{pow-suc, one-le-pow, mod-lt, mod-eq_of_lt, add-zero, add-suc, div-add-mod'}
use native.Mathlib.Nat.{mul-add-div_right, div-eq_of_lt, mul-add-mod_self_right}
use native.Mathlib.Nat.{div-div-eq-div-mul}
use native.Mathlib.Omega.{arith}

-- A bit-field of `width` bits whose lowest bit is bit `offset` of the word.
pub record Field : Type 0 where
  pub offset : ℕ
  pub width : ℕ

abbrev pub field : ℕ → ℕ → Field
field o w = record { offset = o; width = w }

-- `x.f`
unfoldable pub get : Field → ℕ → ℕ
get f x = x / 2 ^ f.offset % 2 ^ f.width

-- `x.f = v`: the value is cut to the field's width, the other bits stay.
unfoldable pub put : Field → ℕ → ℕ → ℕ
unfolding get
put f v x = x - get f x * 2 ^ f.offset + v % 2 ^ f.width * 2 ^ f.offset

-- Two fields that share no bit.
abbrev pub Disjoint : Field → Field → Type 0
Disjoint f g = (f.offset + f.width ≤ g.offset) ⊎ (g.offset + g.width ≤ f.offset)

pow-add : (a b : ℕ) → 2 ^ (a + b) ≡ 2 ^ a * 2 ^ b
pow-add a zero = rw add-zero (omega arith)
pow-add a (suc b) =
    rw (add-suc, pow-suc, pow-suc) (omega (arith, ap (λ (t : ℕ). t * 2) (pow-add a b)))

pow-pos : (a : ℕ) → 0 < 2 ^ a
pow-pos a = one-le-pow a 2 (omega arith)

-- A word, split at a field of unit P and size W.
module _ (P W : ℕ) (hp : 0 < P) (hw : 0 < W) where
  split_put : (x v : ℕ) → x - x / P % W * P + v * P ≡ (x / P / W * W + v) * P + x % P
  split_put x v = omega (arith, div-add-mod' x P, ap (λ (t : ℕ). t * P) (div-add-mod' (x / P) W))

  div_of_sum : (a r : ℕ) → r < P → (a * P + r) / P ≡ a
  div_of_sum a r h = rw (mul-add-div_right hp a r, div-eq_of_lt h) (omega arith)

  split_get : (q v r : ℕ) → r < P → v < W → ((q * W + v) * P + r) / P % W ≡ v
  split_get q v r hr hv =
      rw (div_of_sum (q * W + v) r hr, mul-add-mod_self_right q W v) (mod-eq_of_lt hv)

  split_above : (q v r : ℕ) → r < P → v < W → ((q * W + v) * P + r) / P / W ≡ q
  split_above q v r hr hv =
      rw (div_of_sum (q * W + v) r hr, mul-add-div_right hw q v, div-eq_of_lt hv) (omega arith)

-- An assigned word: what stands above the field, the value, what stands below.
put_parts :
    (f : Field) (v x : ℕ)
    → put f v x
      ≡ (x / 2 ^ f.offset / 2 ^ f.width * 2 ^ f.width + v % 2 ^ f.width) * 2 ^ f.offset
        + x % 2 ^ f.offset
unfolding put
put_parts f v x = split_put (2 ^ f.offset) (2 ^ f.width) (pow-pos _) (pow-pos _) x (v % 2 ^ f.width)

-- A field reads back what was assigned to it, cut to its width.
pub get-put : (f : Field) (v x : ℕ) → get f (put f v x) ≡ v % 2 ^ f.width
unfolding get
get-put f v x = rw (put_parts f v x) (
    split_get (2 ^ f.offset) (2 ^ f.width) (pow-pos _) (pow-pos _) _ (v % 2 ^ f.width)
      (x % 2 ^ f.offset) (mod-lt x (pow-pos _)) (mod-lt v (pow-pos _)))

-- The bits above the field stay.
put_above :
    (f : Field) (v x : ℕ) → put f v x / 2 ^ f.offset / 2 ^ f.width ≡ x / 2 ^ f.offset / 2 ^ f.width
put_above f v x = rw (put_parts f v x) (
    split_above (2 ^ f.offset) (2 ^ f.width) (pow-pos _) (pow-pos _) _ (v % 2 ^ f.width)
      (x % 2 ^ f.offset) (mod-lt x (pow-pos _)) (mod-lt v (pow-pos _)))

-- Bits from `o + w + k` on, by three shifts.
shift_thrice : (x o w k : ℕ) → x / 2 ^ (o + w + k) ≡ x / 2 ^ o / 2 ^ w / 2 ^ k
shift_thrice x o w k =
    rw (pow-add (o + w) k, pow-add o w)
      (sym (
        rw (div-div-eq-div-mul x (2 ^ o) (2 ^ w), div-div-eq-div-mul x (2 ^ o * 2 ^ w) (2 ^ k))
          refl))

-- The bits below the field stay: a word is a multiple of `2 ^ (o + w + k)` and those bits.
low_part : (a r o w k : ℕ) → (a * 2 ^ (o + w + k) + r) / 2 ^ o % 2 ^ w ≡ r / 2 ^ o % 2 ^ w
low_part a r o w k = rw (
  sum,
  mul-add-div_right (pow-pos o) (a * 2 ^ k * 2 ^ w) r,
  mul-add-mod_self_right (a * 2 ^ k) (2 ^ w) (r / 2 ^ o),
)
  where
    sum : a * 2 ^ (o + w + k) + r ≡ a * 2 ^ k * 2 ^ w * 2 ^ o + r
    sum = rw (pow-add (o + w) k, pow-add o w) (omega arith)

low_same :
    (x a o w k t : ℕ) → t ≡ o + w + k → (a * 2 ^ t + x % 2 ^ t) / 2 ^ o % 2 ^ w ≡ x / 2 ^ o % 2 ^ w
low_same x a o w k t e = rw e (
    low_part a (x % 2 ^ (o + w + k)) o w k
    ∙ sym (low_part (x / 2 ^ (o + w + k)) (x % 2 ^ (o + w + k)) o w k)
    ∙ ap (λ (y : ℕ). y / 2 ^ o % 2 ^ w) (div-add-mod' x (2 ^ (o + w + k))))

-- Assigning a field changes no other.
pub get-put_other : (f g : Field) (v x : ℕ) → Disjoint f g → get g (put f v x) ≡ get g x
unfolding get
get-put_other f g v x (inl above) =
    let e : g.offset ≡ f.offset + f.width + (g.offset - (f.offset + f.width)) = omega arith in
    rw e (rw (shift_thrice, shift_thrice, put_above f v x))
get-put_other f g v x (inr below) = rw (put_parts f v x) (
    low_same x (x / 2 ^ f.offset / 2 ^ f.width * 2 ^ f.width + v % 2 ^ f.width) g.offset g.width
      (f.offset - (g.offset + g.width)) f.offset (omega arith))

-- A word cut to more bits than a field reaches has the same field.
pub get-mod : (f : Field) (x t : ℕ) → f.offset + f.width ≤ t → get f (x % 2 ^ t) ≡ get f x
unfolding get
get-mod f x t h =
    let k = t - (f.offset + f.width) in
    let e : t ≡ f.offset + f.width + k = omega arith in
    rw e (
      sym (
        low_part (x / 2 ^ (f.offset + f.width + k)) (x % 2 ^ (f.offset + f.width + k)) f.offset
          f.width k)
      ∙ ap (λ (y : ℕ). y / 2 ^ f.offset % 2 ^ f.width)
          (div-add-mod' x (2 ^ (f.offset + f.width + k))))
