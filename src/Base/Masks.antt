-- ===== src/Base/Masks.antt =====
-- `&` and `|` at any numbers, bit by bit.
use Prim.Native.Nat.{
  ℕ, zero, suc, ◌+◌, ◌-◌, ◌*◌, ◌/◌, ◌%◌, ◌^◌, ◌≤◌, ◌<◌, min, max, bit_and, bit_or, digits, bitwise,
  bit_and-bitwise, bit_or-bitwise,
}
use mathlib.Core.Path.{◌≡◌, refl, ◌∙◌, ap, sym}
use native.Mathlib.Nat.{
  pow-suc, one-le-pow, div-div-eq-div-mul, mod-lt, mod-eq_of_lt, div-add-mod',
  mul-add-mod_self_right,
}
use native.Mathlib.Omega.{arith}

-- Fuel that reaches the first number is enough.
module _ (z : ℕ → ℕ) (f : ℕ → ℕ → ℕ) where
  same_fuel : (m n a b : ℕ) → a ≤ m → a ≤ n → digits z f m a b ≡ digits z f n a b
  same_fuel zero zero a b hm hn = refl
  same_fuel zero (suc n) zero b hm hn = refl
  same_fuel zero (suc n) (suc a) b hm hn = absurd (omega arith)
  same_fuel (suc m) zero zero b hm hn = refl
  same_fuel (suc m) zero (suc a) b hm hn = absurd (omega arith)
  same_fuel (suc m) (suc n) zero b hm hn = refl
  same_fuel (suc m) (suc n) (suc a) b hm hn =
      ap (λ (t : ℕ). t * 2 + f (suc a % 2) (b % 2))
        (same_fuel m n (suc a / 2) (b / 2) (omega arith) (omega arith))

  fuel_enough : (m a b : ℕ) → a ≤ m → digits z f m a b ≡ bitwise z f a b
  fuel_enough m a b h = same_fuel m a a b h (omega arith)

pub bit_and-halves : (a b : ℕ) → bit_and a b ≡ bit_and (a / 2) (b / 2) * 2 + min (a % 2) (b % 2)
bit_and-halves zero b = omega (arith, bit_and-bitwise 0 b, bit_and-bitwise 0 (b / 2))
bit_and-halves (suc a) b = omega (
  arith,
  bit_and-bitwise (suc a) b,
  bit_and-bitwise (suc a / 2) (b / 2),
  fuel_enough (λ y. 0) min a (suc a / 2) (b / 2) (omega arith),
)

bit_or-halves : (a b : ℕ) → bit_or a b ≡ bit_or (a / 2) (b / 2) * 2 + max (a % 2) (b % 2)
bit_or-halves zero b = omega (arith, bit_or-bitwise 0 b, bit_or-bitwise 0 (b / 2))
bit_or-halves (suc a) b = omega (
  arith,
  bit_or-bitwise (suc a) b,
  bit_or-bitwise (suc a / 2) (b / 2),
  fuel_enough (λ y. y) max a (suc a / 2) (b / 2) (omega arith),
)

-- Bit i of a number.
abbrev pub bit : ℕ → ℕ → ℕ
bit i x = x / 2 ^ i % 2

bit-suc : (i x : ℕ) → bit (suc i) x ≡ bit i (x / 2)
bit-suc i x =
    ap (λ (t : ℕ). t % 2)
      (ap (λ (t : ℕ). x / t) (pow-suc 2 i ∙ omega arith) ∙ sym (div-div-eq-div-mul x 2 (2 ^ i)))

pub bit-bit_and : (i a b : ℕ) → bit i (bit_and a b) ≡ min (bit i a) (bit i b)
bit-bit_and zero a b = omega (arith, bit_and-halves a b)
bit-bit_and (suc i) a b =
    let half : bit_and a b / 2 ≡ bit_and (a / 2) (b / 2) = omega (arith, bit_and-halves a b) in
    rw (bit-suc, bit-suc, bit-suc, half) (bit-bit_and i (a / 2) (b / 2))

pub bit-bit_or : (i a b : ℕ) → bit i (bit_or a b) ≡ max (bit i a) (bit i b)
bit-bit_or zero a b = omega (arith, bit_or-halves a b)
bit-bit_or (suc i) a b =
    let half : bit_or a b / 2 ≡ bit_or (a / 2) (b / 2) = omega (arith, bit_or-halves a b) in
    rw (bit-suc, bit-suc, bit-suc, half) (bit-bit_or i (a / 2) (b / 2))

bit_and-zero_within : (n x : ℕ) → x ≤ n → bit_and x 0 ≡ 0
bit_and-zero_within zero x h =
    let none_left : x ≡ 0 = omega arith in rw none_left (bit_and-bitwise 0 0)
bit_and-zero_within (suc n) zero h = bit_and-bitwise 0 0
bit_and-zero_within (suc n) (suc x) h =
    omega (arith, bit_and-halves (suc x) 0, bit_and-zero_within n (suc x / 2) (omega arith))

pub bit_and-zero : (x : ℕ) → bit_and x 0 ≡ 0
bit_and-zero x = bit_and-zero_within x x (omega arith)

bit_or-zero_within : (n x : ℕ) → x ≤ n → bit_or x 0 ≡ x
bit_or-zero_within zero x h =
    let none_left : x ≡ 0 = omega arith in rw none_left (bit_or-bitwise 0 0)
bit_or-zero_within (suc n) zero h = bit_or-bitwise 0 0
bit_or-zero_within (suc n) (suc x) h =
    omega (arith, bit_or-halves (suc x) 0, bit_or-zero_within n (suc x / 2) (omega arith))

pub bit_or-zero : (x : ℕ) → bit_or x 0 ≡ x
bit_or-zero x = bit_or-zero_within x x (omega arith)

bit_or_comm_within : (n a b : ℕ) → a ≤ n → b ≤ n → bit_or a b ≡ bit_or b a
bit_or_comm_within zero a b ha hb = rw (zero_at a ha, zero_at b hb) refl
  where
    zero_at : (x : ℕ) → x ≤ 0 → x ≡ 0
    zero_at x h = omega arith
bit_or_comm_within (suc n) a b ha hb = omega (
  arith,
  bit_or-halves a b,
  bit_or-halves b a,
  bit_or_comm_within n (a / 2) (b / 2) (omega arith) (omega arith),
)

pub bit_or_comm : (a b : ℕ) → bit_or a b ≡ bit_or b a
bit_or_comm a b = bit_or_comm_within (a + b) a b (omega arith) (omega arith)

twice : (t : ℕ) → t * 2 / 2 ≡ t
twice t = omega arith

mod_halves : (x k : ℕ) → x % 2 ^ suc k ≡ x / 2 % 2 ^ k * 2 + x % 2
mod_halves x k =
    let unit : 2 ^ suc k ≡ 2 ^ k * 2 = pow-suc 2 k in
    let below : x / 2 % 2 ^ k < 2 ^ k = mod-lt (x / 2) (one-le-pow k 2 (omega arith)) in
    let split : x ≡ x / 2 / 2 ^ k * 2 ^ suc k + (x / 2 % 2 ^ k * 2 + x % 2) =
      omega (arith, div-add-mod' (x / 2) (2 ^ k), ap (λ (t : ℕ). x / 2 / 2 ^ k * t) unit) in
    ap (λ (t : ℕ). t % 2 ^ suc k) split
    ∙ mul-add-mod_self_right (x / 2 / 2 ^ k) (2 ^ suc k) (x / 2 % 2 ^ k * 2 + x % 2)
    ∙ mod-eq_of_lt (omega arith)

-- `|` of numbers that share no bit is their sum.
pub bit_or-shifted : (k a b : ℕ) → b < 2 ^ k → bit_or (a * 2 ^ k) b ≡ a * 2 ^ k + b
bit_or-shifted zero a b h =
    let none_left : b ≡ 0 = omega arith in rw none_left (omega (arith, bit_or-zero (a * 1)))
bit_or-shifted (suc k) a b h =
    let unit : 2 ^ suc k ≡ 2 ^ k * 2 = pow-suc 2 k in
    let shifted : a * 2 ^ suc k ≡ a * 2 ^ k * 2 = omega (arith, ap (λ (t : ℕ). a * t) unit) in
    rw shifted (
      omega (
        arith,
        bit_or-halves (a * 2 ^ k * 2) b,
        ap (λ (t : ℕ). bit_or t (b / 2)) (twice (a * 2 ^ k)),
        bit_or-shifted k a (b / 2) (omega arith),
        unit,
      ))

-- `&` with the mask of the k lowest bits.
pub bit_and-low : (k x : ℕ) → bit_and x (2 ^ k - 1) ≡ x % 2 ^ k
bit_and-low zero x = omega (arith, bit_and-zero x)
bit_and-low (suc k) x =
    let unit : 2 ^ suc k ≡ 2 ^ k * 2 = pow-suc 2 k in
    let positive : 1 ≤ 2 ^ k = one-le-pow k 2 (omega arith) in
    let mask : (2 ^ suc k - 1) / 2 ≡ 2 ^ k - 1 = omega arith in
    omega (
      arith,
      bit_and-halves x (2 ^ suc k - 1),
      ap (λ (t : ℕ). bit_and (x / 2) t) mask,
      bit_and-low k (x / 2),
      mod_halves x k,
    )

-- A mask of the bits from k on clears a number below.
pub bit_and-high : (k a b : ℕ) → b < 2 ^ k → bit_and b (a * 2 ^ k) ≡ 0
bit_and-high zero a b h =
    let none_left : b ≡ 0 = omega arith in rw none_left (omega (arith, bit_and-bitwise 0 (a * 1)))
bit_and-high (suc k) a b h =
    let unit : 2 ^ suc k ≡ 2 ^ k * 2 = pow-suc 2 k in
    let shifted : a * 2 ^ suc k ≡ a * 2 ^ k * 2 = omega (arith, ap (λ (t : ℕ). a * t) unit) in
    rw shifted (
      omega (
        arith,
        bit_and-halves b (a * 2 ^ k * 2),
        ap (λ (t : ℕ). bit_and (b / 2) t) (twice (a * 2 ^ k)),
        bit_and-high k a (b / 2) (omega arith),
      ))

-- A mask of bits from k on reads the number without its k lowest bits.
pub bit_and-shifted : (k x a : ℕ) → bit_and x (a * 2 ^ k) ≡ bit_and (x / 2 ^ k) a * 2 ^ k
bit_and-shifted zero x a =
    let whole : x / 1 ≡ x = omega arith in
    let mask : a * 1 ≡ a = omega arith in rw (whole, mask) (omega arith)
bit_and-shifted (suc k) x a =
    let unit : 2 ^ suc k ≡ 2 ^ k * 2 = pow-suc 2 k in
    let shifted : a * 2 ^ suc k ≡ a * 2 ^ k * 2 = omega (arith, ap (λ (t : ℕ). a * t) unit) in
    let halves : x / 2 / 2 ^ k ≡ x / 2 ^ suc k =
      div-div-eq-div-mul x 2 (2 ^ k) ∙ ap (λ (t : ℕ). x / t) (omega arith) in
    let m = bit_and (x / 2 ^ suc k) a in
    rw shifted (
      omega (
        arith,
        bit_and-halves x (a * 2 ^ k * 2),
        ap (λ (t : ℕ). bit_and (x / 2) t) (twice (a * 2 ^ k)),
        bit_and-shifted k (x / 2) a,
        ap (λ (t : ℕ). bit_and t a * 2 ^ k) halves,
        ap (λ (t : ℕ). m * t) unit,
      ))

-- `&` with a mask of w bits from k on.
pub bit_and-middle : (k w x : ℕ) → bit_and x ((2 ^ w - 1) * 2 ^ k) ≡ x / 2 ^ k % 2 ^ w * 2 ^ k
bit_and-middle k w x =
    bit_and-shifted k x (2 ^ w - 1) ∙ ap (λ (t : ℕ). t * 2 ^ k) (bit_and-low w (x / 2 ^ k))
