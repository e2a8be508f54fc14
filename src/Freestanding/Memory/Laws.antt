-- ===== src/Freestanding/Memory/Laws.antt =====
-- What copying and writing do to memory, byte by byte.
use native.Mathlib.Nat.{
  pow-suc, one-le-pow, mod-lt, mod-eq_of_lt, div-add-mod', mul-add-mod_self_right,
}
use mathlib.Core.Path.{subst}
use hypervi.Base.{
  ℕ, zero, suc, ◌+◌, ◌*◌, ◌/◌, ◌%◌, ◌^◌, ◌≤◌, ◌<◌, ◌≡◌, ◌≢◌, ◌⊎◌, inl, inr, refl, ap, ◌∙◌, arith,
  u8, for_range,
}
use hypervi.Freestanding.Memory.{Bytes, set_byte, movsb, stosb, read_le, write_le}

-- No byte outside the `n` from `p` on differs.
abbrev pub Frame : (p n : ℕ) → Bytes → Bytes → Type 0
Frame p n m m' = (q : ℕ) → (q < p) ⊎ (p + n ≤ q) → m' q ≡ m q

pub set_byte_self : (p v : ℕ) (m : Bytes) → set_byte p v m p ≡ v
unfolding set_byte
set_byte_self p v m = ground arith

pub set_byte-ne : (p v q : ℕ) (m : Bytes) → p ≢ q → set_byte p v m q ≡ m q
unfolding set_byte
set_byte-ne p v q m h = ground arith

le-split : (i j : ℕ) → i ≤ j → (i ≡ j) ⊎ (suc i ≤ j)
le-split i j h = omega arith

mod_digits : (v n : ℕ) → v % 256 ^ suc n ≡ v % 256 + 256 * (v / 256 % 256 ^ n)
mod_digits v n =
    let unit : 256 ^ suc n ≡ 256 ^ n * 256 = pow-suc 256 n in
    let below : v / 256 % 256 ^ n < 256 ^ n = mod-lt (v / 256) (one-le-pow n 256 (omega arith)) in
    let split : v ≡ v / 256 / 256 ^ n * 256 ^ suc n + (v % 256 + 256 * (v / 256 % 256 ^ n)) =
      omega (arith, div-add-mod' (v / 256) (256 ^ n), ap (λ (t : ℕ). v / 256 / 256 ^ n * t) unit) in
    ap (λ (t : ℕ). t % 256 ^ suc n) split
    ∙ mul-add-mod_self_right (v / 256 / 256 ^ n) (256 ^ suc n) (v % 256 + 256 * (v / 256 % 256 ^ n))
    ∙ mod-eq_of_lt (omega arith)

-- Copying round by round, from round `i` on.
copy_rounds : (dest source : ℕ) → (n i : ℕ) → Bytes → Bytes
copy_rounds dest source n i m = for_range n i (λ j m. set_byte (dest + j) (m (source + j)) m) m

copy_frame :
    (dest source n i : ℕ) (m : Bytes) (q : ℕ)
    → (q < dest + i) ⊎ (dest + i + n ≤ q)
    → copy_rounds dest source n i m q ≡ m q
unfolding copy_rounds for_range
copy_frame dest source zero i m q h = refl
copy_frame dest source (suc n) i m q h =
    copy_frame dest source n (suc i) (set_byte (dest + i) (m (source + i)) m) q (ground arith)
    ∙ set_byte-ne (dest + i) (m (source + i)) q m (ground arith)

pub movsb-Frame : (dest source size : ℕ) (m : Bytes) → Frame dest size m (movsb dest source size m)
unfolding movsb copy_rounds
movsb-Frame dest source size m q h = copy_frame dest source size 0 m q (ground arith)

-- Two ranges of `t` bytes that share none.
abbrev pub Apart : (p q t : ℕ) → Type 0
Apart p q t = (p + t ≤ q) ⊎ (q + t ≤ p)

copy_bytes :
    (dest source t n i : ℕ) (m : Bytes) (j : ℕ)
    → Apart dest source t
    → i + n ≤ t
    → i ≤ j
    → j < i + n
    → copy_rounds dest source n i m (dest + j) ≡ m (source + j)
unfolding copy_rounds for_range
copy_bytes dest source t zero i m j apart fits from below = absurd (omega arith)
copy_bytes dest source t (suc n) i m j apart fits from below = elim (le-split i j from) [
  | inl same ↦ rw same (
      copy_frame dest source n (suc j) (set_byte (dest + j) (m (source + j)) m) (dest + j)
        (inl (omega arith))
      ∙ set_byte_self (dest + j) (m (source + j)) m)
  | inr later ↦
      copy_bytes dest source t n (suc i) (set_byte (dest + i) (m (source + i)) m) j apart
        (omega arith) later (omega arith)
      ∙ set_byte-ne (dest + i) (m (source + i)) (source + j) m (ground arith)
]

-- Copying between ranges that share no byte puts each byte in its place.
pub movsb_lem :
    (dest source size : ℕ) (m : Bytes) (j : ℕ)
    → Apart dest source size
    → j < size
    → movsb dest source size m (dest + j) ≡ m (source + j)
unfolding movsb copy_rounds
movsb_lem dest source size m j apart h =
    copy_bytes dest source size size 0 m j apart (omega arith) (omega arith) (omega arith)

fill_rounds : (dest v : ℕ) → (n i : ℕ) → Bytes → Bytes
fill_rounds dest v n i m = for_range n i (λ j m. set_byte (dest + j) v m) m

fill_frame :
    (dest v n i : ℕ) (m : Bytes) (q : ℕ)
    → (q < dest + i) ⊎ (dest + i + n ≤ q)
    → fill_rounds dest v n i m q ≡ m q
unfolding fill_rounds for_range
fill_frame dest v zero i m q h = refl
fill_frame dest v (suc n) i m q h =
    fill_frame dest v n (suc i) (set_byte (dest + i) v m) q (ground arith)
    ∙ set_byte-ne (dest + i) v q m (ground arith)

fill_bytes :
    (dest v n i : ℕ) (m : Bytes) (j : ℕ)
    → i ≤ j
    → j < i + n
    → fill_rounds dest v n i m (dest + j) ≡ v
unfolding fill_rounds for_range
fill_bytes dest v zero i m j from below = absurd (omega arith)
fill_bytes dest v (suc n) i m j from below = elim (le-split i j from) [
  | inl same ↦ rw same (
      fill_frame dest v n (suc j) (set_byte (dest + j) v m) (dest + j) (inl (omega arith))
      ∙ set_byte_self (dest + j) v m)
  | inr later ↦ fill_bytes dest v n (suc i) (set_byte (dest + i) v m) j later (omega arith)
]

pub stosb-Frame : (dest v size : ℕ) (m : Bytes) → Frame dest size m (stosb dest v size m)
unfolding stosb fill_rounds
stosb-Frame dest v size m q h = fill_frame dest (u8 v) size 0 m q (ground arith)

pub stosb_lem :
    (dest v size : ℕ) (m : Bytes) (j : ℕ) → j < size → stosb dest v size m (dest + j) ≡ u8 v
unfolding stosb fill_rounds
stosb_lem dest v size m j h = fill_bytes dest (u8 v) size 0 m j (omega arith) (omega arith)

-- Writing a number touches its bytes only, and reading gives it back.
pub write_le-Frame : (n p v : ℕ) (m : Bytes) → Frame p n m (write_le n p v m)
unfolding write_le
write_le-Frame zero p v m q h = refl
write_le-Frame (suc n) p v m q h =
    write_le-Frame n (p + 1) (v / 256) (set_byte p (v % 256) m) q (ground arith)
    ∙ set_byte-ne p (v % 256) q m (ground arith)

pub read_le-write_le : (n p v : ℕ) (m : Bytes) → read_le n p (write_le n p v m) ≡ v % 256 ^ n
unfolding read_le write_le
read_le-write_le zero p v m = omega arith
read_le-write_le (suc n) p v m = omega (
  arith,
  write_le-Frame n (p + 1) (v / 256) (set_byte p (v % 256) m) p (inl (omega arith)),
  set_byte_self p (v % 256) m,
  read_le-write_le n (p + 1) (v / 256) (set_byte p (v % 256) m),
  mod_digits v n,
)

pub at_offset : (m m' : Bytes) (p j q : ℕ) → m' (p + j) ≡ m (p + j) → p + j ≡ q → m' q ≡ m q
at_offset m m' p j q h e = subst (λ t. m' t ≡ m t) e h

-- Bytes that two memories share read as the same number.
pub read_le-same :
    (n p : ℕ) (m m' : Bytes)
    → ((j : ℕ) → j < n → m' (p + j) ≡ m (p + j))
    → read_le n p m' ≡ read_le n p m
unfolding read_le
read_le-same zero p m m' h = refl
read_le-same (suc n) p m m' h = omega (
  arith,
  at_offset m m' p 0 p (h 0 (omega arith)) (omega arith),
  read_le-same n (p + 1) m m'
      (λ j hj. at_offset m m' p (suc j) (p + 1 + j) (h (suc j) (omega arith)) (omega arith)),
)

-- The bytes from `lo` up to `hi` are the same.
abbrev pub SameOn : (lo hi : ℕ) → Bytes → Bytes → Type 0
SameOn lo hi m m' = (q : ℕ) → lo ≤ q → q < hi → m' q ≡ m q

pub read_le-SameOn :
    (n p lo hi : ℕ) (m m' : Bytes)
    → SameOn lo hi m m'
    → lo ≤ p
    → p + n ≤ hi
    → read_le n p m' ≡ read_le n p m
read_le-SameOn n p lo hi m m' h from to =
    read_le-same n p m m' (λ j hj. h (p + j) (omega arith) (omega arith))

-- A number that stands outside a frame reads the same.
pub read_le-Frame :
    (n p lo k : ℕ) (m m' : Bytes)
    → Frame lo k m m'
    → (p + n ≤ lo) ⊎ (lo + k ≤ p)
    → read_le n p m' ≡ read_le n p m
read_le-Frame n p lo k m m' frame out = read_le-same n p m m' (λ j hj. frame (p + j) (omega arith))

-- A number written within a frame keeps it.
pub write_le_within :
    (n p v lo k : ℕ) (m m' : Bytes)
    → Frame lo k m m'
    → lo ≤ p
    → p + n ≤ lo + k
    → Frame lo k m (write_le n p v m')
write_le_within n p v lo k m m' frame from to q out =
    write_le-Frame n p v m' q (omega arith) ∙ frame q out
