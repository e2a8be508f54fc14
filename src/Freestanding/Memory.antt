-- ===== src/Freestanding/Memory.antt =====
-- Memory as bytes, and the copying of freestanding/libc/memfuncs: an address is a number, and no
-- access is checked.
pub mod Laws
use hypervi.Base.{
  ℕ, zero, suc, ◌+◌, ◌*◌, ◌/◌, ◌%◌, ◌^◌, ◌==◌, if◌then◌else◌, ltb, leb, u8, for_range, ◌&&◌, ◌-◌,
}

abbrev pub Bytes : Type 0
Bytes = ℕ → ℕ

-- `*p = v` for a byte.
unfoldable pub set_byte : (p v : ℕ) → Bytes → Bytes
set_byte p v m = λ q. if p == q then v else m q

-- `_movsb`: byte by byte, forwards.
unfoldable pub movsb : (dest source size : ℕ) → Bytes → Bytes
unfolding set_byte for_range
movsb dest source size = for_range size 0 (λ i m. set_byte (dest + i) (m (source + i)) m)

-- `_stosb`: the value is cut to a byte.
unfoldable pub stosb : (dest val size : ℕ) → Bytes → Bytes
unfolding set_byte for_range
stosb dest val size = for_range size 0 (λ i m. set_byte (dest + i) (u8 val) m)

-- `memcpy` and `memset`, which return their first argument.
unfoldable pub memcpy : (dest source num : ℕ) → Bytes → ℕ × Bytes
unfolding movsb
memcpy dest source num m = (dest, movsb dest source num m)

unfoldable pub memset : (dest ch num : ℕ) → Bytes → ℕ × Bytes
unfolding stosb
memset dest ch num m = (dest, stosb dest ch num m)

-- A number of n bytes, the lowest first.
unfoldable pub read_le : (n p : ℕ) → Bytes → ℕ
read_le zero p m = 0
read_le (suc n) p m = m p + 256 * read_le n (p + 1) m

unfoldable pub write_le : (n p v : ℕ) → Bytes → Bytes
unfolding set_byte
write_le zero p v m = m
write_le (suc n) p v m = write_le n (p + 1) (v / 256) (set_byte p (v % 256) m)
