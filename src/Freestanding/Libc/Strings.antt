-- ===== src/Freestanding/Libc/Strings.antt =====
-- `strlen` and `strcmp` on strings that end.
use hypervi.Base.{
  ℕ, zero, suc, ◌+◌, ◌-◌, ◌<◌, ◌≤◌, ◌≡◌, ◌≢◌, ap, ◌∙◌, arith, some, List, [], ◌∷◌, length, ◌==◌,
  if◌then◌else◌, ℤ, pos, sub_ℕ,
}
use hypervi.Freestanding.Memory.{Bytes}
use hypervi.Freestanding.Libc.{strlen_from, strlen, strcmp}

-- Memory spells a string at an address: its bytes, none of them 0, then a 0.
abbrev pub IsString : Bytes → (p : ℕ) → List ℕ → Type 0
IsString m p [] = m p ≡ 0
IsString m p (c ∷ s) = (m p ≡ c) × (c ≢ 0) × IsString m (p + 1) s

-- Memory that differs elsewhere spells the same string.
pub IsString-same :
    (m m' : Bytes) (p : ℕ) (s : List ℕ)
    → ((q : ℕ) → p ≤ q → q < p + length s + 1 → m' q ≡ m q)
    → IsString m p s
    → IsString m' p s
IsString-same m m' p [] same h = same p (omega arith) (omega arith) ∙ h
IsString-same m m' p (c ∷ s) same h = (
  same p (omega arith) (omega arith) ∙ h.0,
  h.1,
  IsString-same m m' (p + 1) s (λ q from to. same q (omega arith) (omega arith)) h.2,
)

strlen_from_lem :
    (m : Bytes) (s : List ℕ) (fuel orig p : ℕ)
    → IsString m p s
    → length s < fuel
    → strlen_from fuel orig p m ≡ some (p + length s + 1 - orig)
unfolding strlen_from
strlen_from_lem m s zero orig p h enough = absurd (omega arith)
strlen_from_lem m [] (suc fuel) orig p h enough = ground arith
strlen_from_lem m (c ∷ s) (suc fuel) orig p h enough =
    ground (arith, strlen_from_lem m s fuel orig (p + 1) h.2 (omega arith))

-- On a string that ends, `strlen` ends within as many rounds as it has bytes, its end included,
-- and returns that number: one more than the string's length.
pub strlen_lem :
    (m : Bytes) (s : List ℕ) (fuel p : ℕ)
    → IsString m p s
    → length s < fuel
    → strlen fuel p m ≡ some (length s + 1)
unfolding strlen
strlen_lem m s fuel p h enough = strlen_from_lem m s fuel p p h enough ∙ ap some (omega arith)

-- The difference of the first two bytes that differ, the end of a string counting as 0.
unfoldable pub difference : List ℕ → List ℕ → ℤ
difference [] [] = pos 0
difference [] (d ∷ t) = sub_ℕ 0 d
difference (c ∷ s) [] = sub_ℕ c 0
difference (c ∷ s) (d ∷ t) = if c == d then difference s t else sub_ℕ c d

-- On strings that end, `strcmp` ends within the length of its first argument and returns the
-- difference of the first two bytes that differ.
pub strcmp-difference :
    (m : Bytes) (s t : List ℕ) (fuel a b : ℕ)
    → IsString m a s
    → IsString m b t
    → length s < fuel
    → strcmp fuel a b m ≡ some (difference s t)
unfolding strcmp difference
strcmp-difference m s t zero a b hs ht enough = absurd (omega arith)
strcmp-difference m [] [] (suc fuel) a b hs ht enough = ground arith
strcmp-difference m [] (d ∷ t) (suc fuel) a b hs ht enough = ground arith
strcmp-difference m (c ∷ s) [] (suc fuel) a b hs ht enough = ground arith
strcmp-difference m (c ∷ s) (d ∷ t) (suc fuel) a b hs ht enough =
    ground (arith, strcmp-difference m s t fuel (a + 1) (b + 1) hs.2 ht.2 (omega arith))
