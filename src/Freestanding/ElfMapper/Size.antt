-- ===== src/Freestanding/ElfMapper/Size.antt =====
-- The size of the mapping.
use hypervi.Base.{
  ℕ, zero, suc, ◌+◌, ◌<◌, ◌≤◌, ◌≡◌, ◌⊎◌, inl, inr, arith, if◌then◌else◌, ltb, u64, for_range,
}
use hypervi.Freestanding.Memory.{Bytes}
use hypervi.Freestanding.ElfMapper.{ElfMapper, ehdr, phdr, get_mapped_size}

module _ (f : ℕ → ℕ) where
  greater : ℕ → ℕ → ℕ
  greater i result = if ltb result (f i) then f i else result

  greatest_grows : (n i r : ℕ) → r ≤ for_range n i greater r
  unfolding greater for_range
  greatest_grows zero i r = omega arith
  greatest_grows (suc n) i r = omega (arith, greatest_grows n (suc i) (greater i r), greater_grows)
    where
      greater_grows : r ≤ greater i r
      greater_grows = ground arith

  greatest_above : (n i r j : ℕ) → i ≤ j → j < i + n → f j ≤ for_range n i greater r
  unfolding greater for_range
  greatest_above zero i r j from below = absurd (omega arith)
  greatest_above (suc n) i r j from below = elim (split j from) [
    | inl same ↦ rw same (omega (arith, greatest_grows n (suc j) (greater j r), here j))
    | inr later ↦ greatest_above n (suc i) (greater i r) j later (omega arith)
  ]
    where
      split : (j : ℕ) → i ≤ j → (i ≡ j) ⊎ (suc i ≤ j)
      split j h = omega arith

      here : (j : ℕ) → f j ≤ greater j r
      here j = ground arith

  greatest_least :
      (n i r b : ℕ) → r ≤ b → ((j : ℕ) → i ≤ j → j < i + n → f j ≤ b) → for_range n i greater r ≤ b
  unfolding greater for_range
  greatest_least zero i r b h all = h
  greatest_least (suc n) i r b h all =
      greatest_least n (suc i) (greater i r) b (ground (arith, all i (omega arith) (omega arith)))
        (λ j from below. all j (omega arith) (omega arith))

-- The end of segment i in the mapping.
abbrev pub segment_end : ElfMapper → Bytes → (i : ℕ) → ℕ
segment_end e m i = u64 ((phdr e i m).p_vaddr + (phdr e i m).p_memsz)

-- The size is the least one that no segment reaches beyond.
pub get_mapped_size_lem :
    (e : ElfMapper) (m : Bytes)
    → ((i : ℕ) → i < (ehdr e m).e_phnum → segment_end e m i ≤ get_mapped_size e m)
      × ((b : ℕ)
          → ((i : ℕ) → i < (ehdr e m).e_phnum → segment_end e m i ≤ b)
          → get_mapped_size e m ≤ b)
unfolding get_mapped_size greater
get_mapped_size_lem e m = (
  λ i h. greatest_above (segment_end e m) (ehdr e m).e_phnum 0 0 i (omega arith) (omega arith),
  λ b all.
      greatest_least (segment_end e m) (ehdr e m).e_phnum 0 0 b (omega arith)
        (λ j from below. all j (omega arith)),
)
