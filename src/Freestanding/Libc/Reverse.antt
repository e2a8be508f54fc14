-- ===== src/Freestanding/Libc/Reverse.antt =====
-- The swaps of `itoa` reverse the text in place.
use mathlib.Core.Path.{subst}
use hypervi.Base.{
  ℕ, zero, suc, ◌+◌, ◌-◌, ◌/◌, ◌<◌, ◌≤◌, ◌≡◌, ◌⊎◌, inl, inr, refl, ap, ◌∙◌, arith, for_range,
}
use hypervi.Freestanding.Memory.{Bytes}
use hypervi.Freestanding.Memory.Laws.{Frame}
use hypervi.Freestanding.Libc.Itoa.{swap_round, swap_bytes}

module _ (buff len : ℕ) (m : Bytes) where
  -- After i rounds the outer i bytes on each side have changed places.
  record Swapped (i : ℕ) (s : Bytes) : Type 0 where
    pub left : (j : ℕ) → j < i → s (buff + j) ≡ m (buff + (len - j - 1))
    pub right : (j : ℕ) → j < i → s (buff + (len - j - 1)) ≡ m (buff + j)
    pub middle : (j : ℕ) → i ≤ j → j < len - i → s (buff + j) ≡ m (buff + j)
    pub outside : Frame buff len m s

  round-Swapped :
      (i : ℕ) (s : Bytes) → i < len / 2 → Swapped i s → Swapped (suc i) (swap_round buff len i s)
  unfolding swap_round
  round-Swapped i s h inv = record {
    left = λ j hj. ground (arith, inv.left j, inv.middle (len - i - 1));
    right = λ j hj. ground (arith, inv.right j, inv.middle i);
    middle = λ j from below. ground (arith, inv.middle j);
    outside = λ q apart. ground (arith, inv.outside q apart);
  }

  swaps-Swapped :
      (n i : ℕ) (s : Bytes)
      → i + n ≡ len / 2
      → Swapped i s
      → Swapped (len / 2) (for_range n i (swap_round buff len) s)
  unfolding for_range
  swaps-Swapped zero i s e inv =
      let e' : i ≡ len / 2 = omega arith in subst (λ t. Swapped t s) e' inv
  swaps-Swapped (suc n) i s e inv =
      swaps-Swapped n (suc i) (swap_round buff len i s) (omega arith)
        (round-Swapped i s (omega arith) inv)

  swapped : Swapped (len / 2) (swap_bytes buff len m)
  unfolding swap_bytes
  swapped = swaps-Swapped (len / 2) 0 m (omega arith) (record {
    left = λ j h. absurd (omega arith);
    right = λ j h. absurd (omega arith);
    middle = λ j from below. refl;
    outside = λ q apart. refl;
  })

  pub swap_bytes-Frame : Frame buff len m (swap_bytes buff len m)
  swap_bytes-Frame = swapped.outside

  -- Byte j of the text is then byte j from its end.
  pub swap_bytes_lem :
      (j : ℕ) → j < len → swap_bytes buff len m (buff + j) ≡ m (buff + (len - j - 1))
  swap_bytes_lem j h = elim (thirds j h) [
    | inl left ↦ swapped.left j left
    | inr (inl right) ↦
        subst (λ t. swap_bytes buff len m (buff + t) ≡ m (buff + (len - j - 1))) (omega arith)
          (swapped.right (len - j - 1) right)
    | inr (inr middle) ↦
        swapped.middle j (omega arith) (omega arith) ∙ ap (λ t. m (buff + t)) (omega arith)
  ]
    where
      thirds :
          (j : ℕ)
          → j < len
          → (j < len / 2) ⊎ ((len - j - 1 < len / 2) ⊎ ((len / 2 ≤ j) × (j < len - len / 2)))
      thirds j h = omega arith
