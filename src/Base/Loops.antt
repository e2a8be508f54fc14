-- ===== src/Base/Loops.antt =====
-- Counted loops, with the invariant rules that the components share.
use Prim.Native.Nat.{ℕ, zero, suc, ◌+◌, ◌<◌}
use mathlib.Core.Path.{◌≡◌, sym, subst}
use mathlib.Core.Logic.{◌⊎◌, inl, inr}
use native.Mathlib.Omega.{arith}

-- `for (k = i; k < i + n; k++) s = body k s`, by the rounds left.
unfoldable pub for_range {ℓ} : {S : Type ℓ} → ℕ → ℕ → (ℕ → S → S) → S → S
for_range zero i body s = s
for_range (suc n) i body s = for_range n (suc i) body (body i s)

le-cases : (j i : ℕ) → j < suc i → (j < i) ⊎ (j ≡ i)
le-cases j i h = omega arith

module _ {ℓ κ λ'} {S : Type ℓ} (I : ℕ → S → Type κ) (P : ℕ → S → Type λ') (body : ℕ → S → S)
    (end : ℕ) (step : (i : ℕ) (s : S) → i < end → I i s → I (suc i) (body i s) × P i (body i s))
    (keep : (i j : ℕ) (s : S) → i < end → I i s → j < i → P j s → P j (body i s)) where
  for_range_from :
      (n i : ℕ) (s : S)
      → i + n ≡ end
      → I i s
      → ((j : ℕ) → j < i → P j s)
      → I end (for_range n i body s) × ((j : ℕ) → j < end → P j (for_range n i body s))
  unfolding for_range
  for_range_from zero i s e inv done =
      let e' : i ≡ end = omega arith in (subst (λ t. I t s) e' inv, λ j h. done j (omega arith))
  for_range_from (suc n) i s e inv done =
      let below : i < end = omega arith in
      for_range_from n (suc i) (body i s) (omega arith) (step i s below inv).0 λ j h.
        elim (le-cases j i h) [
          | inl lt ↦ keep i j s below inv lt (done j lt)
          | inr eq ↦ subst (λ t. P t (body i s)) (sym eq) (step i s below inv).1
        ]

  -- Round i establishes `P i`, no later round breaks it, and each round keeps `I`.
  pub for_range_each :
      (s : S)
      → I 0 s
      → I end (for_range end 0 body s) × ((j : ℕ) → j < end → P j (for_range end 0 body s))
  for_range_each s inv = for_range_from end 0 s (omega arith) inv (λ j h. absurd (omega arith))

-- What holds at the start and is kept by every round holds at the end.
pub for_range_keeps {ℓ κ} :
    {S : Type ℓ} (P : S → Type κ) (body : ℕ → S → S) (end : ℕ)
    → ((j : ℕ) (s : S) → j < end → P s → P (body j s))
    → (n i : ℕ) (s : S) → i + n ≡ end
    → P s
    → P (for_range n i body s)
unfolding for_range
for_range_keeps P body end step zero i s e h = h
for_range_keeps P body end step (suc n) i s e h =
    for_range_keeps P body end step n (suc i) (body i s) (omega arith) (step i s (omega arith) h)
