-- ===== src/Loader/Gfx/Mode.antt =====
-- The mode that the loop chooses.
use hypervi.Base.{
  ℕ, zero, suc, ◌+◌, ◌≤◌, ◌<◌, ◌≡◌, inl, inr, refl, ap, ◌∙◌, arith, List, [], ◌∷◌, Option, none,
  some, get_elem?, leb, Bool-cases,
}
use mathlib.Core.Option.{some-injective}
use hypervi.Loader.Gfx.{select_mode}

-- A mode and its width that the loop, from mode `i` on, may end with: the current one where every
-- mode is narrower, else one of at least that width, and behind it every mode is narrower.
pub data Chosen (modes : List (Option ℕ)) (i current_mode current_width : ℕ) (r : ℕ × ℕ)
    : Type 0 where
  stays :
      r ≡ (current_mode, current_width)
      → ((j w : ℕ) → get_elem? modes j ≡ some (some w) → w < current_width)
      → Chosen modes i current_mode current_width r
  found :
      (k w : ℕ)
      → r ≡ (i + k, w)
      → get_elem? modes k ≡ some (some w)
      → current_width ≤ w
      → ((j v : ℕ) → get_elem? modes j ≡ some (some v) → v ≤ w)
      → ((j v : ℕ) → get_elem? modes j ≡ some (some v) → k < j → v < w)
      → Chosen modes i current_mode current_width r

-- A property of every mode with its number, of a list and of its tail.
each_cons :
    (P : ℕ → ℕ → Type 0) (o : Option ℕ) (l : List (Option ℕ))
    → ((v : ℕ) → o ≡ some v → P 0 v)
    → ((j v : ℕ) → get_elem? l j ≡ some (some v) → P (suc j) v)
    → (j v : ℕ) → get_elem? (o ∷ l) j ≡ some (some v)
    → P j v
each_cons P o l head tail zero v e = head v (some-injective o (some v) e)
each_cons P o l head tail (suc j) v e = tail j v e

-- The first mode is passed over.
pass :
    (o : Option ℕ) (l : List (Option ℕ)) (i m w : ℕ) (r : ℕ × ℕ)
    → ((v : ℕ) → o ≡ some v → v < w)
    → Chosen l (i + 1) m w r
    → Chosen (o ∷ l) i m w r
pass o l i m w r narrow (stays e below) = stays e (each_cons (λ j v. v < w) o l narrow below)
pass o l i m w r narrow (found k x e at from widest last) =
    found (suc k) x (e ∙ ap (λ (t : ℕ). (t, x)) (omega arith)) at from
      (each_cons (λ j v. v ≤ x) o l (λ v h. omega (arith, narrow v h)) widest)
      (each_cons (λ j v. suc k < j → v < x) o l (λ v h later. absurd (omega arith))
        (λ j v h later. last j v h (omega arith)))

-- The first mode is taken.
take_first :
    (x : ℕ) (l : List (Option ℕ)) (i m w : ℕ) (r : ℕ × ℕ)
    → w ≤ x
    → Chosen l (i + 1) i x r
    → Chosen (some x ∷ l) i m w r
take_first x l i m w r wider (stays e below) =
    found 0 x (e ∙ ap (λ (t : ℕ). (t, x)) (omega arith)) refl wider
      (each_cons (λ j v. v ≤ x) (some x) l (λ v h. omega (arith, some-injective x v h))
        (λ j v h. omega (arith, below j v h)))
      (each_cons (λ j v. 0 < j → v < x) (some x) l (λ v h later. absurd (omega arith))
        (λ j v h later. below j v h))
take_first x l i m w r wider (found k y e at from widest last) =
    found (suc k) y (e ∙ ap (λ (t : ℕ). (t, y)) (omega arith)) at (omega arith)
      (each_cons (λ j v. v ≤ y) (some x) l (λ v h. omega (arith, some-injective x v h)) widest)
      (each_cons (λ j v. suc k < j → v < y) (some x) l (λ v h later. absurd (omega arith))
        (λ j v h later. last j v h (omega arith)))

-- The loop ends with the last of the widest modes, if that is no narrower than the current one,
-- else with the current one.
pub select_mode-Chosen :
    (modes : List (Option ℕ)) (i current_mode current_width : ℕ)
    → Chosen modes i current_mode current_width (select_mode modes i current_mode current_width)
unfolding select_mode
select_mode-Chosen [] i m w = stays refl (λ j v e. cc)
select_mode-Chosen (none ∷ l) i m w =
    pass none l i m w (select_mode l (i + 1) m w) (λ v e. cc) (select_mode-Chosen l (i + 1) m w)
select_mode-Chosen (some x ∷ l) i m w = elim (Bool-cases (leb w x)) [
  | inl wider ↦ rw wider (
      take_first x l i m w (select_mode l (i + 1) i x) (ground arith)
        (select_mode-Chosen l (i + 1) i x))
  | inr narrower ↦ rw narrower (
      pass (some x) l i m w (select_mode l (i + 1) m w)
        (λ v e. let same = some-injective x v e in ground arith) (select_mode-Chosen l (i + 1) m w))
]
