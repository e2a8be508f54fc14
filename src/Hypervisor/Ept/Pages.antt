-- ===== src/Hypervisor/Ept/Pages.antt =====
-- Pages of 512 slots: writes to one page leave the others alone.
use hypervi.Base.{ℕ, ◌+◌, ◌*◌, ◌%◌, ◌<◌, ◌≡◌, ◌≢◌, refl, ◌∙◌, arith, for_range, for_range_each}
use hypervi.Hypervisor.Ept.{Memory, write, zero_page}

-- Aligned pages that differ share no slot.
pub slots_apart :
    (p q i j : ℕ)
    → p % 0x1000 ≡ 0
    → q % 0x1000 ≡ 0
    → p ≢ q
    → i < 512
    → j < 512
    → p + 8 * i ≢ q + 8 * j
slots_apart p q i j hp hq ne hi hj = omega arith

pub write_self : (a v : ℕ) (m : Memory) → write a v m a ≡ v
unfolding write
write_self a v m = ground arith

pub write_ne : (a v : ℕ) (m : Memory) (b : ℕ) → b ≢ a → write a v m b ≡ m b
unfolding write
write_ne a v m b h = ground arith

pub zero_page_ne :
    (p q i : ℕ) (m : Memory)
    → p % 0x1000 ≡ 0
    → q % 0x1000 ≡ 0
    → p ≢ q
    → i < 512
    → zero_page p m (q + 8 * i) ≡ m (q + 8 * i)
unfolding zero_page
zero_page_ne p q i m hp hq ne hi = ground arith

-- A loop that fills the slots of a page in order.
module _ (p : ℕ) (f : ℕ → ℕ) where
  abbrev pub fill : Memory → Memory
  fill = for_range 512 0 (λ i m. write (p + 8 * i) (f i) m)

  pub fill_at : (m : Memory) (j : ℕ) → j < 512 → fill m (p + 8 * j) ≡ f j
  fill_at m =
      (for_range_each (λ i m. Unit {0}) (λ j m. m (p + 8 * j) ≡ f j)
        (λ i m. write (p + 8 * i) (f i) m) 512 (λ i m _ _. (tt, write_self (p + 8 * i) (f i) m))
        (λ i j m _ _ lt e. write_ne (p + 8 * i) (f i) m (p + 8 * j) (omega arith) ∙ e) m tt).1

  pub fill_ne : (m : Memory) (a : ℕ) → ((j : ℕ) → j < 512 → a ≢ p + 8 * j) → fill m a ≡ m a
  fill_ne m a apart =
      (for_range_each (λ i m'. m' a ≡ m a) (λ j m. Unit {0}) (λ i m. write (p + 8 * i) (f i) m) 512
        (λ i m' h e. (write_ne (p + 8 * i) (f i) m' a (apart i h) ∙ e, tt)) (λ i j m' _ _ _ _. tt) m
        refl).0
