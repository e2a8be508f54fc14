-- ===== src/Freestanding/Llist.antt =====
-- The doubly linked list of freestanding/llist.h, over a store of its entries by their addresses.
-- `none` is a read behind a null pointer, or too little fuel.
pub mod Chain
use hypervi.Base.{ℕ, zero, suc, Option, none, some, ◌>>=◌, ◌==◌, if◌then◌else◌}

-- `lliste<T>`; 0 is nullptr.
pub record Lliste (T : Type 0) : Type 0 where
  pub m_prev : ℕ
  pub m_next : ℕ
  pub m_data : T

abbrev pub Store : Type 0 → Type 0
Store T = ℕ → Option (Lliste T)

abbrev pub set_entry : {T : Type 0} → (address : ℕ) → Lliste T → Store T → Store T
set_entry address entry s a = if a == address then some entry else s a

-- The constructors: without a predecessor, `prev` is 0.
abbrev pub lliste : {T : Type 0} → (data_ : T) (prev : ℕ) → Lliste T
lliste data_ prev = record { m_prev = prev; m_next = 0; m_data = data_ }

module _ {T : Type 0} where
  unfoldable pub head : (fuel this : ℕ) → Store T → Option ℕ
  head zero this s = none
  head (suc fuel) this s = do
    curr ← s this
    let further = head fuel curr.m_prev s
    if curr.m_prev == 0 then some this else further

  unfoldable pub tail : (fuel this : ℕ) → Store T → Option ℕ
  tail zero this s = none
  tail (suc fuel) this s = do
    curr ← s this
    let further = tail fuel curr.m_next s
    if curr.m_next == 0 then some this else further

  -- `new_entry` is what the operator new returns.
  unfoldable pub append : (new_entry : ℕ) (data_ : T) (this : ℕ) → Store T → Option (Store T)
  append new_entry data_ this s = do
    curr ← set_entry new_entry (lliste data_ this) s this
    some (
        set_entry this (record curr { m_next = new_entry })
          (set_entry new_entry (lliste data_ this) s))
