-- ===== src/Freestanding/Llist/Chain.antt =====
-- Chains of entries, and what `append` makes of one.
use hypervi.Base.{
  ℕ, zero, suc, ◌+◌, ◌<◌, ◌≤◌, ◌≡◌, ◌≢◌, refl, sym, ap, ◌∙◌, arith, true, false, List, [], ◌∷◌,
  ◌++◌, some, ◌==◌, All, length,
}
use mathlib.Core.Option.{some-injective}
use hypervi.Freestanding.Llist.{Lliste, Store, set_entry, lliste, tail, append}

same_address : (a : ℕ) → (a == a) ≡ true
same_address a = ground arith

other_address : (a b : ℕ) → a ≢ b → (a == b) ≡ false
other_address a b h = ground arith

module _ {T : Type 0} where
  abbrev pub first_of : List (ℕ × T) → ℕ
  first_of [] = 0
  first_of (entry ∷ l) = entry.0

  -- The entries of a list stand in the store, each with the ones before and behind it.
  abbrev pub Chain : (s : Store T) (prev : ℕ) → List (ℕ × T) → Type 0
  Chain s prev [] = Unit
  Chain s prev ((address, value) ∷ l) =
      (address ≢ 0)
      × (s address ≡ some (record { m_prev = prev; m_next = first_of l; m_data = value }))
      × Chain s address l

  -- No entry of a list stands at either address.
  abbrev pub Apart : (a b : ℕ) → List (ℕ × T) → Type 0
  Apart a b l = All (λ (entry : ℕ × T). (entry.0 ≢ a) × (entry.0 ≢ b)) l

  -- The entry at an address of a chain.
  entry_of :
      (s : Store T) (prev this : ℕ) (d : T) (before behind : List (ℕ × T))
      → Chain s prev (before ++ ((this, d) ∷ behind))
      → (e : Lliste T) × (s this ≡ some e)
  entry_of s prev this d [] behind chain = (_, chain.1)
  entry_of s prev this d ((address, value) ∷ before) behind chain =
      entry_of s address this d before behind chain.2

  -- A store that differs in the entry `this`, whose successor is now `new_entry`, and there.
  relinked :
      (s s' : Store T) (prev this new_entry : ℕ) (d x : T) (before behind : List (ℕ × T))
      → Chain s prev (before ++ ((this, d) ∷ behind))
      → Apart this new_entry before
      → new_entry ≢ 0
      → ((e : Lliste T) → s this ≡ some e → s' this ≡ some (record e { m_next = new_entry }))
      → s' new_entry ≡ some (lliste x this)
      → ((a : ℕ) → a ≢ this → a ≢ new_entry → s' a ≡ s a)
      → Chain s' prev (before ++ ((this, d) ∷ (new_entry, x) ∷ []))
  relinked s s' prev this new_entry d x [] behind chain apart some_entry linked made rest =
      (chain.0, linked _ chain.1, (some_entry, made, tt))
  relinked s s' prev this new_entry d x ((address, value) ∷ []) behind chain apart some_entry linked
        made rest =
      (
        chain.0,
        rest address apart.0.0 apart.0.1 ∙ chain.1,
        relinked s s' address this new_entry d x [] behind chain.2 tt some_entry linked made rest,
      )
  relinked s s' prev this new_entry d x ((address, value) ∷ next ∷ before) behind chain apart
        some_entry linked made rest =
      (
        chain.0,
        rest address apart.0.0 apart.0.1 ∙ chain.1,
        relinked s s' address this new_entry d x (next ∷ before) behind chain.2 apart.1 some_entry
            linked made rest,
      )

  -- The address of the last entry.
  abbrev last_of : List (ℕ × T) → ℕ → ℕ
  last_of [] a = a
  last_of (entry ∷ l) a = last_of l entry.0

  -- `tail` finds the last entry of a chain within as many rounds as the chain has entries.
  tail-last_of :
      (s : Store T) (l : List (ℕ × T)) (prev this : ℕ) (d : T) (fuel : ℕ)
      → Chain s prev ((this, d) ∷ l)
      → length l < fuel
      → tail fuel this s ≡ some (last_of l this)
  unfolding tail
  tail-last_of s l prev this d zero chain enough = absurd (omega arith)
  tail-last_of s [] prev this d (suc fuel) chain enough = rw chain.1 refl
  tail-last_of s ((next, value) ∷ l) prev this d (suc fuel) chain enough =
      let further : (next == 0) ≡ false = other_address next 0 chain.2.0 in
      rw (chain.1, further) (tail-last_of s l this next value fuel chain.2 (omega arith))

  two_more :
      (l : List (ℕ × T)) (b c : ℕ × T) (a : ℕ)
      → (last_of (l ++ (b ∷ c ∷ [])) a ≡ c.0) × (length (l ++ (b ∷ c ∷ [])) ≡ length l + 2)
  two_more [] b c a = (refl, refl)
  two_more (entry ∷ l) b c a =
      let (last, more) = two_more l b c entry.0 in (last, omega (arith, more))

  -- The tail of a chain whose last entries are `this` and `new_entry`.
  tail-appended :
      (s : Store T) (prev this new_entry : ℕ) (d x : T) (before : List (ℕ × T)) (fuel : ℕ)
      → Chain s prev (before ++ ((this, d) ∷ (new_entry, x) ∷ []))
      → length before + 2 ≤ fuel
      → tail fuel (first_of (before ++ ((this, d) ∷ (new_entry, x) ∷ []))) s ≡ some new_entry
  tail-appended s prev this new_entry d x [] fuel chain enough =
      tail-last_of s ((new_entry, x) ∷ []) prev this d fuel chain (omega arith)
  tail-appended s prev this new_entry d x ((first, value) ∷ before) fuel chain enough =
      let (last, more) = two_more before (this, d) (new_entry, x) first in
      tail-last_of s (before ++ ((this, d) ∷ (new_entry, x) ∷ [])) prev first value fuel chain
        (omega (arith, more))
      ∙ ap some last

  -- `append` at an entry of a chain puts the new one behind it, where `tail` then finds it
  -- from the first entry. What stood behind that entry is no longer of the chain.
  pub append-Chain :
      (s : Store T) (prev this new_entry : ℕ) (d x : T) (before behind : List (ℕ × T))
      → Chain s prev (before ++ ((this, d) ∷ behind))
      → Apart this new_entry before
      → this ≢ new_entry
      → new_entry ≢ 0
      → (s' : Store T) × (append new_entry x this s ≡ some s')
        × Chain s' prev (before ++ ((this, d) ∷ (new_entry, x) ∷ []))
        × ((fuel : ℕ)
            → length before + 2 ≤ fuel
            → tail fuel (first_of (before ++ ((this, d) ∷ (new_entry, x) ∷ []))) s'
              ≡ some new_entry)
  unfolding append
  append-Chain s prev this new_entry d x before behind chain apart other some_entry =
      let (e, here) = entry_of s prev this d before behind chain in
      let apart_new = other_address this new_entry other in
      let linked : Chain (after e) prev (before ++ ((this, d) ∷ (new_entry, x) ∷ [])) =
        relinked s (after e) prev this new_entry d x before behind chain apart some_entry
          (λ e' there. rw (same_address this) (
            ap (λ (t : Lliste T). some (record t { m_next = new_entry }))
              (some-injective e e' (sym here ∙ there))))
          (rw (other_address new_entry this (λ h. other (sym h)), same_address new_entry) refl)
          (λ a not_this not_new.
            rw (other_address a this not_this, other_address a new_entry not_new) refl) in
      rw (apart_new, here)
        (
          after e,
          refl,
          linked,
          λ fuel enough. tail-appended (after e) prev this new_entry d x before fuel linked enough,
        )
    where
      after : Lliste T → Store T
      after e =
          set_entry this (record e { m_next = new_entry }) (set_entry new_entry (lliste x this) s)
