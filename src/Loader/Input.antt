-- ===== src/Loader/Input.antt =====
-- Waiting for a key: loader/efi/input.cc. The events and the strokes are the firmware's.
use hypervi.Base.{
  ℕ, zero, suc, ◌+◌, ◌<◌, ◌≤◌, ◌≡◌, ◌≢◌, ◌⊎◌, refl, ap, ◌∙◌, arith, Bool, true, false, Option, none,
  some, ◌/=◌, ◌||◌, if◌then◌else◌,
}

-- `efi_stip_key`
pub record EfiStipKey : Type 0 where
  pub scan_code : ℕ
  pub unicode_char : ℕ

-- The test that ends the loop.
abbrev pub is_pressed : EfiStipKey → Bool
is_pressed key = key.unicode_char /= 0 || key.scan_code /= 0

-- What `read_key_stroke` leaves in `key`: `none` is a failure, which stores nothing.
abbrev pub read_key_stroke : Option EfiStipKey → EfiStipKey → EfiStipKey
read_key_stroke none key = key
read_key_stroke (some stroke) key = stroke

-- The loop, on fuel: `none` means that it still waits. The result is the number of events that
-- were waited for; stroke `n` is what is read behind event `n`. `key` is not initialised.
unfoldable pub efi_input_wait_for_key :
    (fuel : ℕ) (strokes : ℕ → Option EfiStipKey) (n : ℕ) (key : EfiStipKey) → Option ℕ
efi_input_wait_for_key zero strokes n key = none
efi_input_wait_for_key (suc fuel) strokes n key =
    let read = read_key_stroke (strokes n) key in
    let rest = efi_input_wait_for_key fuel strokes (suc n) read in
    if is_pressed read then some (suc n) else rest

-- A key that was pressed has a character or a scan code; an empty stroke has neither.
abbrev pub HasKey : EfiStipKey → Type 0
HasKey key = (key.unicode_char ≢ 0) ⊎ (key.scan_code ≢ 0)

abbrev pub IsEmpty : EfiStipKey → Type 0
IsEmpty key = (key.unicode_char ≡ 0) × (key.scan_code ≡ 0)

pressed_key : (key : EfiStipKey) → HasKey key → is_pressed key ≡ true
pressed_key key h = ground arith

empty_key : (key : EfiStipKey) → IsEmpty key → is_pressed key ≡ false
empty_key key h = ground (arith, h.0, h.1)

-- Before key `k` only empty strokes are read.
abbrev Silent : (strokes : ℕ → Option EfiStipKey) (n k : ℕ) → Type 0
Silent strokes n k = (j : ℕ) → n ≤ j → j < k → (s : EfiStipKey) × (strokes j ≡ some s) × IsEmpty s

waits_from :
    (strokes : ℕ → Option EfiStipKey) (key : EfiStipKey) (left n k : ℕ) (pressed : EfiStipKey)
    → n + left ≡ k
    → Silent strokes n k
    → strokes k ≡ some pressed
    → HasKey pressed
    → (fuel : ℕ) → left < fuel
    → efi_input_wait_for_key fuel strokes n key ≡ some (suc k)
unfolding efi_input_wait_for_key
waits_from strokes key left n k pressed end silent at down zero enough = absurd (omega arith)
waits_from strokes key zero n k pressed end silent at down (suc fuel) enough =
    let here : n ≡ k = omega arith in rw (here, at, pressed_key pressed down) refl
waits_from strokes key (suc left) n k pressed end silent at down (suc fuel) enough =
    let (s, read, empty) = silent n (omega arith) (omega arith) in
    rw (read, empty_key s empty)
      (waits_from strokes s left (suc n) k pressed (omega arith)
        (λ j from below. silent j (omega arith) below) at down fuel (omega arith))

never_from :
    (strokes : ℕ → Option EfiStipKey)
    → ((j : ℕ) → (s : EfiStipKey) × (strokes j ≡ some s) × IsEmpty s)
    → (fuel n : ℕ) (key : EfiStipKey) → efi_input_wait_for_key fuel strokes n key ≡ none
unfolding efi_input_wait_for_key
never_from strokes silent zero n key = refl
never_from strokes silent (suc fuel) n key =
    let (s, read, empty) = silent n in
    rw (read, empty_key s empty) (never_from strokes silent fuel (suc n) s)

-- What the loader reads keys from: the strokes, and what an uninitialised key holds.
pub record Keyboard : Type 0 where
  pub strokes : ℕ → Option EfiStipKey
  pub key : EfiStipKey

-- From event n on, fewer than `wait` empty strokes are read before a key.
abbrev pub IsTypedFrom : (K : Keyboard) (wait n : ℕ) → Type 0
IsTypedFrom K wait n =
    (left : ℕ) × (left < wait)
    × (pressed : EfiStipKey) × Silent K.strokes n (n + left)
    × (K.strokes (n + left) ≡ some pressed)
    × HasKey pressed

-- So it is from every event on.
abbrev pub IsTyped : (K : Keyboard) (wait : ℕ) → Type 0
IsTyped K wait = (n : ℕ) → IsTypedFrom K wait n

-- Then a wait for a key ends.
pub IsTyped-ends :
    (K : Keyboard) (wait n : ℕ)
    → IsTypedFrom K wait n
    → (m : ℕ) × (efi_input_wait_for_key wait K.strokes n K.key ≡ some m)
IsTyped-ends K wait n typed =
    let (left, enough, pressed, silent, at, down) = typed in
    (
      suc (n + left),
      waits_from K.strokes K.key left n (n + left) pressed refl silent at down wait enough,
    )

-- Where every stroke can be read, the wait ends at the first that has a character or a scan code,
-- whatever the key held before, and within as many rounds as there are strokes up to it; without
-- such a stroke it runs on.
pub efi_input_wait_for_key-ends :
    (strokes : ℕ → Option EfiStipKey) (key : EfiStipKey)
    → ((k : ℕ) (pressed : EfiStipKey)
        → ((j : ℕ) → j < k → (s : EfiStipKey) × (strokes j ≡ some s) × IsEmpty s)
        → strokes k ≡ some pressed
        → HasKey pressed
        → (fuel : ℕ) → k < fuel
        → efi_input_wait_for_key fuel strokes 0 key ≡ some (k + 1))
      × (((j : ℕ) → (s : EfiStipKey) × (strokes j ≡ some s) × IsEmpty s)
          → (fuel : ℕ) → efi_input_wait_for_key fuel strokes 0 key ≡ none)
efi_input_wait_for_key-ends strokes key = (
  λ k pressed silent at down fuel enough.
      waits_from strokes key k 0 k pressed (omega arith) (λ j from below. silent j below) at down
        fuel enough
      ∙ ap some (omega arith),
  λ silent fuel. never_from strokes silent fuel 0 key,
)
