-- ===== src/Loader/Idt/Hooks.antt =====
-- What the hooked table holds, and the way back from it.
use hypervi.Base.{
  ℕ, ◌+◌, ◌*◌, ◌^◌, ◌<◌, ◌≤◌, ◌≡◌, ◌≢◌, ◌⊎◌, inl, inr, refl, ◌∙◌, arith, List, [], ◌∷◌, Option, All,
  u16, u32, ◌>>>◌,
}
use hypervi.Freestanding.Memory.{Bytes, memcpy, movsb, read_le, write_le}
use hypervi.Freestanding.Memory.Laws.{
  Frame, Apart, movsb-Frame, movsb_lem, write_le-Frame, read_le-write_le, read_le-same, at_offset,
}
use hypervi.Loader.Idt.{Hook, IdtState, hooks, sizeof_idt_entry, set_handler, install, efi_idt_init}

-- The handler that the processor takes from an entry: the three parts of the offset.
unfoldable pub isr_address : (entry : ℕ) → Bytes → ℕ
isr_address entry m =
    read_le 2 entry m + 2 ^ 16 * read_le 2 (entry + 6) m + 2 ^ 32 * read_le 4 (entry + 8) m

-- Byte o of an entry is part of the offset.
abbrev pub IsOffset : ℕ → Type 0
IsOffset o = (o < 2) ⊎ ((6 ≤ o) × (o < 12))

module _ (entry ptr : ℕ) (m : Bytes) where
  low : Bytes
  low = write_le 2 entry (u16 ptr) m

  mid : Bytes
  mid = write_le 2 (entry + 6) (u16 (ptr >>> 16)) low

  -- Every byte that is no part of the offset stays.
  set_handler_kept :
      (q : ℕ)
      → (q < entry) ⊎ ((entry + 2 ≤ q) × (q < entry + 6)) ⊎ (entry + 12 ≤ q)
      → set_handler entry ptr m q ≡ m q
  unfolding set_handler low mid
  set_handler_kept q h =
      write_le-Frame 4 (entry + 8) (u32 (ptr >>> 32)) mid q (ground arith)
      ∙ write_le-Frame 2 (entry + 6) (u16 (ptr >>> 16)) low q (ground arith)
      ∙ write_le-Frame 2 entry (u16 ptr) m q (ground arith)

  set_handler_lem : ptr < 2 ^ 64 → isr_address entry (set_handler entry ptr m) ≡ ptr
  unfolding set_handler isr_address low mid
  set_handler_lem h =
      let high = u32 (ptr >>> 32) in
      let end = write_le 4 (entry + 8) high mid in
      let first = read_le-same 2 entry low end (λ j hj.
        write_le-Frame 4 (entry + 8) high mid (entry + j) (inl (omega arith))
        ∙ write_le-Frame 2 (entry + 6) (u16 (ptr >>> 16)) low (entry + j) (inl (omega arith))) in
      let second =
        read_le-same 2 (entry + 6) mid end
          (λ j hj. write_le-Frame 4 (entry + 8) high mid (entry + 6 + j) (inl (omega arith))) in
      rw
        (
          first,
          second,
          read_le-write_le 2 entry (u16 ptr) m,
          read_le-write_le 2 (entry + 6) (u16 (ptr >>> 16)) low,
          read_le-write_le 4 (entry + 8) high mid,
        )
        (omega arith)

abbrev pub entry_of : (custom_idt : ℕ) → Hook → ℕ
entry_of custom_idt h = custom_idt + sizeof_idt_entry * h.index

-- An address is no part of the offset of a hook's entry.
abbrev pub IsKept : (custom_idt q : ℕ) → Hook → Type 0
IsKept custom_idt q h =
    (q < entry_of custom_idt h)
    ⊎ ((entry_of custom_idt h + 2 ≤ q) × (q < entry_of custom_idt h + 6))
    ⊎ (entry_of custom_idt h + 12 ≤ q)

install_kept :
    (custom_idt q : ℕ) (l : List Hook) (m : Bytes)
    → All (IsKept custom_idt q) l
    → install custom_idt l m q ≡ m q
unfolding install
install_kept custom_idt q [] m all = refl
install_kept custom_idt q (h ∷ l) m all =
    install_kept custom_idt q l (set_handler (entry_of custom_idt h) h.handler m) all.1
    ∙ set_handler_kept (entry_of custom_idt h) h.handler m q all.0

isr_address-same :
    (entry : ℕ) (m m' : Bytes)
    → ((o : ℕ) → IsOffset o → m' (entry + o) ≡ m (entry + o))
    → isr_address entry m' ≡ isr_address entry m
unfolding isr_address
isr_address-same entry m m' same =
    rw
      (
        read_le-same 2 entry m m' (λ j hj. same j (inl hj)),
        read_le-same 2 (entry + 6) m m' (λ j hj.
            at_offset m m' entry (6 + j) (entry + 6 + j) (same (6 + j) (inr (omega arith)))
              (omega arith)),
        read_le-same 4 (entry + 8) m m' (λ j hj.
            at_offset m m' entry (8 + j) (entry + 8 + j) (same (8 + j) (inr (omega arith)))
              (omega arith)),
      )
      refl

-- No two hooks are for the same entry.
abbrev pub IsDistinct : List Hook → Type 0
IsDistinct [] = Unit {0}
IsDistinct (h ∷ l) = All (λ (g : Hook). g.index ≢ h.index) l × IsDistinct l

other_entries :
    (custom_idt k o : ℕ) (l : List Hook)
    → IsOffset o
    → All (λ (g : Hook). g.index ≢ k) l
    → All (IsKept custom_idt (custom_idt + sizeof_idt_entry * k + o)) l
other_entries custom_idt k o [] ho all = tt
other_entries custom_idt k o (g ∷ l) ho all =
    (ground arith, other_entries custom_idt k o l ho all.1)

install_handlers :
    (custom_idt : ℕ) (l : List Hook) (m : Bytes)
    → IsDistinct l
    → All (λ (h : Hook). h.handler < 2 ^ 64) l
    → All (λ (h : Hook). isr_address (entry_of custom_idt h) (install custom_idt l m) ≡ h.handler) l
unfolding install
install_handlers custom_idt [] m distinct word = tt
install_handlers custom_idt (h ∷ l) m distinct word =
    let first = set_handler (entry_of custom_idt h) h.handler m in
    (
      isr_address-same (entry_of custom_idt h) first (install custom_idt l first) (λ o ho.
            install_kept custom_idt (entry_of custom_idt h + o) l first
              (other_entries custom_idt h.index o l ho distinct.0))
          ∙ set_handler_lem (entry_of custom_idt h) h.handler m word.0,
      install_handlers custom_idt l first distinct.1 word.1,
    )

module _ (stub : ℕ → ℕ) (answer : Option ℕ) (s : IdtState) where
  stubs_word : ((k : ℕ) → stub k < 2 ^ 64) → All (λ (h : Hook). h.handler < 2 ^ 64) (hooks stub)
  stubs_word word = (word 6, (word 8, (word 10, (word 11, (word 12, (word 13, (word 14, tt)))))))

  -- The hooked entries end below byte 240.
  outside :
      (to limit q : ℕ) → 240 ≤ limit → (q < to) ⊎ (to + limit ≤ q) → All (IsKept to q) (hooks stub)
  outside to limit q size h = omega arith

  -- The state once the hooks are in place.
  abbrev pub hooked : IdtState
  hooked = efi_idt_init stub answer s

  -- The invalid opcode, the double fault, and the exceptions 10 to 14, from the invalid task state
  -- segment to the page fault.
  abbrev pub exceptions : List ℕ
  exceptions = 6 ∷ 8 ∷ 10 ∷ 11 ∷ 12 ∷ 13 ∷ 14 ∷ []

  -- Byte q of a table is no part of the offset in entry k.
  abbrev pub IsOther : (q k : ℕ) → Type 0
  IsOther q k = (q < 16 * k) ⊎ ((16 * k + 2 ≤ q) × (q < 16 * k + 6)) ⊎ (16 * k + 12 ≤ q)

  -- A byte that is no part of a hooked offset.
  byte-IsKept : (to q : ℕ) → All (IsOther q) exceptions → All (IsKept to (to + q)) (hooks stub)
  byte-IsKept to q h = (
    part to q 6 h.0,
    (
      part to q 8 h.1.0,
      (
        part to q 10 h.1.1.0,
        (
          part to q 11 h.1.1.1.0,
          (
            part to q 12 h.1.1.1.1.0,
            (part to q 13 h.1.1.1.1.1.0, (part to q 14 h.1.1.1.1.1.1.0, tt)),
          ),
        ),
      ),
    ),
  )
    where
      part :
          (to q k : ℕ)
          → IsOther q k
          → (to + q < to + 16 * k)
            ⊎ ((to + 16 * k + 2 ≤ to + q) × (to + q < to + 16 * k + 6))
            ⊎ (to + 16 * k + 12 ≤ to + q)
      part to q k h = ground arith

  -- Where the new table has no byte of the old one and every stub has a 64-bit address, the
  -- register that `efi_idt_init` loads has the old limit and the new table; in it, entry k has the
  -- address of stub k for each of the exceptions 6, 8 and 10 to 14, and every byte below the limit
  -- that is no part of those seven offsets is the old table's. Outside of the new table, of at least 15 entries,
  -- memory stays.
  pub efi_idt_init_lem :
      Apart hooked.custom_idt s.idtr.base_address s.idtr.limit
      → 240 ≤ s.idtr.limit
      → ((k : ℕ) → stub k < 2 ^ 64)
      → (hooked.idtr ≡ record { limit = s.idtr.limit; base_address = hooked.custom_idt })
        × All
            (λ (k : ℕ). isr_address (hooked.custom_idt + 16 * k) hooked.memory ≡ stub k)
            exceptions
        × ((q : ℕ)
            → q < s.idtr.limit
            → All (IsOther q) exceptions
            → hooked.memory (hooked.custom_idt + q) ≡ s.memory (s.idtr.base_address + q))
        × Frame hooked.custom_idt s.idtr.limit s.memory hooked.memory
  unfolding efi_idt_init memcpy
  efi_idt_init_lem apart size word =
      let to = hooked.custom_idt in
      let copied = movsb to s.idtr.base_address s.idtr.limit s.memory in
      (
        refl,
        install_handlers to (hooks stub) copied (omega arith) (stubs_word word),
        (λ q h kept.
            install_kept to (to + q) (hooks stub) copied (byte-IsKept to q kept)
            ∙ movsb_lem to s.idtr.base_address s.idtr.limit s.memory q apart h),
        (λ q h.
            install_kept to q (hooks stub) copied (outside to s.idtr.limit q size h)
            ∙ movsb-Frame to s.idtr.base_address s.idtr.limit s.memory q h),
      )
