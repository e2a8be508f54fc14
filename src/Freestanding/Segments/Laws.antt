-- ===== src/Freestanding/Segments/Laws.antt =====
-- Bases and access rights of segments.
use native.Mathlib.Nat.{mod-eq_of_lt, zero-mod}
use hypervi.Base.{
  ℕ, ◌+◌, ◌-◌, ◌*◌, ◌%◌, ◌^◌, ◌<◌, ◌≡◌, refl, ◌∙◌, inl, inr, Bool, false, true, get-zero,
  Bool-cases, ◌&&◌, ◌||◌, ◌==◌, if◌then◌else◌, ltb, Field, get, put, get-put, get-put_other,
  Disjoint, u32, u64, ◌<<◌, ◌>>>◌, bit_and, bit_or, bit_or-shifted, bit_or_comm, bit_and-low, arith,
}
use hypervi.Freestanding.Segments.{
  SegmentDescriptor, SelectorLayout, shift_high, get_descriptor_base, is_null,
  get_segment_access_rights_vmx,
}

-- The parts of a base within the widths of their fields.
pub record IsDescriptor (d : SegmentDescriptor) : Type 0 where
  pub low : d.base_address_low < 2 ^ 16
  pub middle : d.base_address_middle < 2 ^ 8
  pub high : d.base_address_high < 2 ^ 8
  pub upper : d.base_address_upper < 2 ^ 32

abbrev base32 : SegmentDescriptor → ℕ
base32 d = d.base_address_high * 2 ^ 24 + d.base_address_middle * 2 ^ 16 + d.base_address_low

-- The sign of the `int` only reaches the bits from 32 on.
shift_high_lem :
    (high : ℕ) → high < 256 → (a : ℕ) × (shift_high high ≡ a * 2 ^ 24) × (a % 2 ^ 8 ≡ high)
shift_high_lem high h = elim (Bool-cases (ltb high 128)) [
  | inl below ↦ (high, ground arith, omega arith)
  | inr above ↦ (2 ^ 40 - 2 ^ 8 + high, ground arith, omega arith)
]

join_parts :
    (a high middle low : ℕ)
    → a % 2 ^ 8 ≡ high
    → middle < 2 ^ 8
    → low < 2 ^ 16
    → bit_and (bit_or (bit_or (a * 2 ^ 24) (middle * 2 ^ 16)) low) 0xffffffff
      ≡ high * 2 ^ 24 + middle * 2 ^ 16 + low
join_parts a high middle low e m l =
    let first : bit_or (a * 2 ^ 24) (middle * 2 ^ 16) ≡ (a * 2 ^ 8 + middle) * 2 ^ 16 =
      omega (arith, bit_or-shifted 24 a (middle * 2 ^ 16) (omega arith)) in
    rw (first, bit_or-shifted 16 (a * 2 ^ 8 + middle) low l)
      (omega (arith, bit_and-low 32 ((a * 2 ^ 8 + middle) * 2 ^ 16 + low)))

base_parts :
    (d : SegmentDescriptor)
    → IsDescriptor d
    → bit_and
        (bit_or
          (bit_or (shift_high d.base_address_high) (d.base_address_middle << 16))
          d.base_address_low)
        0xffffffff
      ≡ base32 d
base_parts d ok =
    let (a, e, r) = shift_high_lem d.base_address_high ok.high in
    rw e
      (join_parts a d.base_address_high d.base_address_middle d.base_address_low r ok.middle ok.low)

wide_base :
    (d : SegmentDescriptor)
    → IsDescriptor d
    → bit_or (base32 d) (u64 (d.base_address_upper << 32))
      ≡ d.base_address_upper * 2 ^ 32 + base32 d
wide_base d ok =
    let upper = d.base_address_upper in
    let fits : u64 (upper << 32) ≡ upper * 2 ^ 32 = mod-eq_of_lt (omega (arith, ok.upper)) in
    rw (fits, bit_or_comm (base32 d) (upper * 2 ^ 32))
      (bit_or-shifted 32 upper (base32 d) (omega (arith, ok.low, ok.middle, ok.high)))

module _ (L : SelectorLayout) where
  abbrev is_task : SegmentDescriptor → Bool
  is_task d = d.system == 0 && (d.type == L.tss_available || d.type == L.tss_busy)

  -- The base of a descriptor is the number that its parts spell; that of a task state segment
  -- has the upper half, too.
  pub get_descriptor_base_lem :
      (d : SegmentDescriptor)
      → IsDescriptor d
      → get_descriptor_base L d
        ≡ (if is_task d then d.base_address_upper * 2 ^ 32 + base32 d else base32 d)
  unfolding get_descriptor_base
  get_descriptor_base_lem d ok = rw (base_parts d ok, wide_base d ok) refl

  loaded_rights :
      (call_lar : ℕ → ℕ) (selector : ℕ) (f : Field)
      → is_null L selector ≡ false
      → Disjoint L.reserved2 L.reserved1
      → Disjoint L.unusable L.reserved1
      → Disjoint L.unusable L.reserved2
      → Disjoint L.reserved1 f
      → Disjoint L.reserved2 f
      → Disjoint L.unusable f
      → let rights = get_segment_access_rights_vmx L call_lar selector in
        (get L.unusable rights ≡ 0)
        × (get L.reserved1 rights ≡ 0)
        × (get L.reserved2 rights ≡ 0)
        × (get f rights ≡ get f (u32 (call_lar selector) >>> 8))
  unfolding get_segment_access_rights_vmx
  loaded_rights call_lar selector f e d12 d1u d2u d1f d2f duf =
      let raw = u32 (call_lar selector) >>> 8 in
      let first = put L.reserved1 0 raw in
      let second = put L.reserved2 0 first in
      rw e (
        get-put L.unusable 0 second ∙ zero-mod _,
        get-put_other L.unusable L.reserved1 0 second d1u
            ∙ get-put_other L.reserved2 L.reserved1 0 first d12
            ∙ get-put L.reserved1 0 raw
            ∙ zero-mod _,
        get-put_other L.unusable L.reserved2 0 second d2u
            ∙ get-put L.reserved2 0 first
            ∙ zero-mod _,
        get-put_other L.unusable f 0 second duf
            ∙ get-put_other L.reserved2 f 0 first d2f
            ∙ get-put_other L.reserved1 f 0 raw d1f,
      )

  pub access_rights :
      (call_lar : ℕ → ℕ) (selector : ℕ) (f : Field)
      → L.unusable.width ≡ 1
      → Disjoint L.reserved2 L.reserved1
      → Disjoint L.unusable L.reserved1
      → Disjoint L.unusable L.reserved2
      → Disjoint L.reserved1 f
      → Disjoint L.reserved2 f
      → Disjoint L.unusable f
      → let rights = get_segment_access_rights_vmx L call_lar selector in
        (is_null L selector ≡ false
          → (get L.unusable rights ≡ 0)
            × (get L.reserved1 rights ≡ 0)
            × (get L.reserved2 rights ≡ 0)
            × (get f rights ≡ get f (u32 (call_lar selector) >>> 8)))
        × (is_null L selector ≡ true → (get L.unusable rights ≡ 1) × (get f rights ≡ 0))
  unfolding get_segment_access_rights_vmx
  access_rights call_lar selector f one d12 d1u d2u d1f d2f duf = (
    λ e. loaded_rights call_lar selector f e d12 d1u d2u d1f d2f duf,
    λ e.
        rw e
          (get-put L.unusable 1 0 ∙ rw one refl, get-put_other L.unusable f 1 0 duf ∙ get-zero f),
  )
