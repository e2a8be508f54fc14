-- ===== src/Freestanding/Segments.antt =====
-- Segment descriptors, limits and access rights: freestanding/x86utils.cc.
pub mod Laws
use hypervi.Base.{
  ℕ, ◌+◌, ◌-◌, ◌*◌, ◌^◌, Bool, ◌&&◌, ◌||◌, ◌==◌, ◌/=◌, if◌then◌else◌, ltb, Field, get, put, puts,
  [], ◌∷◌, u16, u32, u64, ◌<<◌, ◌>>>◌, bit_and, bit_or,
}

-- What a descriptor table holds at an address: the fields of `segment_descriptor_32`, and the
-- upper half of the base that `segment_descriptor_64` has behind them.
pub record SegmentDescriptor : Type 0 where
  pub base_address_low : ℕ
  pub base_address_middle : ℕ
  pub base_address_high : ℕ
  pub system : ℕ
  pub type : ℕ
  pub base_address_upper : ℕ

-- The fields of `segment_selector` and `vmx_segment_access_rights`, the size of a descriptor and
-- the two types of task state segments, as the ia32 header has them.
pub record SelectorLayout : Type 0 where
  pub index : Field
  pub table : Field
  pub descriptor_size : ℕ
  pub tss_available : ℕ
  pub tss_busy : ℕ
  pub reserved1 : Field
  pub reserved2 : Field
  pub unusable : Field

-- `base_address_high << 24`, an `int` that is converted to 64 bits with its sign.
abbrev pub shift_high : ℕ → ℕ
shift_high high = if ltb high 128 then high << 24 else u64 (2 ^ 64 - 2 ^ 32 + (high << 24))

module _ (L : SelectorLayout) where
  unfoldable pub get_segment_descriptor : (descriptor_table_base selector_value : ℕ) → ℕ
  get_segment_descriptor descriptor_table_base selector_value =
      u64 (descriptor_table_base + get L.index selector_value * L.descriptor_size)

  unfoldable pub get_descriptor_base : SegmentDescriptor → ℕ
  get_descriptor_base d =
      let base_hi = shift_high d.base_address_high in
      let base_mid = d.base_address_middle << 16 in
      let base_low = d.base_address_low in
      let base = bit_and (bit_or (bit_or base_hi base_mid) base_low) 0xffffffff in
      if d.system == 0 && (d.type == L.tss_available || d.type == L.tss_busy)
      then bit_or base (u64 (d.base_address_upper << 32))
      else base

  -- The null selector: the first one of the global table.
  abbrev pub is_null : ℕ → Bool
  is_null selector = get L.table selector == 0 && get L.index selector == 0

  unfoldable pub get_segment_base :
      (memory : ℕ → SegmentDescriptor) (descriptor_table_base segment_selector_value : ℕ) → ℕ
  unfolding get_segment_descriptor get_descriptor_base
  get_segment_base memory descriptor_table_base selector =
      if is_null selector
      then 0
      else if get L.table selector /= 0
      then 0
      else get_descriptor_base (memory (get_segment_descriptor descriptor_table_base selector))

  unfoldable pub get_segment_access_rights_vmx : (call_lar : ℕ → ℕ) (selector : ℕ) → ℕ
  unfolding puts
  get_segment_access_rights_vmx call_lar selector =
      if is_null selector
      then put L.unusable 1 0
      else let rights = u32 (call_lar selector) in
        put L.unusable 0 (put L.reserved2 0 (put L.reserved1 0 (rights >>> 8)))

-- `call_lsl` gives 64 bits, of which the result keeps 16.
unfoldable pub get_segment_limit : (call_lsl : ℕ → ℕ) (selector : ℕ) → ℕ
get_segment_limit call_lsl selector = u16 (call_lsl selector)
