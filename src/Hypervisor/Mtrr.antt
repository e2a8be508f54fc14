-- ===== src/Hypervisor/Mtrr.antt =====
-- The memory type range registers: the first half of hypervisor/ept.cc.
-- `none` is a write behind the end of `g_mtrrs`.
pub mod Fill
pub mod Init
pub mod Types
pub mod Dump
pub mod Fixed
use hypervi.Base.{
  ℕ, zero, suc, ◌+◌, ◌-◌, ◌*◌, ◌/◌, ◌%◌, ◌^◌, Bool, true, false, not, ◌&&◌, ◌||◌, Option, none,
  some, List, [], ◌∷◌, set, get_or, replicate, ltb, leb, ◌==◌, if◌then◌else◌, truth, u8, u32, u64,
  ◌<<◌, Field, get, ◌>>=◌,
}

pub record MtrrData : Type 0 where
  pub enabled : Bool
  pub fixed : Bool
  pub type : ℕ
  pub range_begin : ℕ
  pub range_end : ℕ

-- The values that the ia32 header gives the memory types.
pub record MemoryTypes : Type 0 where
  pub uncacheable : ℕ
  pub write_through : ℕ
  pub write_back : ℕ
  pub invalid : ℕ

-- The register numbers and bit-fields that the ia32 header gives the range registers.
pub record MtrrLayout : Type 0 where
  pub def_type : ℕ
  pub capabilities : ℕ
  pub fix64k_00000 : ℕ
  pub fix16k_80000 : ℕ
  pub fix16k_a0000 : ℕ
  pub fix4k_c0000 : ℕ
  pub fix4k_c8000 : ℕ
  pub fix4k_d0000 : ℕ
  pub fix4k_d8000 : ℕ
  pub fix4k_e0000 : ℕ
  pub fix4k_e8000 : ℕ
  pub fix4k_f0000 : ℕ
  pub fix4k_f8000 : ℕ
  pub physbase0 : ℕ
  pub physmask0 : ℕ
  pub default_memory_type : Field
  pub fixed_range_mtrr_enable : Field
  pub fixed_range_supported : Field
  pub variable_range_count : Field
  pub valid : Field
  pub mask_page_frame_number : Field
  pub base_type : Field
  pub base_page_frame_number : Field

abbrev pub max_fixed_range_mtrrs : ℕ
max_fixed_range_mtrrs = (1 + 2 + 8) * 8

abbrev pub max_variable_range_mtrrs : ℕ
max_variable_range_mtrrs = 255

abbrev pub max_mtrrs : ℕ
max_mtrrs = max_fixed_range_mtrrs + max_variable_range_mtrrs

-- An element of the array after its memset.
abbrev pub cleared : MtrrData
cleared = record { enabled = false; fixed = false; type = 0; range_begin = 0; range_end = 0 }

-- `g_mtrrs`, and the locals `index` and `offset` of `ept_init_mtrr`.
pub record Mtrrs : Type 0 where
  pub entries : List MtrrData
  pub index : ℕ
  pub offset : ℕ

-- `g_mtrrs[i] = m`
unfoldable pub store_mtrr : ℕ → MtrrData → List MtrrData → Option (List MtrrData)
store_mtrr i m g = if ltb i max_mtrrs then some (set g i m) else none

-- Round i of the loop in `ept_read_fixed_mtrrs`; `value` is what the register holds.
unfoldable pub read_fixed_round : ℕ → ℕ → ℕ → ℕ → Mtrrs → Option Mtrrs
unfolding store_mtrr
read_fixed_round value base size i s = do
  let curr_base = u64 (base + size * i)
  entries ←
      store_mtrr s.index
        (record {
          enabled = true;
          fixed = true;
          type = value / 2 ^ (8 * i) % 2 ^ 8;
          range_begin = curr_base;
          range_end = u64 (curr_base + size);
        })
        s.entries
  some (record { entries = entries; index = s.index + 1; offset = u64 (s.offset + size) })

unfoldable pub read_fixed_loop : ℕ → ℕ → ℕ → ℕ → ℕ → Mtrrs → Option Mtrrs
read_fixed_loop zero i value base size s = some s
read_fixed_loop (suc left) i value base size s = do
  s' ← read_fixed_round value base size i s
  read_fixed_loop left (suc i) value base size s'

unfoldable pub ept_read_fixed_mtrrs : ℕ → ℕ → ℕ → Mtrrs → Option Mtrrs
unfolding read_fixed_loop read_fixed_round
ept_read_fixed_mtrrs value base size s = read_fixed_loop 8 0 value base size s

-- `g_mtrrs[index].enabled = 0`
unfoldable pub end_mark : Mtrrs → Option (List MtrrData)
unfolding store_mtrr
end_mark s =
    store_mtrr s.index (record (get_or s.entries s.index cleared) { enabled = false }) s.entries

-- The arguments of one call of `ept_read_fixed_mtrrs`.
pub record FixedCall : Type 0 where
  pub register : ℕ
  pub base : ℕ
  pub size : ℕ

abbrev call : ℕ → ℕ → ℕ → FixedCall
call register base size = record { register = register; base = base; size = size }

module _ (L : MtrrLayout) (read_msr bsf : ℕ → ℕ) where
  -- The eleven calls of `ept_read_fixed_mtrrs`, in their order.
  unfoldable pub fixed_calls : List FixedCall
  fixed_calls =
      call L.fix64k_00000 0 0x10000
      ∷ call L.fix16k_80000 0x80000 0x4000
      ∷ call L.fix16k_a0000 0xa0000 0x4000
      ∷ call L.fix4k_c0000 0xc0000 0x1000
      ∷ call L.fix4k_c8000 0xc8000 0x1000
      ∷ call L.fix4k_d0000 0xd0000 0x1000
      ∷ call L.fix4k_d8000 0xd8000 0x1000
      ∷ call L.fix4k_e0000 0xe0000 0x1000
      ∷ call L.fix4k_e8000 0xe8000 0x1000
      ∷ call L.fix4k_f0000 0xf0000 0x1000
      ∷ call L.fix4k_f8000 0xf8000 0x1000
      ∷ []

  unfoldable pub run_calls : List FixedCall → Mtrrs → Option Mtrrs
  unfolding ept_read_fixed_mtrrs
  run_calls [] s = some s
  run_calls (c ∷ calls) s = do
    s' ← ept_read_fixed_mtrrs (read_msr c.register) c.base c.size s
    run_calls calls s'

  -- What a valid pair of base and mask registers is stored as.
  unfoldable pub variable_mtrr : (phy_base phy_mask : ℕ) → MtrrData
  unfolding get
  variable_mtrr phy_base phy_mask =
      let range_begin = u64 (get L.base_page_frame_number phy_base * 0x1000) in
      let size = u64 (1 << bsf (get L.mask_page_frame_number phy_mask)) in
      let size = u64 (size << 12) in
      record {
        enabled = true;
        fixed = false;
        type = u8 (get L.base_type phy_base);
        range_begin = range_begin;
        range_end = u64 (range_begin + size);
      }

  -- Round i of the loop over the variable ranges.
  unfoldable pub variable_round : ℕ → Mtrrs → Option Mtrrs
  unfolding variable_mtrr store_mtrr
  variable_round i s =
      let phy_mask = read_msr (u32 (L.physmask0 + i * 2)) in
      let phy_base = read_msr (u32 (L.physbase0 + i * 2)) in
      if truth (get L.valid phy_mask)
      then (do
        entries ← store_mtrr s.index (variable_mtrr phy_base phy_mask) s.entries
        some (record s { entries = entries; index = s.index + 1 }))
      else some s

  unfoldable pub variable_ranges : (left i : ℕ) → Mtrrs → Option Mtrrs
  variable_ranges zero i s = some s
  variable_ranges (suc left) i s = do s' ← variable_round i s; variable_ranges left (suc i) s'

  -- `g_mtrrs` and `g_default_memory_type` as `ept_init_mtrr` leaves them.
  unfoldable pub ept_init_mtrr : Option (List MtrrData × ℕ)
  unfolding fixed_calls run_calls variable_round variable_ranges end_mark
  ept_init_mtrr = do
    let default_type = read_msr L.def_type
    let mtrr_capabilities = read_msr L.capabilities
    let start : Mtrrs = record { entries = replicate max_mtrrs cleared; index = 0; offset = 0 }
    s ←
        if truth (get L.fixed_range_supported mtrr_capabilities)
          && truth (get L.fixed_range_mtrr_enable default_type)
        then run_calls fixed_calls start
        else some start
    s ← variable_ranges (get L.variable_range_count mtrr_capabilities) 0 s
    entries ← end_mark s
    some (entries, u8 (get L.default_memory_type default_type))

module _ (T : MemoryTypes) where
  -- How the type of one more variable range changes `result`.
  unfoldable pub combine : (type result : ℕ) → ℕ
  combine type result =
      if type == T.write_through && result == T.write_back
      then T.write_through
      else if type == T.write_back && result == T.write_through
      then T.write_through
      else type

  -- The loop of `ept_get_memory_type`; `default` is `g_default_memory_type`.
  unfoldable pub scan : (default start size : ℕ) → List MtrrData → ℕ → ℕ
  unfolding combine
  scan default start size [] result = if result == T.invalid then default else result
  scan default start size (mtrr ∷ rest) result =
      let skip = scan default start size rest result in
      let next = scan default start size rest (combine mtrr.type result) in
      if not mtrr.enabled
      then (if result == T.invalid then default else result)
      else if ltb start mtrr.range_begin || leb mtrr.range_end start
      then skip
      else if leb mtrr.range_end (u64 (start + size + 2 ^ 64 - 1))
      then T.invalid
      else if mtrr.fixed
      then mtrr.type
      else if mtrr.type == T.uncacheable
      then T.uncacheable
      else next

  unfoldable pub ept_get_memory_type : List MtrrData → (default start size : ℕ) → ℕ
  unfolding scan
  ept_get_memory_type mtrrs default start size = scan default start size mtrrs T.invalid
