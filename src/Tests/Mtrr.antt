-- ===== src/Tests/Mtrr.antt =====
-- Memory type range registers with concrete values.
use hypervi.Base.{
  ℕ, ◌≡◌, refl, true, false, none, some, List, [], ◌∷◌, ◌++◌, arith, ◌==◌, if◌then◌else◌, ◌>>=◌,
  field, get, replicate, length,
}
use hypervi.Hypervisor.Mtrr.{
  MtrrData, MemoryTypes, MtrrLayout, cleared, fixed_calls, ept_init_mtrr, ept_get_memory_type,
}
use hypervi.Hypervisor.Mtrr.Fill.{tiles}
use hypervi.Hypervisor.Mtrr.Init.{
  fixed_list, variable_list, enabled_ranges, ept_init_mtrr_lem, ept_init_mtrr_overrun,
}
use hypervi.Hypervisor.Mtrr.Types.{
  IsDistinct, IsWhole, covering, precedence, ept_get_memory_type-precedence,
}
use hypervi.Hypervisor.Mtrr.Fixed.{fix64k_00000, fixed_type}
use hypervi.Hypervisor.Mtrr.Dump.{
  dumping, range_start, range_end, ept_dump_mtrrs, first_begin, range_lines,
  ept_dump_mtrrs-ept_init_mtrr,
}

abbrev pub intel_types : MemoryTypes
intel_types = record { uncacheable = 0; write_through = 4; write_back = 6; invalid = 0xff }

abbrev pub intel_mtrr : MtrrLayout
intel_mtrr = record {
  def_type = 0x2ff;
  capabilities = 0xfe;
  fix64k_00000 = 0x250;
  fix16k_80000 = 0x258;
  fix16k_a0000 = 0x259;
  fix4k_c0000 = 0x268;
  fix4k_c8000 = 0x269;
  fix4k_d0000 = 0x26a;
  fix4k_d8000 = 0x26b;
  fix4k_e0000 = 0x26c;
  fix4k_e8000 = 0x26d;
  fix4k_f0000 = 0x26e;
  fix4k_f8000 = 0x26f;
  physbase0 = 0x200;
  physmask0 = 0x201;
  default_memory_type = field 0 3;
  fixed_range_mtrr_enable = field 10 1;
  fixed_range_supported = field 8 1;
  variable_range_count = field 0 8;
  valid = field 11 1;
  mask_page_frame_number = field 12 36;
  base_type = field 0 8;
  base_page_frame_number = field 12 36;
}

-- One uncacheable range of 1 MB at 3 GB, behind write-back fixed ranges.
abbrev pub msr : ℕ → ℕ
msr i =
    if i == 0x2ff
    then 0xc06
    else if i == 0xfe
    then 0x102
    else if i == 0x250
    then 0x0606060606060606
    else if i == 0x200
    then 0xc0000000
    else if i == 0x201
    then 0xffff00800
    else 0

-- The lowest set bit of the one mask above.
abbrev pub bsf : ℕ → ℕ
bsf x = 8

-- Every register valid: as many ranges as elements.
abbrev full : ℕ → ℕ
full i = if i == 0x2ff then 0xc06 else if i == 0xfe then 0x1ff else 0xffff00806

ranges_fit : length (enabled_ranges intel_mtrr msr bsf) ≡ 89
unfolding enabled_ranges fixed_list variable_list fixed_calls tiles get
ranges_fit = refl

-- The dump stops at the first element that is not enabled, and reads behind a full array.
abbrev one_range : MtrrData
one_range = record { enabled = true; fixed = false; type = 6; range_begin = 16; range_end = 32 }

dumped :
    ept_dump_mtrrs (one_range ∷ cleared ∷ one_range ∷ [])
    ≡ some (dumping 16 ∷ range_start 16 ∷ range_end 32 ∷ [])
unfolding ept_dump_mtrrs
dumped = refl

dump_overrun : ept_dump_mtrrs (one_range ∷ []) ≡ none
unfolding ept_dump_mtrrs
dump_overrun = refl

ept_init_mtrr_lem_example :
    ept_init_mtrr intel_mtrr msr bsf
    ≡ some (enabled_ranges intel_mtrr msr bsf ++ replicate 254 cleared, 6)
unfolding get enabled_ranges fixed_list variable_list fixed_calls tiles
ept_init_mtrr_lem_example = ept_init_mtrr_lem intel_mtrr msr bsf (omega (arith, ranges_fit))

ept_dump_mtrrs-ept_init_mtrr_example :
    (ept_init_mtrr intel_mtrr msr bsf >>= λ out. ept_dump_mtrrs out.0)
    ≡ some (
        dumping (first_begin (enabled_ranges intel_mtrr msr bsf))
        ∷ range_lines (enabled_ranges intel_mtrr msr bsf))
ept_dump_mtrrs-ept_init_mtrr_example =
    ept_dump_mtrrs-ept_init_mtrr intel_mtrr msr bsf (omega (arith, ranges_fit))

full_ranges : length (enabled_ranges intel_mtrr full bsf) ≡ 343
unfolding enabled_ranges fixed_list variable_list fixed_calls tiles get
full_ranges = refl

ept_init_mtrr_overrun_example : ept_init_mtrr intel_mtrr full bsf ≡ none
ept_init_mtrr_overrun_example = ept_init_mtrr_overrun intel_mtrr full bsf full_ranges

fixed_type_example :
    (out : List MtrrData × ℕ) × (ept_init_mtrr intel_mtrr msr bsf ≡ some out)
    × (ept_get_memory_type intel_types out.0 out.1 0x23000 0x1000 ≡ 6)
unfolding get fixed_calls
fixed_type_example =
    fixed_type intel_types intel_mtrr msr bsf 0x250 0 0x10000 2 0x23000 fix64k_00000 refl refl
      (omega (arith, ranges_fit)) (omega arith)
      (record { below = omega arith; above = omega arith })

types_differ : IsDistinct intel_types
types_differ = ground arith

abbrev range : (type from to : ℕ) → MtrrData
range type from to = record {
  enabled = true;
  fixed = false;
  type = type;
  range_begin = from;
  range_end = to;
}

-- Write-back over 1 GB, write-through over its first 512 MB.
abbrev overlap : List MtrrData
overlap = range 6 0 0x40000000 ∷ range 4 0 0x20000000 ∷ cleared ∷ []

overlap-IsWhole : IsWhole intel_types 0x200000 0x200000 (range 6 0 0x40000000)
overlap-IsWhole = ground arith

overlap-IsWhole' : IsWhole intel_types 0x200000 0x200000 (range 4 0 0x20000000)
overlap-IsWhole' = ground arith

ept_get_memory_type-precedence_example :
    ept_get_memory_type intel_types overlap 0 0x200000 0x200000 ≡ 4
unfolding covering precedence
ept_get_memory_type-precedence_example =
    ept_get_memory_type-precedence intel_types types_differ 0 0x200000 0x200000 overlap
      (overlap-IsWhole, (overlap-IsWhole', tt))
