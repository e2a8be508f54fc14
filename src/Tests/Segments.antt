-- ===== src/Tests/Segments.antt =====
-- Descriptors with concrete values.
use hypervi.Base.{ℕ, ◌≡◌, refl, false, arith, field, get}
use hypervi.Freestanding.Segments.{SegmentDescriptor, SelectorLayout, is_null, get_descriptor_base}
use hypervi.Freestanding.Segments.Laws.{IsDescriptor, get_descriptor_base_lem}

abbrev pub intel_selector : SelectorLayout
intel_selector = record {
  index = field 3 13;
  table = field 2 1;
  descriptor_size = 8;
  tss_available = 9;
  tss_busy = 11;
  reserved1 = field 8 4;
  reserved2 = field 17 15;
  unusable = field 16 1;
}

-- A busy task state segment at 0xfffff8ffcc221100.
abbrev task : SegmentDescriptor
task = record {
  base_address_low = 0x1100;
  base_address_middle = 0x22;
  base_address_high = 0xcc;
  system = 0;
  type = 11;
  base_address_upper = 0xfffff8ff;
}

task-IsDescriptor : IsDescriptor task
task-IsDescriptor = record {
  low = omega arith;
  middle = omega arith;
  high = omega arith;
  upper = omega arith;
}

get_descriptor_base_lem_example : get_descriptor_base intel_selector task ≡ 0xfffff8ffcc221100
get_descriptor_base_lem_example = get_descriptor_base_lem intel_selector task task-IsDescriptor

abbrev lar : ℕ → ℕ
lar selector = 0xcff300

not_null : is_null intel_selector 0x2b ≡ false
unfolding get
not_null = refl
