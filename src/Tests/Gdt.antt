-- ===== src/Tests/Gdt.antt =====
-- A table of 9 descriptors, its copy in the page at 0x4000 and a task state segment at 0x9000.
use hypervi.Base.{◌≡◌, inl, refl, arith, [], ◌∷◌, some}
use hypervi.Freestanding.Segments.{get_segment_base}
use hypervi.Loader.Allocator.{free_entry, fill_first, efi_allocate}
use hypervi.Loader.Gdt.{GdtLayout, GdtState, efi_gdt_init}
use hypervi.Loader.Gdt.Task.{IsDocumented, descriptor_at}
use hypervi.Loader.Gdt.Init.{IsPatchable, efi_gdt_init_lem}
use hypervi.Tests.Segments.{intel_selector}

abbrev pub intel_gdt : GdtLayout
intel_gdt = record { selector = intel_selector; descriptor_64_size = 16 }

intel_gdt-IsDocumented : IsDocumented intel_gdt
intel_gdt-IsDocumented = record {
  index = refl;
  table = refl;
  descriptor_size = refl;
  descriptor_64_size = refl;
  tss_available = refl;
}

abbrev before_patch : GdtState
before_patch = record {
  efi_gdtr = record { limit = 0; base_address = 0 };
  new_gdt = 0;
  new_tss = 0x123400009000;
  memory = λ _. 0x5a;
  allocations = free_entry ∷ [];
  gdtr = record { limit = 71; base_address = 0x100000 };
  tr = 0;
}

before_patch-IsPatchable : IsPatchable before_patch 0x4000 9
before_patch-IsPatchable = record {
  whole = refl;
  some_entry = omega arith;
  room = omega arith;
  in_memory = omega arith;
  tss_in_memory = omega arith;
  source_apart = inl (omega arith);
  tss_apart = inl (omega arith);
}

efi_gdt_init_lem_example :
    get_segment_base intel_selector
      (descriptor_at (efi_gdt_init intel_gdt (some 0x4000) before_patch).memory)
      0x4000
      (efi_gdt_init intel_gdt (some 0x4000) before_patch).tr
    ≡ 0x123400009000
unfolding efi_gdt_init efi_allocate fill_first
efi_gdt_init_lem_example =
    (efi_gdt_init_lem intel_gdt intel_gdt-IsDocumented (some 0x4000) before_patch 9
      before_patch-IsPatchable).1
