-- ===== src/Tests/Ept.antt =====
-- Extended page tables with the documented layout, a page per allocation from 4 KB on.
use hypervi.Base.{ℕ, ◌+◌, ◌*◌, ◌≡◌, ◌≢◌, refl, true, List, [], ◌∷◌, arith, field}
use hypervi.Freestanding.Paging.{address_to_pt, pt_to_address}
use hypervi.Hypervisor.Mtrr.{MtrrData, ept_get_memory_type}
use hypervi.Hypervisor.Ept.{TableEntry, EptLayout, Machine}
use hypervi.Hypervisor.Ept.Build.{IsPaged}
use hypervi.Hypervisor.Ept.Walk.{IsSound, IsInReach}
use hypervi.Hypervisor.Ept.Mapping.{walked, large_mapping, split_mapping, large_mapping-ne}
use hypervi.Hypervisor.Ept.Entries.{HasAccessBits}
use hypervi.Tests.Mtrr.{intel_types}

abbrev table : TableEntry
table = record {
  read_access = field 0 1;
  write_access = field 1 1;
  execute_access = field 2 1;
  page_frame_number = field 12 36;
}

abbrev pub intel_ept : EptLayout
intel_ept = record {
  pml4 = table;
  pdpte = table;
  pde = table;
  pde_2mb = record {
    read_access = field 0 1;
    write_access = field 1 1;
    execute_access = field 2 1;
    memory_type = field 3 3;
    large_page = field 7 1;
    page_frame_number = field 21 27;
  };
  pte = record {
    read_access = field 0 1;
    write_access = field 1 1;
    execute_access = field 2 1;
    memory_type = field 3 3;
    page_frame_number = field 12 36;
  };
  pointer = record {
    memory_type = field 0 3;
    page_walk_length = field 3 3;
    page_frame_number = field 12 36;
    page_walk_length_4 = 3;
  };
}

abbrev alloc : ℕ → ℕ
alloc k = (k + 1) * 0x1000

abbrev limit : ℕ
limit = 300000

abbrev machine : Machine
machine = record { mem = λ _. 0; next = 0 }

pub intel_ept-IsSound : IsSound intel_ept
intel_ept-IsSound = omega arith

alloc-IsPaged : IsPaged alloc limit
alloc-IsPaged = record { aligned = λ k. omega arith; distinct = λ j k _ _ e. omega arith }

alloc-IsInReach : IsInReach intel_ept alloc limit
alloc-IsInReach = record {
  word = λ k h. omega arith;
  pointer = λ k h. omega arith;
  pml4 = λ k h. omega arith;
  pdpte = λ k h. omega arith;
  pde = λ k h. omega arith;
}

-- A fixed range that ends inside the first 2 MB.
abbrev pub low_range : List MtrrData
low_range =
    record { enabled = true; fixed = true; type = 4; range_begin = 0; range_end = 0x10000 } ∷ []

pub intel_ept-HasAccessBits : HasAccessBits intel_ept
intel_ept-HasAccessBits = (
  refl,
  (
    refl,
    (
      refl,
      (
        refl,
        (refl, (refl, (refl, (refl, (refl, (refl, (refl, (refl, (refl, (refl, (refl, tt))))))))))),
      ),
    ),
  ),
)

large_mapping_example :
    walked intel_ept intel_types [] 6 alloc limit intel_ept-IsSound alloc-IsPaged alloc-IsInReach
      machine 0x201234
    ≡ record {
      address = 0x40001234;
      memory_type = 6;
      readable = true;
      writable = true;
      executable = true;
    }
unfolding address_to_pt pt_to_address ept_get_memory_type
large_mapping_example =
    large_mapping intel_ept intel_types [] 6 alloc limit intel_ept-IsSound alloc-IsPaged
      alloc-IsInReach machine 0x201234 (omega arith) (omega arith) (omega arith)
      intel_ept-HasAccessBits

split_mapping_example :
    walked intel_ept intel_types low_range 6 alloc limit intel_ept-IsSound alloc-IsPaged
      alloc-IsInReach machine 0x1234
    ≡ record {
      address = 0x1234;
      memory_type = 4;
      readable = true;
      writable = true;
      executable = true;
    }
unfolding address_to_pt pt_to_address ept_get_memory_type
split_mapping_example =
    split_mapping intel_ept intel_types low_range 6 alloc limit intel_ept-IsSound alloc-IsPaged
      alloc-IsInReach machine 0x1234 (omega arith) (omega arith) refl refl (omega arith)
      intel_ept-HasAccessBits

large_mapping-ne_example :
    (walked intel_ept intel_types [] 6 alloc limit intel_ept-IsSound alloc-IsPaged alloc-IsInReach
      machine 0x201234).address
    ≢ 0x201234
unfolding address_to_pt pt_to_address ept_get_memory_type
large_mapping-ne_example =
    large_mapping-ne intel_ept intel_types [] 6 alloc limit intel_ept-IsSound alloc-IsPaged
      alloc-IsInReach machine 0x201234 (omega arith) (omega arith) (omega arith) (omega arith) refl
      (omega arith)
