-- ===== src/Hypervisor/Main/Start.antt =====
-- The hypervisor from its entry to the guest.
use hypervi.Base.{ℕ, ◌-◌, List, ◌++◌, length, replicate, get, u8}
use hypervi.Hypervisor.Vmcs.{Vmcs}
use hypervi.Hypervisor.Mtrr.{MtrrData, MtrrLayout, max_mtrrs, cleared}
use hypervi.Hypervisor.Mtrr.Init.{enabled_ranges}
use hypervi.Hypervisor.Cpu.Init.{Core, Platform}
use hypervi.Hypervisor.Main.{FeatureLayout}

module _ (F : FeatureLayout) (R : MtrrLayout) (Π : Platform) (bsf : ℕ → ℕ) (cpuid_ecx : ℕ)
    (c : Core) where
  -- The ranges and the default type that `ept_init_mtrr` leaves where an element is to spare.
  abbrev pub ranges : List MtrrData
  ranges =
      let found = enabled_ranges R Π.processor.read_msr bsf in
      found ++ replicate (max_mtrrs - length found) cleared

  abbrev pub default : ℕ
  default = u8 (get R.default_memory_type (Π.processor.read_msr R.def_type))
