-- ===== src/Hypervisor/Main.antt =====
-- The entry of the hypervisor: hypervisor/main.cc.
pub mod Start
pub mod GuestMemory
use hypervi.Base.{
  ℕ, ◌≡◌, refl, Bool, true, false, Bool-cases, ◌||◌, ◌==◌, ◌/=◌, not, truth, if◌then◌else◌, Option,
  none, some, is_some, ◌>>=◌, List, [], ◌∷◌, Field, get, puts, u32,
}
use hypervi.Hypervisor.Mtrr.{MtrrData, MtrrLayout, ept_init_mtrr}
use hypervi.Hypervisor.Cpu.Init.{
  Core, Platform, Outcome, no_state, no_root_mode, refused, launched, cpu_init,
}

-- The bit-fields and numbers that the tests of features take from the header.
pub record FeatureLayout : Type 0 where
  pub vmx : Field
  pub vmx_basic : ℕ
  pub feature_control : ℕ
  pub ept_vpid_cap : ℕ
  pub write_back : ℕ
  pub memory_type : Field
  pub lock_bit : Field
  pub enable_vmx_outside_smx : Field
  pub page_walk_length_4 : Field
  pub memory_type_write_back : Field
  pub invept : Field
  pub invept_single_context : Field
  pub invept_all_contexts : Field
  pub invvpid : Field
  pub invvpid_individual_address : Field
  pub invvpid_single_context : Field
  pub invvpid_all_contexts : Field
  pub invvpid_single_context_retain_globals : Field

-- The local copies of three registers, which the function never writes back.
pub record Features : Type 0 where
  pub vmx_basic : ℕ
  pub feature_control : ℕ
  pub ept_cap : ℕ

module _ (F : FeatureLayout) (read_msr : ℕ → ℕ) where
  abbrev required : List Field
  required =
      F.invvpid_single_context_retain_globals ∷ F.invvpid_all_contexts ∷ F.invvpid_single_context
      ∷ F.invvpid_individual_address ∷ F.invvpid ∷ F.invept_all_contexts ∷ F.invept_single_context
      ∷ F.invept ∷ F.memory_type_write_back ∷ F.page_walk_length_4 ∷ []

  -- One of the fields is zero.
  abbrev pub lacks : List Field → (value : ℕ) → Bool
  lacks [] value = false
  lacks (f ∷ l) value = not (truth (get f value)) || lacks l value

  -- Each of the fields is assigned 1, the last one of the list first.
  abbrev pub ones : List Field → List (Field × ℕ)
  ones [] = []
  ones (f ∷ l) = (f, 1) ∷ ones l

  -- What the two tests make of the registers.
  unfoldable pub enabled_features : Features
  enabled_features =
      let basic = read_msr F.vmx_basic in
      let control = read_msr F.feature_control in
      let cap = read_msr F.ept_vpid_cap in
      let missing =
        get F.memory_type basic /= F.write_back
        || get F.lock_bit control == 0
        || get F.enable_vmx_outside_smx control == 0 in
      record {
        vmx_basic = if missing then puts ((F.memory_type, F.write_back) ∷ []) basic else basic;
        feature_control =
            if missing
            then puts ((F.enable_vmx_outside_smx, 1) ∷ (F.lock_bit, 1) ∷ []) control
            else control;
        ept_cap = if lacks required cap then puts (ones required) cap else cap;
      }

  -- `none` is the answer false; true comes with the local copies.
  unfoldable pub visor_is_vmx_supported : (cpuid_ecx : ℕ) → Option Features
  visor_is_vmx_supported cpuid_ecx =
      if not (truth (get F.vmx cpuid_ecx)) then none else some enabled_features

-- How the entry ends: it returns a status, with what became of the core, where one was set up; or
-- the core runs as the guest, and nothing behind the call of `cpu_init` is reached.
pub data VisorEnd : Type 0 where
  returns : (status : ℕ) → Option Outcome → VisorEnd
  in_guest : (checked : Bool) → Core → VisorEnd

-- What follows the end of `visor_init_core`.
unfoldable pub visor_end : Option Outcome → VisorEnd
visor_end none = returns 0 none
visor_end (some no_state) = returns 0 (some no_state)
visor_end (some (no_root_mode c)) = returns 0 (some (no_root_mode c))
visor_end (some (refused checked c)) = returns 0 (some (refused checked c))
visor_end (some (launched checked c)) = in_guest checked c

-- Parameters of the whole: what the core's `cpuid` says, the MTRRs, `bsf`, and the core.
module _ (F : FeatureLayout) (R : MtrrLayout) (Π : Platform) (bsf : ℕ → ℕ) (cpuid_ecx : ℕ)
    (c : Core) where
  -- `none` where the processor is refused.
  unfoldable pub visor_init_core : (mtrrs : List MtrrData) (default : ℕ) → Option Outcome
  visor_init_core mtrrs default =
      if not (is_some (visor_is_vmx_supported F Π.processor.read_msr cpuid_ecx))
      then none
      else some (cpu_init Π mtrrs default c)

  -- `visor_main` by `visor_init`: `ldr_call_on_all_cores` calls its argument on this core, and
  -- returns where that does. `none` is a write behind `g_mtrrs`.
  unfoldable pub visor_main : Option VisorEnd
  unfolding visor_end
  visor_main = do
    out ← ept_init_mtrr R Π.processor.read_msr bsf
    some (visor_end (visor_init_core out.0 out.1))
