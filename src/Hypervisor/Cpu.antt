-- ===== src/Hypervisor/Cpu.antt =====
-- What `cpu_init` of hypervisor/cpu.cc reads of the processor, how it bends control words to what
-- the processor allows, and how it writes the VMCS.
pub mod Controls
pub mod Fields
pub mod Init
pub mod Alter
pub mod Written
pub mod Launch
pub mod HostState
pub mod Dump
use hypervi.Base.{
  ℕ, ◌%◌, ◌^◌, Option, some, List, [], ◌∷◌, ◌==◌, if◌then◌else◌, Field, get, u32, bit_and, bit_or,
}
use hypervi.Hypervisor.Vmcs.{VmcsField, Vmcs}
use hypervi.Freestanding.Segments.{SegmentDescriptor, SelectorLayout}

-- The instructions of freestanding/x86utils.S whose answers no step of `cpu_init` changes, and
-- the memory of the descriptor table.
pub record Processor : Type 0 where
  pub read_es : ℕ
  pub read_cs : ℕ
  pub read_ss : ℕ
  pub read_ds : ℕ
  pub read_fs : ℕ
  pub read_gs : ℕ
  pub read_tr : ℕ
  pub read_ldtr : ℕ
  pub read_cr3 : ℕ
  pub read_rflags : ℕ
  pub get_rsp : ℕ
  pub get_rip : ℕ
  pub gdtr_base : ℕ
  pub gdtr_limit : ℕ
  pub idtr_base : ℕ
  pub idtr_limit : ℕ
  pub read_msr : ℕ → ℕ
  pub call_lsl : ℕ → ℕ
  pub call_lar : ℕ → ℕ
  pub descriptors : ℕ → SegmentDescriptor
  pub selector : SelectorLayout

-- The numbers of the model-specific registers.
pub record MsrIds : Type 0 where
  pub vmx_basic : ℕ
  pub vmx_cr0_fixed0 : ℕ
  pub vmx_cr0_fixed1 : ℕ
  pub vmx_cr4_fixed0 : ℕ
  pub vmx_cr4_fixed1 : ℕ
  pub vmx_exit_ctls : ℕ
  pub vmx_true_exit_ctls : ℕ
  pub vmx_entry_ctls : ℕ
  pub vmx_true_entry_ctls : ℕ
  pub vmx_pinbased_ctls : ℕ
  pub vmx_true_pinbased_ctls : ℕ
  pub vmx_procbased_ctls : ℕ
  pub vmx_true_procbased_ctls : ℕ
  pub vmx_procbased_ctls2 : ℕ
  pub efer : ℕ
  pub sysenter_cs : ℕ
  pub sysenter_esp : ℕ
  pub sysenter_eip : ℕ
  pub fs_base : ℕ
  pub gs_base : ℕ

-- `cpu_alter_control_register`: both registers are cut to 32 bits.
unfoldable pub cpu_alter_control_register :
    (read_msr : ℕ → ℕ) (original_value msr_id_0 msr_id_1 : ℕ) → ℕ
cpu_alter_control_register read_msr original_value msr_id_0 msr_id_1 =
    let or_data = u32 (read_msr msr_id_0) in
    let and_data = u32 (read_msr msr_id_1) in bit_or (bit_and original_value and_data) or_data

-- The two halves of `ia32_vmx_true_ctls_register`.
pub record AllowedLayout : Type 0 where
  pub allowed_0_settings : Field
  pub allowed_1_settings : Field

unfoldable pub cpu_alter_vmx_control_register :
    (A : AllowedLayout) (read_msr : ℕ → ℕ) (original msr : ℕ) → ℕ
cpu_alter_vmx_control_register A read_msr original msr =
    let msr_data = read_msr msr in
    bit_or (bit_and original (get A.allowed_1_settings msr_data))
      (get A.allowed_0_settings msr_data)

-- How the processor takes `vmwrite`: the number of a field, the bits that it has, and what
-- `call_vmwrite` returns.
pub record VmcsAccess : Type 0 where
  pub encoding : VmcsField → ℕ
  pub width : VmcsField → ℕ
  pub call_vmwrite : VmcsField → ℕ → ℕ

module _ (W : VmcsAccess) where
  -- A failed write changes no field.
  unfoldable pub cpu_vmxwrite : VmcsField → ℕ → Vmcs → Vmcs
  cpu_vmxwrite f v vmcs =
      if W.call_vmwrite f v == 0
      then (λ g. if W.encoding f == W.encoding g then some (v % 2 ^ W.width f) else vmcs g)
      else vmcs

  -- Calls of `cpu_vmxwrite`, one after the other.
  unfoldable pub write_fields : List (VmcsField × ℕ) → Vmcs → Vmcs
  unfolding cpu_vmxwrite
  write_fields [] vmcs = vmcs
  write_fields ((f, v) ∷ l) vmcs = write_fields l (cpu_vmxwrite f v vmcs)
