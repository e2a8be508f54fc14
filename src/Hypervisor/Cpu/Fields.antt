-- ===== src/Hypervisor/Cpu/Fields.antt =====
-- The fields of the VMCS that `cpu_init` writes, in its order.
use hypervi.Base.{ℕ, ◌-◌, ◌^◌, List, [], ◌∷◌, ◌++◌, bit_and, bit_or}
use hypervi.Freestanding.Segments.{
  get_segment_base, get_segment_limit, get_segment_access_rights_vmx,
}
use hypervi.Hypervisor.Vmcs.{VmcsField}
use hypervi.Hypervisor.Cpu.{Processor, MsrIds}
use hypervi.Hypervisor.Cpu.Controls.{
  ControlLayout, vmexit_ctls, vmentry_ctls, pinbased_ctls, procbased_ctls, procbased2_ctls,
}

-- What the fields take from the core's state: the control registers as `cpu_init` left them, the
-- addresses of parts of `cpu_state`, and the flags of the header.
pub record Source : Type 0 where
  pub cr0 : ℕ
  pub cr4 : ℕ
  pub ept_ptr : ℕ
  pub host_stack : ℕ
  pub host_entrypoint : ℕ
  pub msr_bitmap : ℕ
  pub cr0_numeric_error_flag : ℕ
  pub cr0_paging_enable_flag : ℕ
  pub cr4_vmx_enable_flag : ℕ

module _ (C : ControlLayout) (M : MsrIds) (P : Processor) (S : Source) where
  unfoldable pub host_fields : List (VmcsField × ℕ)
  host_fields =
      (VmcsField.host_es_selector, bit_and P.read_es 0xfffffff8)
      ∷ (VmcsField.host_cs_selector, bit_and P.read_cs 0xfffffff8)
      ∷ (VmcsField.host_ss_selector, bit_and P.read_ss 0xfffffff8)
      ∷ (VmcsField.host_ds_selector, bit_and P.read_ds 0xfffffff8)
      ∷ (VmcsField.host_fs_selector, bit_and P.read_fs 0xfffffff8)
      ∷ (VmcsField.host_gs_selector, bit_and P.read_gs 0xfffffff8)
      ∷ (VmcsField.host_tr_selector, bit_and P.read_tr 0xfffffff8)
      ∷ (VmcsField.host_efer, P.read_msr M.efer)
      ∷ (VmcsField.host_sysenter_cs, P.read_msr M.sysenter_cs)
      ∷ (VmcsField.host_cr0, S.cr0)
      ∷ (VmcsField.host_cr3, P.read_cr3)
      ∷ (VmcsField.host_cr4, S.cr4)
      ∷ (VmcsField.host_fs_base, P.read_msr M.fs_base)
      ∷ (VmcsField.host_gs_base, P.read_msr M.gs_base)
      ∷ (VmcsField.host_tr_base, get_segment_base P.selector P.descriptors P.gdtr_base P.read_tr)
      ∷ (VmcsField.host_gdtr_base, P.gdtr_base)
      ∷ (VmcsField.host_idtr_base, P.idtr_base)
      ∷ (VmcsField.host_sysenter_esp, P.read_msr M.sysenter_esp)
      ∷ (VmcsField.host_sysenter_eip, P.read_msr M.sysenter_eip)
      ∷ (VmcsField.host_rsp, S.host_stack)
      ∷ (VmcsField.host_rip, S.host_entrypoint)
      ∷ []

  unfoldable pub control_fields : List (VmcsField × ℕ)
  control_fields =
      (VmcsField.ctrl_virtual_processor_identifier, 1)
      ∷ (VmcsField.ctrl_msr_bitmap_address, S.msr_bitmap)
      ∷ (VmcsField.ctrl_ept_pointer, S.ept_ptr)
      ∷ (VmcsField.ctrl_exception_bitmap, 0)
      ∷ (VmcsField.ctrl_pin_based_vm_execution_controls, pinbased_ctls C M P.read_msr)
      ∷ (VmcsField.ctrl_processor_based_vm_execution_controls, procbased_ctls C M P.read_msr)
      ∷ (VmcsField.ctrl_vmexit_controls, vmexit_ctls C M P.read_msr)
      ∷ (VmcsField.ctrl_vmentry_controls, vmentry_ctls C M P.read_msr)
      ∷ (
        VmcsField.ctrl_secondary_processor_based_vm_execution_controls,
        procbased2_ctls C M P.read_msr,
      )
      ∷ (
        VmcsField.ctrl_cr0_guest_host_mask,
        bit_or S.cr0_numeric_error_flag S.cr0_paging_enable_flag,
      )
      ∷ (VmcsField.ctrl_cr0_read_shadow, S.cr0)
      ∷ (VmcsField.ctrl_cr4_guest_host_mask, S.cr4_vmx_enable_flag)
      ∷ (VmcsField.ctrl_cr4_read_shadow, S.cr4)
      ∷ []

  unfoldable pub guest_fields : List (VmcsField × ℕ)
  guest_fields =
      (VmcsField.guest_es_selector, P.read_es)
      ∷ (VmcsField.guest_cs_selector, P.read_cs)
      ∷ (VmcsField.guest_ss_selector, P.read_ss)
      ∷ (VmcsField.guest_ds_selector, P.read_ds)
      ∷ (VmcsField.guest_fs_selector, P.read_fs)
      ∷ (VmcsField.guest_gs_selector, P.read_gs)
      ∷ (VmcsField.guest_ldtr_selector, P.read_ldtr)
      ∷ (VmcsField.guest_tr_selector, P.read_tr)
      ∷ (VmcsField.guest_es_base, get_segment_base P.selector P.descriptors P.gdtr_base P.read_es)
      ∷ (VmcsField.guest_cs_base, get_segment_base P.selector P.descriptors P.gdtr_base P.read_cs)
      ∷ (VmcsField.guest_ss_base, get_segment_base P.selector P.descriptors P.gdtr_base P.read_ss)
      ∷ (VmcsField.guest_ds_base, get_segment_base P.selector P.descriptors P.gdtr_base P.read_ds)
      ∷ (VmcsField.guest_vmcs_link_pointer, (2 ^ 64 - 1))
      ∷ (VmcsField.guest_efer, P.read_msr M.efer)
      ∷ (VmcsField.guest_es_limit, get_segment_limit P.call_lsl P.read_es)
      ∷ (VmcsField.guest_cs_limit, get_segment_limit P.call_lsl P.read_cs)
      ∷ (VmcsField.guest_ss_limit, get_segment_limit P.call_lsl P.read_ss)
      ∷ (VmcsField.guest_ds_limit, get_segment_limit P.call_lsl P.read_ds)
      ∷ (VmcsField.guest_fs_limit, get_segment_limit P.call_lsl P.read_fs)
      ∷ (VmcsField.guest_gs_limit, get_segment_limit P.call_lsl P.read_gs)
      ∷ (VmcsField.guest_ldtr_limit, get_segment_limit P.call_lsl P.read_ldtr)
      ∷ (VmcsField.guest_tr_limit, get_segment_limit P.call_lsl P.read_tr)
      ∷ (VmcsField.guest_gdtr_limit, P.gdtr_limit)
      ∷ (VmcsField.guest_idtr_limit, P.idtr_limit)
      ∷ (
        VmcsField.guest_es_access_rights,
        get_segment_access_rights_vmx P.selector P.call_lar P.read_es,
      )
      ∷ (
        VmcsField.guest_cs_access_rights,
        get_segment_access_rights_vmx P.selector P.call_lar P.read_cs,
      )
      ∷ (
        VmcsField.guest_ss_access_rights,
        get_segment_access_rights_vmx P.selector P.call_lar P.read_ss,
      )
      ∷ (
        VmcsField.guest_ds_access_rights,
        get_segment_access_rights_vmx P.selector P.call_lar P.read_ds,
      )
      ∷ (
        VmcsField.guest_fs_access_rights,
        get_segment_access_rights_vmx P.selector P.call_lar P.read_fs,
      )
      ∷ (
        VmcsField.guest_gs_access_rights,
        get_segment_access_rights_vmx P.selector P.call_lar P.read_gs,
      )
      ∷ (
        VmcsField.guest_ldtr_access_rights,
        get_segment_access_rights_vmx P.selector P.call_lar P.read_ldtr,
      )
      ∷ (
        VmcsField.guest_tr_access_rights,
        get_segment_access_rights_vmx P.selector P.call_lar P.read_tr,
      )
      ∷ (VmcsField.guest_sysenter_cs, P.read_msr M.sysenter_cs)
      ∷ (VmcsField.guest_cr0, S.cr0)
      ∷ (VmcsField.guest_cr3, P.read_cr3)
      ∷ (VmcsField.guest_cr4, S.cr4)
      ∷ (VmcsField.guest_fs_base, P.read_msr M.fs_base)
      ∷ (VmcsField.guest_gs_base, P.read_msr M.gs_base)
      ∷ (
        VmcsField.guest_ldtr_base,
        get_segment_base P.selector P.descriptors P.gdtr_base P.read_ldtr,
      )
      ∷ (VmcsField.guest_tr_base, get_segment_base P.selector P.descriptors P.gdtr_base P.read_tr)
      ∷ (VmcsField.guest_gdtr_base, P.gdtr_base)
      ∷ (VmcsField.guest_idtr_base, P.idtr_base)
      ∷ (VmcsField.guest_rsp, P.get_rsp)
      ∷ (VmcsField.guest_rip, P.get_rip)
      ∷ (VmcsField.guest_rflags, P.read_rflags)
      ∷ (VmcsField.guest_sysenter_esp, P.read_msr M.sysenter_esp)
      ∷ (VmcsField.guest_sysenter_eip, P.read_msr M.sysenter_eip)
      ∷ []

  abbrev pub init_fields : List (VmcsField × ℕ)
  init_fields = host_fields ++ control_fields ++ guest_fields
