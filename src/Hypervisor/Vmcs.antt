-- ===== src/Hypervisor/Vmcs.antt =====
-- The fields of the virtual-machine control structure that the hypervisor names, and the access
-- functions `cpu_vmxread` and `cpu_vmxwrite` of hypervisor/cpu.cc.
use hypervi.Base.{ℕ, Option, none, some}

pub data VmcsField : Type 0 where
  host_es_selector host_cs_selector host_ss_selector host_ds_selector : VmcsField
  host_fs_selector host_gs_selector host_tr_selector host_efer host_sysenter_cs : VmcsField
  host_cr0 host_cr3 host_cr4 host_fs_base host_gs_base host_tr_base : VmcsField
  host_gdtr_base host_idtr_base host_sysenter_esp host_sysenter_eip host_rsp host_rip : VmcsField
  ctrl_virtual_processor_identifier ctrl_msr_bitmap_address ctrl_ept_pointer : VmcsField
  ctrl_exception_bitmap ctrl_pin_based_vm_execution_controls : VmcsField
  ctrl_processor_based_vm_execution_controls ctrl_vmexit_controls : VmcsField
  ctrl_vmentry_controls : VmcsField
  ctrl_secondary_processor_based_vm_execution_controls : VmcsField
  ctrl_cr0_guest_host_mask ctrl_cr0_read_shadow : VmcsField
  ctrl_cr4_guest_host_mask ctrl_cr4_read_shadow : VmcsField
  guest_es_selector guest_cs_selector guest_ss_selector guest_ds_selector : VmcsField
  guest_fs_selector guest_gs_selector guest_ldtr_selector guest_tr_selector : VmcsField
  guest_es_base guest_cs_base guest_ss_base guest_ds_base guest_fs_base : VmcsField
  guest_gs_base guest_ldtr_base guest_tr_base guest_gdtr_base guest_idtr_base : VmcsField
  guest_vmcs_link_pointer guest_efer : VmcsField
  guest_es_limit guest_cs_limit guest_ss_limit guest_ds_limit guest_fs_limit : VmcsField
  guest_gs_limit guest_ldtr_limit guest_tr_limit guest_gdtr_limit guest_idtr_limit : VmcsField
  guest_es_access_rights guest_cs_access_rights guest_ss_access_rights : VmcsField
  guest_ds_access_rights guest_fs_access_rights guest_gs_access_rights : VmcsField
  guest_ldtr_access_rights guest_tr_access_rights : VmcsField
  guest_sysenter_cs guest_sysenter_esp guest_sysenter_eip : VmcsField
  guest_cr0 guest_cr3 guest_cr4 guest_rsp guest_rip guest_rflags : VmcsField
  guest_interruptibility_state guest_activity_state : VmcsField
  vm_instruction_error exit_reason exit_qualification vmexit_instruction_info : VmcsField
  vmexit_interruption_error_code exit_guest_linear_address : VmcsField

-- What `call_vmread` gives for a field: `none` is a failed instruction, which stores nothing.
abbrev pub Vmcs : Type 0
Vmcs = VmcsField → Option ℕ

-- The value that `cpu_vmxread` returns where the instruction fails.
unfoldable pub cpu_vmxread : Vmcs → VmcsField → ℕ
cpu_vmxread vmcs f = elim (vmcs f) [ none ↦ 0x1337420 | some v ↦ v ]
