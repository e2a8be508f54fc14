-- ===== src/Tests/Encoding.antt =====
-- The numbers of the VMCS fields, as the processor's manual has them.
use hypervi.Base.{ℕ}
use hypervi.Hypervisor.Vmcs.{VmcsField}

abbrev pub intel_encoding : VmcsField → ℕ
intel_encoding VmcsField.host_es_selector = 0xc00
intel_encoding VmcsField.host_cs_selector = 0xc02
intel_encoding VmcsField.host_ss_selector = 0xc04
intel_encoding VmcsField.host_ds_selector = 0xc06
intel_encoding VmcsField.host_fs_selector = 0xc08
intel_encoding VmcsField.host_gs_selector = 0xc0a
intel_encoding VmcsField.host_tr_selector = 0xc0c
intel_encoding VmcsField.host_efer = 0x2c02
intel_encoding VmcsField.host_sysenter_cs = 0x4c00
intel_encoding VmcsField.host_cr0 = 0x6c00
intel_encoding VmcsField.host_cr3 = 0x6c02
intel_encoding VmcsField.host_cr4 = 0x6c04
intel_encoding VmcsField.host_fs_base = 0x6c06
intel_encoding VmcsField.host_gs_base = 0x6c08
intel_encoding VmcsField.host_tr_base = 0x6c0a
intel_encoding VmcsField.host_gdtr_base = 0x6c0c
intel_encoding VmcsField.host_idtr_base = 0x6c0e
intel_encoding VmcsField.host_sysenter_esp = 0x6c10
intel_encoding VmcsField.host_sysenter_eip = 0x6c12
intel_encoding VmcsField.host_rsp = 0x6c14
intel_encoding VmcsField.host_rip = 0x6c16
intel_encoding VmcsField.ctrl_virtual_processor_identifier = 0x0
intel_encoding VmcsField.ctrl_msr_bitmap_address = 0x2004
intel_encoding VmcsField.ctrl_ept_pointer = 0x201a
intel_encoding VmcsField.ctrl_exception_bitmap = 0x4004
intel_encoding VmcsField.ctrl_pin_based_vm_execution_controls = 0x4000
intel_encoding VmcsField.ctrl_processor_based_vm_execution_controls = 0x4002
intel_encoding VmcsField.ctrl_vmexit_controls = 0x400c
intel_encoding VmcsField.ctrl_vmentry_controls = 0x4012
intel_encoding VmcsField.ctrl_secondary_processor_based_vm_execution_controls = 0x401e
intel_encoding VmcsField.ctrl_cr0_guest_host_mask = 0x6000
intel_encoding VmcsField.ctrl_cr0_read_shadow = 0x6004
intel_encoding VmcsField.ctrl_cr4_guest_host_mask = 0x6002
intel_encoding VmcsField.ctrl_cr4_read_shadow = 0x6006
intel_encoding VmcsField.guest_es_selector = 0x800
intel_encoding VmcsField.guest_cs_selector = 0x802
intel_encoding VmcsField.guest_ss_selector = 0x804
intel_encoding VmcsField.guest_ds_selector = 0x806
intel_encoding VmcsField.guest_fs_selector = 0x808
intel_encoding VmcsField.guest_gs_selector = 0x80a
intel_encoding VmcsField.guest_ldtr_selector = 0x80c
intel_encoding VmcsField.guest_tr_selector = 0x80e
intel_encoding VmcsField.guest_es_base = 0x6806
intel_encoding VmcsField.guest_cs_base = 0x6808
intel_encoding VmcsField.guest_ss_base = 0x680a
intel_encoding VmcsField.guest_ds_base = 0x680c
intel_encoding VmcsField.guest_fs_base = 0x680e
intel_encoding VmcsField.guest_gs_base = 0x6810
intel_encoding VmcsField.guest_ldtr_base = 0x6812
intel_encoding VmcsField.guest_tr_base = 0x6814
intel_encoding VmcsField.guest_gdtr_base = 0x6816
intel_encoding VmcsField.guest_idtr_base = 0x6818
intel_encoding VmcsField.guest_vmcs_link_pointer = 0x2800
intel_encoding VmcsField.guest_efer = 0x2806
intel_encoding VmcsField.guest_es_limit = 0x4800
intel_encoding VmcsField.guest_cs_limit = 0x4802
intel_encoding VmcsField.guest_ss_limit = 0x4804
intel_encoding VmcsField.guest_ds_limit = 0x4806
intel_encoding VmcsField.guest_fs_limit = 0x4808
intel_encoding VmcsField.guest_gs_limit = 0x480a
intel_encoding VmcsField.guest_ldtr_limit = 0x480c
intel_encoding VmcsField.guest_tr_limit = 0x480e
intel_encoding VmcsField.guest_gdtr_limit = 0x4810
intel_encoding VmcsField.guest_idtr_limit = 0x4812
intel_encoding VmcsField.guest_es_access_rights = 0x4814
intel_encoding VmcsField.guest_cs_access_rights = 0x4816
intel_encoding VmcsField.guest_ss_access_rights = 0x4818
intel_encoding VmcsField.guest_ds_access_rights = 0x481a
intel_encoding VmcsField.guest_fs_access_rights = 0x481c
intel_encoding VmcsField.guest_gs_access_rights = 0x481e
intel_encoding VmcsField.guest_ldtr_access_rights = 0x4820
intel_encoding VmcsField.guest_tr_access_rights = 0x4822
intel_encoding VmcsField.guest_sysenter_cs = 0x482a
intel_encoding VmcsField.guest_sysenter_esp = 0x6824
intel_encoding VmcsField.guest_sysenter_eip = 0x6826
intel_encoding VmcsField.guest_cr0 = 0x6800
intel_encoding VmcsField.guest_cr3 = 0x6802
intel_encoding VmcsField.guest_cr4 = 0x6804
intel_encoding VmcsField.guest_rsp = 0x681c
intel_encoding VmcsField.guest_rip = 0x681e
intel_encoding VmcsField.guest_rflags = 0x6820
intel_encoding VmcsField.guest_interruptibility_state = 0x4824
intel_encoding VmcsField.guest_activity_state = 0x4826
intel_encoding VmcsField.vm_instruction_error = 0x4400
intel_encoding VmcsField.exit_reason = 0x4402
intel_encoding VmcsField.exit_qualification = 0x6400
intel_encoding VmcsField.vmexit_instruction_info = 0x440e
intel_encoding VmcsField.vmexit_interruption_error_code = 0x4406
intel_encoding VmcsField.exit_guest_linear_address = 0x640a
