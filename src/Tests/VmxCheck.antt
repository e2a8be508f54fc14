-- ===== src/Tests/VmxCheck.antt =====
-- A 64-bit guest as the hypervisor starts it, at the field positions of the processor's manual.
use hypervi.Base.{◌≡◌, ◌↔◌, refl, true, false, some, field, get}
use hypervi.Hypervisor.Vmcs.{VmcsField, Vmcs, cpu_vmxread}
use hypervi.Hypervisor.VmxCheck.{ss, ds, check_segment_access_rights}
use hypervi.Hypervisor.VmxCheck.Layout.{SegmentLayout, GuestLayout}
use hypervi.Hypervisor.VmxCheck.Guest.{cpu_vmxcheck}
use hypervi.Hypervisor.VmxCheck.Segments.{
  StackSegment, StackPrivilege, DataSegment, ss_check, data_check,
}
use hypervi.Hypervisor.VmxCheck.Entry.{GuestState, cpu_vmxcheck_lem}

abbrev pub intel_segment : SegmentLayout
intel_segment = record {
  type = field 0 4;
  descriptor_type = field 4 1;
  descriptor_privilege_level = field 5 2;
  present = field 7 1;
  reserved1 = field 8 4;
  long_mode = field 13 1;
  default_big = field 14 1;
  granularity = field 15 1;
  unusable = field 16 1;
  reserved2 = field 17 15;
  request_privilege_level = field 0 2;
  table = field 2 1;
  protection_enable = field 0 1;
  data_read_write_accessed = 3;
  data_read_write_expand_down_accessed = 7;
  code_execute_only_accessed = 9;
  code_execute_read_accessed = 0xb;
  code_execute_only_conforming_accessed = 0xd;
  code_execute_read_conforming_accessed = 0xf;
}

abbrev pub intel_guest : GuestLayout
intel_guest = record {
  cr0_paging_enable = field 31 1;
  cr4_physical_address_extension = field 5 1;
  load_ia32_perf_global_ctrl = field 13 1;
  ia32e_mode_guest = field 9 1;
  load_ia32_efer = field 15 1;
  load_ia32_bndcfgs = field 16 1;
  load_ia32_rtit_ctl = field 18 1;
  load_cet_state = field 20 1;
  activate_secondary_controls = field 31 1;
  unrestricted_guest = field 7 1;
  efer_reserved1 = field 1 7;
  efer_reserved2 = field 9 1;
  efer_reserved3 = field 12 52;
  ia32e_mode_active = field 10 1;
  ia32e_mode_enable = field 8 1;
  rflags_reserved1 = field 3 1;
  rflags_reserved2 = field 5 1;
  rflags_reserved3 = field 15 1;
  rflags_reserved4 = field 22 42;
  read_as_1 = field 1 1;
  interrupt_enable_flag = field 9 1;
  blocking_by_sti = field 0 1;
  blocking_by_mov_ss = field 1 1;
  enclave_interruption = field 4 1;
  vmx_active = 0;
  vmx_hlt = 1;
  vmx_shutdown = 2;
  vmx_wait_for_sipi = 3;
}

abbrev guest : Vmcs
guest VmcsField.guest_cs_access_rights = some 0xa09b
guest VmcsField.guest_ss_access_rights = some 0xc093
guest VmcsField.guest_ds_access_rights = some 0xc093
guest VmcsField.guest_es_access_rights = some 0xc093
guest VmcsField.guest_fs_access_rights = some 0x10000
guest VmcsField.guest_gs_access_rights = some 0x10000
guest VmcsField.guest_tr_access_rights = some 0x8b
guest VmcsField.guest_ldtr_access_rights = some 0x10000
guest VmcsField.guest_cs_limit = some 0xffffffff
guest VmcsField.guest_ss_limit = some 0xffffffff
guest VmcsField.guest_ds_limit = some 0xffffffff
guest VmcsField.guest_es_limit = some 0xffffffff
guest VmcsField.guest_tr_limit = some 0x67
guest VmcsField.ctrl_vmentry_controls = some 0x8200
guest VmcsField.guest_cr0 = some 0x80000033
guest VmcsField.guest_cr4 = some 0x2020
guest VmcsField.guest_efer = some 0xd00
guest VmcsField.guest_rflags = some 0x2
guest _ = some 0

guest_enters : cpu_vmxcheck intel_segment intel_guest guest ≡ true
unfolding cpu_vmxcheck get
guest_enters = refl

cpu_vmxcheck_lem_example :
    (cpu_vmxcheck intel_segment intel_guest guest ≡ true)
    ↔ GuestState intel_segment intel_guest (cpu_vmxread guest)
cpu_vmxcheck_lem_example = cpu_vmxcheck_lem intel_segment intel_guest guest

ss_check_example :
    (check_segment_access_rights intel_segment
        (cpu_vmxread guest)
        ss
        0xc093
        0xffffffff
        0x30
        true
        false
      ≡ true)
    ↔ ((get (field 16 1) 0xc093 ≡ 0
          → StackSegment intel_segment (cpu_vmxread guest) 0xc093 0xffffffff)
        × StackPrivilege intel_segment (cpu_vmxread guest) 0xc093 0x30 (false ≡ false))
ss_check_example = ss_check intel_segment (cpu_vmxread guest) 0xc093 0xffffffff 0x30 true false

data_check_example :
    (check_segment_access_rights intel_segment
        (cpu_vmxread guest)
        ds
        0xc093
        0xffffffff
        0x30
        true
        false
      ≡ true)
    ↔ (get (field 16 1) 0xc093 ≡ 0
        → DataSegment intel_segment (cpu_vmxread guest) 0xc093 0xffffffff 0x30 (false ≡ false))
data_check_example =
    data_check intel_segment (cpu_vmxread guest) ds 0xc093 0xffffffff 0x30 true false (λ e. cc)
      (λ e. cc)
