-- ===== src/Hypervisor/VmxCheck/Guest.antt =====
-- `cpu_vmxcheck_guest` and `cpu_vmxcheck`. The stretches of the function between its checks of
-- the segments are functions of their own, called in its order.
use hypervi.Base.{
  ℕ, Bool, false, not, ◌&&◌, ◌||◌, ◌==◌, ◌/=◌, if◌then◌else◌, implies, truth, u16, u32, get,
}
use hypervi.Hypervisor.Vmcs.{VmcsField, Vmcs, cpu_vmxread}
use hypervi.Hypervisor.VmxCheck.Layout.{SegmentLayout, GuestLayout}
use hypervi.Hypervisor.VmxCheck.{
  SegmentType, cs, ss, ds, es, fs, gs, is_flag_set, check_segment_access_rights,
}

module _ (L : SegmentLayout) (G : GuestLayout) (read : VmcsField → ℕ) where
  abbrev vmentry : ℕ
  vmentry = read VmcsField.ctrl_vmentry_controls

  abbrev pub is_ia32e : Bool
  is_ia32e = truth (get G.ia32e_mode_guest vmentry)

  unfoldable pub is_unrestricted : Bool
  is_unrestricted =
      truth (
        get G.activate_secondary_controls
          (read VmcsField.ctrl_processor_based_vm_execution_controls))
      && truth (
          get G.unrestricted_guest
            (read VmcsField.ctrl_secondary_processor_based_vm_execution_controls))

  abbrev paging : Bool
  paging = truth (get G.cr0_paging_enable (read VmcsField.guest_cr0))

  -- The checks where the guest's EFER is loaded.
  unfoldable pub efer_checks : Bool
  efer_checks =
      let efer = read VmcsField.guest_efer in
      get G.efer_reserved1 efer == 0
      && get G.efer_reserved2 efer == 0
      && get G.efer_reserved3 efer == 0
      && get G.ia32e_mode_active efer == get G.ia32e_mode_guest vmentry
      && implies paging (get G.ia32e_mode_active efer == get G.ia32e_mode_enable efer)

  -- From the check of CR0 to that of the CET control.
  unfoldable pub control_checks : Bool
  unfolding is_unrestricted efer_checks
  control_checks =
      implies (paging && not is_unrestricted)
        (get L.protection_enable (read VmcsField.guest_cr0) == 1)
      && get G.load_ia32_perf_global_ctrl vmentry == 0
      && implies is_ia32e
          (paging && truth (get G.cr4_physical_address_extension (read VmcsField.guest_cr4)))
      && implies (truth (get G.load_ia32_efer vmentry)) efer_checks
      && get G.load_ia32_bndcfgs vmentry == 0
      && get G.load_ia32_rtit_ctl vmentry == 0
      && get G.load_cet_state vmentry == 0

  -- The table bits of the selectors of TR and LDTR.
  unfoldable pub selector_checks : Bool
  selector_checks =
      get L.table (u16 (read VmcsField.guest_tr_selector)) == 0
      && implies (get L.unusable (u32 (read VmcsField.guest_ldtr_access_rights)) == 0)
          (get L.table (u16 (read VmcsField.guest_ldtr_selector)) == 0)

  unfoldable pub segment_check : SegmentType → (access_rights limit selector : VmcsField) → Bool
  unfolding is_unrestricted check_segment_access_rights
  segment_check seg access_rights limit selector =
      check_segment_access_rights L read seg (u32 (read access_rights)) (u32 (read limit))
        (u16 (read selector)) is_ia32e is_unrestricted

  unfoldable pub segment_checks : Bool
  unfolding segment_check
  segment_checks =
      segment_check cs VmcsField.guest_cs_access_rights VmcsField.guest_cs_limit
        VmcsField.guest_cs_selector
      && segment_check ss VmcsField.guest_ss_access_rights VmcsField.guest_ss_limit
          VmcsField.guest_ss_selector
      && segment_check ds VmcsField.guest_ds_access_rights VmcsField.guest_ds_limit
          VmcsField.guest_ds_selector
      && segment_check es VmcsField.guest_es_access_rights VmcsField.guest_es_limit
          VmcsField.guest_es_selector
      && segment_check fs VmcsField.guest_fs_access_rights VmcsField.guest_fs_limit
          VmcsField.guest_fs_selector
      && segment_check gs VmcsField.guest_gs_access_rights VmcsField.guest_gs_limit
          VmcsField.guest_gs_selector

  -- The task register.
  unfoldable pub tr_checks : Bool
  tr_checks =
      let access = u32 (read VmcsField.guest_tr_access_rights) in
      let seg_limit = u32 (read VmcsField.guest_tr_limit) in
      (if is_ia32e then get L.type access == L.code_execute_read_accessed else false)
      && get L.descriptor_type access == 0
      && truth (get L.present access)
      && get L.reserved1 access == 0
      && get L.reserved2 access == 0
      && get L.unusable access == 0
      && implies (not (is_flag_set seg_limit 0xfff)) (get L.granularity access == 0)
      && implies (is_flag_set seg_limit 0xfff00000) (truth (get L.granularity access))

  unfoldable pub rflags_checks : Bool
  rflags_checks =
      let guest_rflags = read VmcsField.guest_rflags in
      get G.rflags_reserved1 guest_rflags == 0
      && get G.rflags_reserved2 guest_rflags == 0
      && get G.rflags_reserved3 guest_rflags == 0
      && get G.rflags_reserved4 guest_rflags == 0
      && truth (get G.read_as_1 guest_rflags)

  -- The activity and interruptibility states. The activity state is an enumeration of 32 bits.
  unfoldable pub activity_checks : Bool
  activity_checks =
      let guest_rflags = read VmcsField.guest_rflags in
      let interruptibility = read VmcsField.guest_interruptibility_state in
      let activity = u32 (read VmcsField.guest_activity_state) in
      let ss_ar = u32 (read VmcsField.guest_ss_access_rights) in
      (activity == G.vmx_active
        || activity == G.vmx_hlt
        || activity == G.vmx_shutdown
        || activity == G.vmx_wait_for_sipi)
      && implies (get L.descriptor_privilege_level ss_ar /= 0) (activity /= G.vmx_hlt)
      && implies
          (get G.blocking_by_sti interruptibility == 1
            || truth (get G.blocking_by_mov_ss interruptibility))
          (activity /= G.vmx_active)
      && implies (get G.interrupt_enable_flag guest_rflags == 0)
          (get G.blocking_by_sti interruptibility == 0)
      && implies (truth (get G.enclave_interruption interruptibility))
          (get G.blocking_by_mov_ss interruptibility == 0)

  unfoldable pub cpu_vmxcheck_guest : Bool
  unfolding control_checks selector_checks segment_checks tr_checks rflags_checks activity_checks
  cpu_vmxcheck_guest =
      control_checks && selector_checks && segment_checks && tr_checks && rflags_checks
      && activity_checks

-- `cpu_vmxcheck`, over what `cpu_vmxread` returns.
unfoldable pub cpu_vmxcheck : SegmentLayout → GuestLayout → Vmcs → Bool
unfolding cpu_vmxcheck_guest cpu_vmxread
cpu_vmxcheck L G vmcs = cpu_vmxcheck_guest L G (cpu_vmxread vmcs)
