-- ===== src/Hypervisor/VmxCheck/State.antt =====
-- The state that `cpu_vmxcheck_guest` demands of a guest, part by part.
use hypervi.Base.{ℕ, ◌≡◌, ◌≢◌, ◌↔◌, ◌⊎◌, true, false, arith, get, u16, u32, Field}
use hypervi.Hypervisor.Vmcs.{VmcsField}
use hypervi.Hypervisor.VmxCheck.Layout.{SegmentLayout, GuestLayout}
use hypervi.Hypervisor.VmxCheck.Segments.{Granularity, low_mask, high_mask}
use hypervi.Hypervisor.VmxCheck.Guest.{
  is_unrestricted, efer_checks, control_checks, selector_checks, tr_checks, rflags_checks,
  activity_checks,
}

module _ (L : SegmentLayout) (G : GuestLayout) (read : VmcsField → ℕ) where
  abbrev entry : Field → ℕ
  entry f = get f (read VmcsField.ctrl_vmentry_controls)

  abbrev cr0_bit : Field → ℕ
  cr0_bit f = get f (read VmcsField.guest_cr0)

  -- The guest is restricted: its secondary controls are off, or do not say otherwise.
  abbrev pub Restricted : Type 0
  Restricted =
      (get G.activate_secondary_controls (read VmcsField.ctrl_processor_based_vm_execution_controls)
        ≡ 0)
      ⊎ (get G.unrestricted_guest
            (read VmcsField.ctrl_secondary_processor_based_vm_execution_controls)
          ≡ 0)

  pub Restricted-is_unrestricted : (is_unrestricted L G read ≡ false) ↔ Restricted
  unfolding is_unrestricted
  Restricted-is_unrestricted = ground arith

  -- EFER where it is loaded: long mode is active where the controls say so.
  pub record EferState : Type 0 where
    pub reserved1 : get G.efer_reserved1 (read VmcsField.guest_efer) ≡ 0
    pub reserved2 : get G.efer_reserved2 (read VmcsField.guest_efer) ≡ 0
    pub reserved3 : get G.efer_reserved3 (read VmcsField.guest_efer) ≡ 0
    pub active : get G.ia32e_mode_active (read VmcsField.guest_efer) ≡ entry G.ia32e_mode_guest
    pub enabled :
        cr0_bit G.cr0_paging_enable ≢ 0
        → get G.ia32e_mode_active (read VmcsField.guest_efer)
          ≡ get G.ia32e_mode_enable (read VmcsField.guest_efer)

  -- Control registers and the controls of VM entry.
  pub record ControlState : Type 0 where
    pub protection : cr0_bit G.cr0_paging_enable ≢ 0 → Restricted → cr0_bit L.protection_enable ≡ 1
    pub paging : entry G.ia32e_mode_guest ≢ 0 → cr0_bit G.cr0_paging_enable ≢ 0
    pub physical_address_extension :
        entry G.ia32e_mode_guest ≢ 0
        → get G.cr4_physical_address_extension (read VmcsField.guest_cr4) ≢ 0
    pub efer : entry G.load_ia32_efer ≢ 0 → EferState
    pub perf_global_ctrl : entry G.load_ia32_perf_global_ctrl ≡ 0
    pub bndcfgs : entry G.load_ia32_bndcfgs ≡ 0
    pub rtit_ctl : entry G.load_ia32_rtit_ctl ≡ 0
    pub cet_state : entry G.load_cet_state ≡ 0

  pub efer_checks_lem : (efer_checks L G read ≡ true) ↔ EferState
  unfolding efer_checks
  efer_checks_lem = ground arith

  pub control_checks_lem : (control_checks L G read ≡ true) ↔ ControlState
  unfolding control_checks
  control_checks_lem = ground (arith, efer_checks_lem, Restricted-is_unrestricted)

  -- The selectors of TR and of a usable LDTR stand in the global table.
  pub record SelectorState : Type 0 where
    pub task : get L.table (u16 (read VmcsField.guest_tr_selector)) ≡ 0
    pub local :
        get L.unusable (u32 (read VmcsField.guest_ldtr_access_rights)) ≡ 0
        → get L.table (u16 (read VmcsField.guest_ldtr_selector)) ≡ 0

  pub selector_checks_lem : (selector_checks L G read ≡ true) ↔ SelectorState
  unfolding selector_checks
  selector_checks_lem = ground arith

  abbrev task : Field → ℕ
  task f = get f (u32 (read VmcsField.guest_tr_access_rights))

  -- A present, usable task register of the busy 64-bit type, in a long-mode guest.
  pub record TaskState : Type 0 where
    pub long_mode : entry G.ia32e_mode_guest ≢ 0
    pub type : task L.type ≡ L.code_execute_read_accessed
    pub descriptor_type : task L.descriptor_type ≡ 0
    pub present : task L.present ≢ 0
    pub reserved1 : task L.reserved1 ≡ 0
    pub reserved2 : task L.reserved2 ≡ 0
    pub usable : task L.unusable ≡ 0
    pub granularity :
        Granularity L
          (u32 (read VmcsField.guest_tr_access_rights))
          (u32 (read VmcsField.guest_tr_limit))

  pub tr_checks_lem : (tr_checks L G read ≡ true) ↔ TaskState
  unfolding tr_checks
  tr_checks_lem = ground (
    arith,
    low_mask (u32 (read VmcsField.guest_tr_limit)),
    high_mask (u32 (read VmcsField.guest_tr_limit)),
  )

  abbrev flag : Field → ℕ
  flag f = get f (read VmcsField.guest_rflags)

  pub record FlagState : Type 0 where
    pub reserved1 : flag G.rflags_reserved1 ≡ 0
    pub reserved2 : flag G.rflags_reserved2 ≡ 0
    pub reserved3 : flag G.rflags_reserved3 ≡ 0
    pub reserved4 : flag G.rflags_reserved4 ≡ 0
    pub read_as_1 : flag G.read_as_1 ≢ 0

  pub rflags_checks_lem : (rflags_checks L G read ≡ true) ↔ FlagState
  unfolding rflags_checks
  rflags_checks_lem = ground arith

  abbrev activity : ℕ
  activity = u32 (read VmcsField.guest_activity_state)

  abbrev blocking : Field → ℕ
  blocking f = get f (read VmcsField.guest_interruptibility_state)

  -- A known activity state that agrees with the privilege level and with what blocks interrupts.
  pub record ActivityState : Type 0 where
    pub known :
        (activity ≡ G.vmx_active)
        ⊎ (activity ≡ G.vmx_hlt)
        ⊎ (activity ≡ G.vmx_shutdown)
        ⊎ (activity ≡ G.vmx_wait_for_sipi)
    pub halted :
        activity ≡ G.vmx_hlt
        → get L.descriptor_privilege_level (u32 (read VmcsField.guest_ss_access_rights)) ≡ 0
    pub blocked_by_sti : activity ≡ G.vmx_active → blocking G.blocking_by_sti ≢ 1
    pub blocked_by_mov_ss : activity ≡ G.vmx_active → blocking G.blocking_by_mov_ss ≡ 0
    pub interrupts_off : flag G.interrupt_enable_flag ≡ 0 → blocking G.blocking_by_sti ≡ 0
    pub enclave : blocking G.enclave_interruption ≢ 0 → blocking G.blocking_by_mov_ss ≡ 0

  pub activity_checks_lem : (activity_checks L G read ≡ true) ↔ ActivityState
  unfolding activity_checks
  activity_checks_lem = ground arith
