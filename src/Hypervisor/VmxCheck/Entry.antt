-- ===== src/Hypervisor/VmxCheck/Entry.antt =====
-- The guests that `cpu_vmxcheck` lets enter.
use hypervi.Base.{ℕ, ◌≡◌, ◌≢◌, ◌↔◌, true, sym, ◌∙◌, get, u16, u32, &&_both, arith}
use hypervi.Hypervisor.Vmcs.{VmcsField, Vmcs, cpu_vmxread}
use hypervi.Hypervisor.VmxCheck.Layout.{SegmentLayout, GuestLayout}
use hypervi.Hypervisor.VmxCheck.{SegmentType, cs, ss, ds, es, fs, gs}
use hypervi.Hypervisor.VmxCheck.Guest.{
  is_ia32e, is_unrestricted, segment_check, segment_checks, cpu_vmxcheck_guest, cpu_vmxcheck,
}
use hypervi.Hypervisor.VmxCheck.Segments.{
  CodeSegment, StackSegment, StackPrivilege, DataSegment, DataSegment-map, StackPrivilege-map,
  CodeSegment-map, cs_check, ss_check, data_check,
}
use hypervi.Hypervisor.VmxCheck.State.{
  Restricted, Restricted-is_unrestricted, ControlState, SelectorState, TaskState, FlagState,
  ActivityState, control_checks_lem, selector_checks_lem, tr_checks_lem, rflags_checks_lem,
  activity_checks_lem,
}

module _ (L : SegmentLayout) (G : GuestLayout) (read : VmcsField → ℕ) where
  -- A segment whose rights, limit and selector stand in three fields, usable or not.
  abbrev Data : (rights limit selector : VmcsField) → Type 0
  Data rights limit selector =
      get L.unusable (u32 (read rights)) ≡ 0
      → DataSegment L read (u32 (read rights)) (u32 (read limit)) (u16 (read selector))
          (Restricted L G read)

  -- Long mode is asked for.
  abbrev LongMode : Type 0
  LongMode = get G.ia32e_mode_guest (read VmcsField.ctrl_vmentry_controls) ≢ 0

  LongMode-is_ia32e : (is_ia32e L G read ≡ true) ↔ LongMode
  LongMode-is_ia32e = ground arith

  -- The six segments of the guest.
  pub record SegmentState : Type 0 where
    pub code :
        CodeSegment L read
          (u32 (read VmcsField.guest_cs_access_rights))
          (u32 (read VmcsField.guest_cs_limit))
          LongMode
    pub stack :
        (get L.unusable (u32 (read VmcsField.guest_ss_access_rights)) ≡ 0
          → StackSegment L read
              (u32 (read VmcsField.guest_ss_access_rights))
              (u32 (read VmcsField.guest_ss_limit)))
        × StackPrivilege L read
            (u32 (read VmcsField.guest_ss_access_rights))
            (u16 (read VmcsField.guest_ss_selector))
            (Restricted L G read)
    pub data_segment :
        Data VmcsField.guest_ds_access_rights VmcsField.guest_ds_limit VmcsField.guest_ds_selector
    pub extra :
        Data VmcsField.guest_es_access_rights VmcsField.guest_es_limit VmcsField.guest_es_selector
    pub thread :
        Data VmcsField.guest_fs_access_rights VmcsField.guest_fs_limit VmcsField.guest_fs_selector
    pub processor :
        Data VmcsField.guest_gs_access_rights VmcsField.guest_gs_limit VmcsField.guest_gs_selector

  segment_check-data :
      (seg : SegmentType) (rights limit selector : VmcsField)
      → seg ≢ cs
      → seg ≢ ss
      → (segment_check L G read seg rights limit selector ≡ true) ↔ Data rights limit selector
  unfolding segment_check
  segment_check-data seg rights limit selector hc hs =
      let check =
        data_check L read seg (u32 (read rights)) (u32 (read limit)) (u16 (read selector))
          (is_ia32e L G read) (is_unrestricted L G read) hc hs in
      let same = Restricted-is_unrestricted L G read in
      (
        λ e usable. DataSegment-map L read same.1 (check.0 e usable),
        λ h. check.1 (λ usable. DataSegment-map L read same.0 (h usable)),
      )

  segment_check-cs :
      (segment_check L G read cs VmcsField.guest_cs_access_rights VmcsField.guest_cs_limit
          VmcsField.guest_cs_selector
        ≡ true)
      ↔ CodeSegment L read
          (u32 (read VmcsField.guest_cs_access_rights))
          (u32 (read VmcsField.guest_cs_limit))
          LongMode
  unfolding segment_check
  segment_check-cs =
      let check =
        cs_check L read (u32 (read VmcsField.guest_cs_access_rights))
          (u32 (read VmcsField.guest_cs_limit)) (u16 (read VmcsField.guest_cs_selector))
          (is_ia32e L G read) (is_unrestricted L G read) in
      (
        λ e. CodeSegment-map L read LongMode-is_ia32e.1 (check.0 e),
        λ h. check.1 (CodeSegment-map L read LongMode-is_ia32e.0 h),
      )

  segment_check-ss :
      (segment_check L G read ss VmcsField.guest_ss_access_rights VmcsField.guest_ss_limit
          VmcsField.guest_ss_selector
        ≡ true)
      ↔ ((get L.unusable (u32 (read VmcsField.guest_ss_access_rights)) ≡ 0
            → StackSegment L read
                (u32 (read VmcsField.guest_ss_access_rights))
                (u32 (read VmcsField.guest_ss_limit)))
          × StackPrivilege L read
              (u32 (read VmcsField.guest_ss_access_rights))
              (u16 (read VmcsField.guest_ss_selector))
              (Restricted L G read))
  unfolding segment_check
  segment_check-ss =
      let check =
        ss_check L read (u32 (read VmcsField.guest_ss_access_rights))
          (u32 (read VmcsField.guest_ss_limit)) (u16 (read VmcsField.guest_ss_selector))
          (is_ia32e L G read) (is_unrestricted L G read) in
      let same = Restricted-is_unrestricted L G read in
      (
        λ e. ((check.0 e).0, StackPrivilege-map L read same.1 (check.0 e).1),
        λ h. check.1 (h.0, StackPrivilege-map L read same.0 h.1),
      )

  segment_checks_lem : (segment_checks L G read ≡ true) ↔ SegmentState
  unfolding segment_checks
  segment_checks_lem =
      let both =
        &&_both
          (&&_both
            (&&_both
              (&&_both (&&_both segment_check-cs segment_check-ss)
                (segment_check-data ds _ _ _ (λ e. cc) (λ e. cc)))
              (segment_check-data es _ _ _ (λ e. cc) (λ e. cc)))
            (segment_check-data fs _ _ _ (λ e. cc) (λ e. cc)))
          (segment_check-data gs _ _ _ (λ e. cc) (λ e. cc)) in
      (
        λ e.
            let (((((c, s), d), x), t), p) = both.0 e in
            record { code = c; stack = s; data_segment = d; extra = x; thread = t; processor = p },
        λ h. both.1 (((((h.code, h.stack), h.data_segment), h.extra), h.thread), h.processor),
      )

  -- What a guest's state is, where VM entry is tried.
  pub record GuestState : Type 0 where
    pub control : ControlState L G read
    pub selector : SelectorState L G read
    pub segment : SegmentState
    pub task : TaskState L G read
    pub flags : FlagState L G read
    pub activity : ActivityState L G read

  cpu_vmxcheck_guest_lem : (cpu_vmxcheck_guest L G read ≡ true) ↔ GuestState
  unfolding cpu_vmxcheck_guest
  cpu_vmxcheck_guest_lem =
      let both =
        &&_both
          (&&_both
            (&&_both
              (&&_both (&&_both (control_checks_lem L G read) (selector_checks_lem L G read))
                segment_checks_lem)
              (tr_checks_lem L G read))
            (rflags_checks_lem L G read))
          (activity_checks_lem L G read) in
      (
        λ e.
            let (((((c, s), g), t), f), a) = both.0 e in
            record { control = c; selector = s; segment = g; task = t; flags = f; activity = a },
        λ h. both.1 (((((h.control, h.selector), h.segment), h.task), h.flags), h.activity),
      )

-- `cpu_vmxcheck` accepts exactly the guests whose state, as `cpu_vmxread` gives it, is that
-- of a 64-bit guest: control registers, selectors, segments, task register, flags and activity.
pub cpu_vmxcheck_lem :
    (L : SegmentLayout) (G : GuestLayout) (vmcs : Vmcs)
    → (cpu_vmxcheck L G vmcs ≡ true) ↔ GuestState L G (cpu_vmxread vmcs)
unfolding cpu_vmxcheck
cpu_vmxcheck_lem L G vmcs = cpu_vmxcheck_guest_lem L G (cpu_vmxread vmcs)

-- A guest that `cpu_vmxcheck` accepts and that loads EFER runs in long mode: paging with
-- physical address extension is on, long mode is asked for, and EFER says that it is enabled
-- and active as the controls say.
pub cpu_vmxcheck-long_mode :
    (L : SegmentLayout) (G : GuestLayout) (vmcs : Vmcs)
    → cpu_vmxcheck L G vmcs ≡ true
    → get G.load_ia32_efer (cpu_vmxread vmcs VmcsField.ctrl_vmentry_controls) ≢ 0
    → (get G.ia32e_mode_guest (cpu_vmxread vmcs VmcsField.ctrl_vmentry_controls) ≢ 0)
      × (get G.cr0_paging_enable (cpu_vmxread vmcs VmcsField.guest_cr0) ≢ 0)
      × (get G.cr4_physical_address_extension (cpu_vmxread vmcs VmcsField.guest_cr4) ≢ 0)
      × (get G.ia32e_mode_enable (cpu_vmxread vmcs VmcsField.guest_efer)
          ≡ get G.ia32e_mode_guest (cpu_vmxread vmcs VmcsField.ctrl_vmentry_controls))
cpu_vmxcheck-long_mode L G vmcs e h =
    let s = (cpu_vmxcheck_lem L G vmcs).0 e in
    let mode = s.task.long_mode in
    let paging = s.control.paging mode in
    let efer = s.control.efer h in
    (
      mode,
      paging,
      s.control.physical_address_extension mode,
      sym (efer.enabled paging) ∙ efer.active,
    )
