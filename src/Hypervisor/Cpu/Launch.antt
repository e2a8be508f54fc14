-- ===== src/Hypervisor/Cpu/Launch.antt =====
-- What `cpu_init` leaves behind when the guest runs.
use hypervi.Base.{ℕ, ◌%◌, ◌^◌, ◌≡◌, true, some, List, get_elem?}
use hypervi.Hypervisor.Vmcs.{VmcsField, Vmcs, cpu_vmxread}
use hypervi.Hypervisor.Mtrr.{MtrrData}
use hypervi.Hypervisor.Ept.{ept_init_core}
use hypervi.Hypervisor.VmxCheck.Guest.{cpu_vmxcheck}
use hypervi.Hypervisor.Cpu.Written.{unwritten}
use hypervi.Hypervisor.Cpu.Init.{
  Core, Platform, Outcome, launched, prepare, core_fields, build_tables,
}

-- A field of the core's VMCS holds a value, cut to the field's width.
abbrev Holds : Platform → Core → (f : VmcsField) (v : ℕ) → Type 0
Holds Π core f v = cpu_vmxread core.vmcs f ≡ v % 2 ^ Π.access.width f

-- The guest goes on where `cpu_init` read its own instruction and stack pointer, with the control
-- registers, flags, segments and tables of the processor; an exit leads to the entry point and
-- the stack of the host, with the same control registers and tables.
pub record Resumes (Π : Platform) (core : Core) : Type 0 where
  pub guest_rip : Holds Π core VmcsField.guest_rip Π.processor.get_rip
  pub guest_rsp : Holds Π core VmcsField.guest_rsp Π.processor.get_rsp
  pub guest_rflags : Holds Π core VmcsField.guest_rflags Π.processor.read_rflags
  pub guest_cr0 : Holds Π core VmcsField.guest_cr0 core.cr0
  pub guest_cr3 : Holds Π core VmcsField.guest_cr3 Π.processor.read_cr3
  pub guest_cr4 : Holds Π core VmcsField.guest_cr4 core.cr4
  pub guest_efer : Holds Π core VmcsField.guest_efer (Π.processor.read_msr Π.msr_ids.efer)
  pub guest_es_selector : Holds Π core VmcsField.guest_es_selector Π.processor.read_es
  pub guest_cs_selector : Holds Π core VmcsField.guest_cs_selector Π.processor.read_cs
  pub guest_ss_selector : Holds Π core VmcsField.guest_ss_selector Π.processor.read_ss
  pub guest_ds_selector : Holds Π core VmcsField.guest_ds_selector Π.processor.read_ds
  pub guest_fs_selector : Holds Π core VmcsField.guest_fs_selector Π.processor.read_fs
  pub guest_gs_selector : Holds Π core VmcsField.guest_gs_selector Π.processor.read_gs
  pub guest_ldtr_selector : Holds Π core VmcsField.guest_ldtr_selector Π.processor.read_ldtr
  pub guest_tr_selector : Holds Π core VmcsField.guest_tr_selector Π.processor.read_tr
  pub guest_fs_base : Holds Π core VmcsField.guest_fs_base (Π.processor.read_msr Π.msr_ids.fs_base)
  pub guest_gs_base : Holds Π core VmcsField.guest_gs_base (Π.processor.read_msr Π.msr_ids.gs_base)
  pub guest_gdtr_base : Holds Π core VmcsField.guest_gdtr_base Π.processor.gdtr_base
  pub guest_gdtr_limit : Holds Π core VmcsField.guest_gdtr_limit Π.processor.gdtr_limit
  pub guest_idtr_base : Holds Π core VmcsField.guest_idtr_base Π.processor.idtr_base
  pub guest_idtr_limit : Holds Π core VmcsField.guest_idtr_limit Π.processor.idtr_limit
  pub host_rip : Holds Π core VmcsField.host_rip Π.host_entrypoint
  pub host_rsp : Holds Π core VmcsField.host_rsp Π.host_stack
  pub host_cr0 : Holds Π core VmcsField.host_cr0 core.cr0
  pub host_cr3 : Holds Π core VmcsField.host_cr3 Π.processor.read_cr3
  pub host_cr4 : Holds Π core VmcsField.host_cr4 core.cr4
  pub host_efer : Holds Π core VmcsField.host_efer (Π.processor.read_msr Π.msr_ids.efer)
  pub host_gdtr_base : Holds Π core VmcsField.host_gdtr_base Π.processor.gdtr_base
  pub host_idtr_base : Holds Π core VmcsField.host_idtr_base Π.processor.idtr_base
  pub ctrl_ept_pointer : Holds Π core VmcsField.ctrl_ept_pointer core.state.ept_ptr
  pub ctrl_msr_bitmap_address : Holds Π core VmcsField.ctrl_msr_bitmap_address Π.msr_bitmap

module _ (Π : Platform) (mtrrs : List MtrrData) (default : ℕ) (c : Core) where
  -- The core with its tables, before the VMCS is written.
  abbrev pub ready : Core
  ready = build_tables Π mtrrs default (prepare Π c)

  -- The guest starts from a VMCS whose fields read as `cpu_init` writes them, with the tables
  -- that `ept_init_core` built and the status code that its second pass reads; the guest goes on
  -- where the code stands, and the fields that it does not write read as before.
  pub record IsLaunched (o : Outcome) : Type 0 where
    pub core : Core
    pub outcome : o ≡ launched (cpu_vmxcheck Π.segment Π.guest core.vmcs) core
    pub status : core.state.status_code ≡ 1
    pub tables : core.machine ≡ (ept_init_core Π.ept Π.types mtrrs default Π.alloc c.machine).1
    pub pointer :
        core.state.ept_ptr ≡ (ept_init_core Π.ept Π.types mtrrs default Π.alloc c.machine).0
    pub fields :
        (i : ℕ) (f : VmcsField) (v : ℕ)
        → get_elem? (core_fields Π ready) i ≡ some (f, v)
        → cpu_vmxread core.vmcs f ≡ v % 2 ^ Π.access.width f
    pub resumes : Resumes Π core
    pub rest :
        (f : VmcsField)
        → unwritten Π.access f (core_fields Π ready) ≡ true
        → cpu_vmxread core.vmcs f ≡ cpu_vmxread c.vmcs f
