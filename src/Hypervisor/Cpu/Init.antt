-- ===== src/Hypervisor/Cpu/Init.antt =====
-- `cpu_init`. What it logs is left out, with the values that it reads for the log alone, and so
-- are the pages that it clears: `vmx_msr_bitmap` and `host_stack` are only addresses here.
use hypervi.Base.{ℕ, Option, none, some, Bool, List, leb, ◌/=◌, if◌then◌else◌, Field, get, put}
use hypervi.Hypervisor.Vmcs.{VmcsField, Vmcs}
use hypervi.Hypervisor.Mtrr.{MtrrData, MemoryTypes}
use hypervi.Hypervisor.Ept.{EptLayout, Machine, ept_init_core}
use hypervi.Hypervisor.VmxCheck.Layout.{SegmentLayout, GuestLayout}
use hypervi.Hypervisor.VmxCheck.Guest.{cpu_vmxcheck}
use hypervi.Hypervisor.Cpu.{Processor, MsrIds, VmcsAccess, cpu_alter_control_register, write_fields}
use hypervi.Hypervisor.Cpu.Controls.{ControlLayout}
use hypervi.Hypervisor.Cpu.Fields.{Source, init_fields}

-- The length of `g_cpu_states`.
abbrev pub cpu_max : ℕ
cpu_max = 1

-- `cpu_state`: of `core_vmxon` and `core_vmcs` the revision, of `core_ept` the pointer.
pub record CpuState : Type 0 where
  pub status_code : ℕ
  pub core_index : ℕ
  pub vmxon_revision : ℕ
  pub vmcs_revision : ℕ
  pub ept_ptr : ℕ

-- What a core's steps change.
pub record Core : Type 0 where
  pub cr0 : ℕ
  pub cr4 : ℕ
  pub state : CpuState
  pub machine : Machine
  pub vmcs : Vmcs

-- What surrounds `cpu_init`: the layouts of the header, the processor, the addresses of the
-- core's structures, what `ldr_core_whoami` says and what `call_vmxon` returns, 0 for success.
-- `call_vmlaunch` gives `none` where the processor enters the guest: the call does not come back.
pub record Platform : Type 0 where
  pub controls : ControlLayout
  pub msr_ids : MsrIds
  pub processor : Processor
  pub access : VmcsAccess
  pub ept : EptLayout
  pub types : MemoryTypes
  pub segment : SegmentLayout
  pub guest : GuestLayout
  pub alloc : ℕ → ℕ
  pub cr4_vmx_enable : Field
  pub host_stack : ℕ
  pub host_entrypoint : ℕ
  pub msr_bitmap : ℕ
  pub cr0_numeric_error_flag : ℕ
  pub cr0_paging_enable_flag : ℕ
  pub cr4_vmx_enable_flag : ℕ
  pub whoami : ℕ
  pub call_vmxon : (revision : ℕ) → ℕ
  pub call_vmlaunch : Vmcs → Option ℕ

-- How a call ends: the core has no element of `g_cpu_states`; root mode failed and 1 is returned;
-- `call_vmlaunch` came back, with any status, and 0 is returned; the guest runs from the fields of
-- its VMCS and the call does not return. The last two say what `cpu_vmxcheck` returned, which the
-- call only logs.
pub data Outcome : Type 0 where
  no_state : Outcome
  no_root_mode : Core → Outcome
  refused : (checked : Bool) → Core → Outcome
  launched : (checked : Bool) → Core → Outcome

-- From the call of `call_vmlaunch` on.
unfoldable pub end_launch : (status : Option ℕ) (checked : Bool) → Core → Outcome
end_launch none checked c = launched checked c
end_launch (some status) checked c = refused checked c

module _ (Π : Platform) where
  abbrev msr : ℕ → ℕ
  msr = Π.processor.read_msr

  -- From the entry to the call of `call_vmxon`.
  unfoldable pub prepare : Core → Core
  prepare c = record {
    cr0 = cpu_alter_control_register msr c.cr0 Π.msr_ids.vmx_cr0_fixed0 Π.msr_ids.vmx_cr0_fixed1;
    cr4 =
        cpu_alter_control_register msr (put Π.cr4_vmx_enable 1 c.cr4) Π.msr_ids.vmx_cr4_fixed0
          Π.msr_ids.vmx_cr4_fixed1;
    state = record {
      status_code = 0;
      core_index = Π.whoami;
      vmxon_revision = get Π.controls.vmcs_revision_id (msr Π.msr_ids.vmx_basic);
      vmcs_revision = 0;
      ept_ptr = c.state.ept_ptr;
    };
    machine = c.machine;
    vmcs = c.vmcs;
  }

  abbrev pub source : Core → Source
  source c = record {
    cr0 = c.cr0;
    cr4 = c.cr4;
    ept_ptr = c.state.ept_ptr;
    host_stack = Π.host_stack;
    host_entrypoint = Π.host_entrypoint;
    msr_bitmap = Π.msr_bitmap;
    cr0_numeric_error_flag = Π.cr0_numeric_error_flag;
    cr0_paging_enable_flag = Π.cr0_paging_enable_flag;
    cr4_vmx_enable_flag = Π.cr4_vmx_enable_flag;
  }

  -- The fields that `cpu_init` writes on a core.
  abbrev pub core_fields : Core → List (VmcsField × ℕ)
  core_fields c = init_fields Π.controls Π.msr_ids Π.processor (source c)

  -- The core's state with its extended page tables.
  unfoldable pub build_tables : (mtrrs : List MtrrData) (default : ℕ) → Core → Core
  build_tables mtrrs default c =
      let (ptr, machine) = ept_init_core Π.ept Π.types mtrrs default Π.alloc c.machine in
      record c {
        state = record c.state {
          status_code = 1;
          vmcs_revision = c.state.vmxon_revision;
          ept_ptr = ptr;
        };
        machine = machine;
      }

  unfoldable pub fill_vmcs : Core → Core
  fill_vmcs c = record c { vmcs = write_fields Π.access (core_fields c) c.vmcs }

  -- `mtrrs` and `default` are what `ept_init_mtrr` left behind.
  unfoldable pub cpu_init : (mtrrs : List MtrrData) (default : ℕ) → Core → Outcome
  unfolding end_launch
  cpu_init mtrrs default c =
      if leb cpu_max Π.whoami
      then no_state
      else let ready = prepare c in
        if Π.call_vmxon ready.state.vmxon_revision /= 0
        then no_root_mode ready
        else let set_up = fill_vmcs (build_tables mtrrs default ready) in
          let checked = cpu_vmxcheck Π.segment Π.guest set_up.vmcs in
          end_launch (Π.call_vmlaunch set_up.vmcs) checked set_up
