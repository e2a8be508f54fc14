-- ===== src/Tests/Cpu.antt =====
-- A processor with concrete registers, from its control words to the guest.
use hypervi.Base.{
  ℕ, ◌≡◌, refl, ◌==◌, ◌/◌, ◌%◌, if◌then◌else◌, field, get, none, ltb, ◌&&◌, ◌+◌, ◌*◌, bit,
}
use hypervi.Freestanding.Segments.{SegmentDescriptor}
use hypervi.Hypervisor.Vmcs.{VmcsField}
use hypervi.Hypervisor.Cpu.{
  Processor, MsrIds, AllowedLayout, VmcsAccess, cpu_alter_vmx_control_register,
}
use hypervi.Hypervisor.Cpu.Controls.{ControlLayout}
use hypervi.Hypervisor.Cpu.Alter.{cpu_alter_vmx_control_register-bits}
use hypervi.Hypervisor.Cpu.Written.{IsWritable}
use hypervi.Hypervisor.Cpu.Init.{Core, Platform}
use hypervi.Hypervisor.Main.{FeatureLayout}
use hypervi.Tests.Encoding.{intel_encoding}
use hypervi.Tests.Mtrr.{intel_types, msr}
use hypervi.Tests.Ept.{intel_ept}
use hypervi.Tests.Segments.{intel_selector}
use hypervi.Tests.VmxCheck.{intel_segment, intel_guest}

-- Every control may be 1, bit 1 of each must be.
abbrev pub cpu_msr : ℕ → ℕ
cpu_msr i =
    if i == 0x480
    then 0x80000000000001
    else if i == 0x487
    then 0xffffffff
    else if i == 0x489
    then 0x3fffff
    else if i == 0x48b
    then 0xffffffff00000000
    else if ltb 0x48c i && ltb i 0x491
    then 0xffffffff00000002
    else msr i

abbrev null_descriptor : SegmentDescriptor
null_descriptor = record {
  base_address_low = 0;
  base_address_middle = 0;
  base_address_high = 0;
  system = 1;
  type = 0;
  base_address_upper = 0;
}

abbrev pub processor : Processor
processor = record {
  read_es = 0x30;
  read_cs = 0x38;
  read_ss = 0x30;
  read_ds = 0x30;
  read_fs = 0x30;
  read_gs = 0x30;
  read_tr = 0x40;
  read_ldtr = 0;
  read_cr3 = 0x1000;
  read_rflags = 2;
  get_rsp = 0x8000;
  get_rip = 0x9000;
  gdtr_base = 0xa000;
  gdtr_limit = 0x57;
  idtr_base = 0xb000;
  idtr_limit = 0xfff;
  read_msr = cpu_msr;
  call_lsl = λ s. 0xffffffff;
  call_lar = λ s. 0xa09b00;
  descriptors = λ a. null_descriptor;
  selector = intel_selector;
}

abbrev intel_msr_ids : MsrIds
intel_msr_ids = record {
  vmx_basic = 0x480;
  vmx_cr0_fixed0 = 0x486;
  vmx_cr0_fixed1 = 0x487;
  vmx_cr4_fixed0 = 0x488;
  vmx_cr4_fixed1 = 0x489;
  vmx_exit_ctls = 0x483;
  vmx_true_exit_ctls = 0x48f;
  vmx_entry_ctls = 0x484;
  vmx_true_entry_ctls = 0x490;
  vmx_pinbased_ctls = 0x481;
  vmx_true_pinbased_ctls = 0x48d;
  vmx_procbased_ctls = 0x482;
  vmx_true_procbased_ctls = 0x48e;
  vmx_procbased_ctls2 = 0x48b;
  efer = 0xc0000080;
  sysenter_cs = 0x174;
  sysenter_esp = 0x175;
  sysenter_eip = 0x176;
  fs_base = 0xc0000100;
  gs_base = 0xc0000101;
}

abbrev intel_allowed : AllowedLayout
intel_allowed = record { allowed_0_settings = field 0 32; allowed_1_settings = field 32 32 }

abbrev intel_controls : ControlLayout
intel_controls = record {
  allowed = intel_allowed;
  vmcs_revision_id = field 0 31;
  vmx_controls = field 55 1;
  exit_host_address_space_size = field 9 1;
  exit_load_ia32_efer = field 21 1;
  exit_save_ia32_efer = field 20 1;
  entry_load_ia32_efer = field 15 1;
  entry_ia32e_mode_guest = field 9 1;
  nmi_exiting = field 3 1;
  virtual_nmi = field 5 1;
  use_msr_bitmaps = field 28 1;
  activate_secondary_controls = field 31 1;
  enable_ept = field 1 1;
  enable_vpid = field 5 1;
  enable_rdtscp = field 3 1;
  unrestricted_guest = field 7 1;
  enable_invpcid = field 12 1;
  enable_xsaves = field 20 1;
}

-- The width of a field is in bits 13 and 14 of its number.
abbrev field_width : VmcsField → ℕ
field_width f =
    let kind = intel_encoding f / 0x2000 % 4 in
    if kind == 0 then 16 else if kind == 2 then 32 else 64

abbrev intel_access : VmcsAccess
intel_access = record { encoding = intel_encoding; width = field_width; call_vmwrite = λ f v. 0 }

pub intel_access-IsWritable : IsWritable intel_access
intel_access-IsWritable = record { accepts = λ f v. refl }

abbrev pub platform : Platform
platform = record {
  controls = intel_controls;
  msr_ids = intel_msr_ids;
  processor = processor;
  access = intel_access;
  ept = intel_ept;
  types = intel_types;
  segment = intel_segment;
  guest = intel_guest;
  alloc = λ n. (n + 16) * 4096;
  cr4_vmx_enable = field 13 1;
  host_stack = 0xd000;
  host_entrypoint = 0xe000;
  msr_bitmap = 0xf000;
  cr0_numeric_error_flag = 0x20;
  cr0_paging_enable_flag = 0x80000000;
  cr4_vmx_enable_flag = 0x2000;
  whoami = 0;
  call_vmxon = λ revision. 0;
  call_vmlaunch = λ vmcs. none;
}

abbrev pub core : Core
core = record {
  cr0 = 0x80000033;
  cr4 = 0x20;
  state = record {
    status_code = 0;
    core_index = 0;
    vmxon_revision = 0;
    vmcs_revision = 0;
    ept_ptr = 0;
  };
  machine = record { mem = λ a. 0; next = 0 };
  vmcs = λ f. none;
}

cpu_alter_vmx_control_register-bits_example :
    bit 9 (cpu_alter_vmx_control_register intel_allowed cpu_msr 0x8200 0x490) ≡ 1
unfolding get
cpu_alter_vmx_control_register-bits_example =
    cpu_alter_vmx_control_register-bits intel_allowed cpu_msr 0x8200 0x490 9

abbrev intel_features : FeatureLayout
intel_features = record {
  vmx = field 5 1;
  vmx_basic = 0x480;
  feature_control = 0x3a;
  ept_vpid_cap = 0x48c;
  write_back = 6;
  memory_type = field 50 4;
  lock_bit = field 0 1;
  enable_vmx_outside_smx = field 2 1;
  page_walk_length_4 = field 6 1;
  memory_type_write_back = field 14 1;
  invept = field 20 1;
  invept_single_context = field 25 1;
  invept_all_contexts = field 26 1;
  invvpid = field 32 1;
  invvpid_individual_address = field 40 1;
  invvpid_single_context = field 41 1;
  invvpid_all_contexts = field 42 1;
  invvpid_single_context_retain_globals = field 43 1;
}

vmx_clear : get intel_features.vmx 0 ≡ 0
unfolding get
vmx_clear = refl
