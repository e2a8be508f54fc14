-- ===== src/Hypervisor/VmxCheck/Layout.antt =====
-- The bit-fields and constants that the checks take from the ia32 header.
use hypervi.Base.{ℕ, Field}

-- `vmx_segment_access_rights`, `segment_selector`, one bit of `cr0`, and descriptor types.
pub record SegmentLayout : Type 0 where
  pub type : Field
  pub descriptor_type : Field
  pub descriptor_privilege_level : Field
  pub present : Field
  pub reserved1 : Field
  pub long_mode : Field
  pub default_big : Field
  pub granularity : Field
  pub unusable : Field
  pub reserved2 : Field
  pub request_privilege_level : Field
  pub table : Field
  pub protection_enable : Field
  pub data_read_write_accessed : ℕ
  pub data_read_write_expand_down_accessed : ℕ
  pub code_execute_only_accessed : ℕ
  pub code_execute_read_accessed : ℕ
  pub code_execute_only_conforming_accessed : ℕ
  pub code_execute_read_conforming_accessed : ℕ

-- `rflags`, `cr0`, `cr4`, `ia32_efer_register`, the control words, and the activity states.
pub record GuestLayout : Type 0 where
  pub cr0_paging_enable : Field
  pub cr4_physical_address_extension : Field
  pub load_ia32_perf_global_ctrl : Field
  pub ia32e_mode_guest : Field
  pub load_ia32_efer : Field
  pub load_ia32_bndcfgs : Field
  pub load_ia32_rtit_ctl : Field
  pub load_cet_state : Field
  pub activate_secondary_controls : Field
  pub unrestricted_guest : Field
  pub efer_reserved1 : Field
  pub efer_reserved2 : Field
  pub efer_reserved3 : Field
  pub ia32e_mode_active : Field
  pub ia32e_mode_enable : Field
  pub rflags_reserved1 : Field
  pub rflags_reserved2 : Field
  pub rflags_reserved3 : Field
  pub rflags_reserved4 : Field
  pub read_as_1 : Field
  pub interrupt_enable_flag : Field
  pub blocking_by_sti : Field
  pub blocking_by_mov_ss : Field
  pub enclave_interruption : Field
  pub vmx_active : ℕ
  pub vmx_hlt : ℕ
  pub vmx_shutdown : ℕ
  pub vmx_wait_for_sipi : ℕ
