-- ===== src/Hypervisor/Cpu/Controls.antt =====
-- The control words that `cpu_init` composes.
use hypervi.Base.{ℕ, ◌/=◌, if◌then◌else◌, Field, get, [], ◌∷◌, puts}
use hypervi.Hypervisor.Cpu.{MsrIds, AllowedLayout, cpu_alter_vmx_control_register}

-- The bit-fields of the control words and of IA32_VMX_BASIC.
pub record ControlLayout : Type 0 where
  pub allowed : AllowedLayout
  pub vmcs_revision_id : Field
  pub vmx_controls : Field
  pub exit_host_address_space_size : Field
  pub exit_load_ia32_efer : Field
  pub exit_save_ia32_efer : Field
  pub entry_load_ia32_efer : Field
  pub entry_ia32e_mode_guest : Field
  pub nmi_exiting : Field
  pub virtual_nmi : Field
  pub use_msr_bitmaps : Field
  pub activate_secondary_controls : Field
  pub enable_ept : Field
  pub enable_vpid : Field
  pub enable_rdtscp : Field
  pub unrestricted_guest : Field
  pub enable_invpcid : Field
  pub enable_xsaves : Field

module _ (C : ControlLayout) (M : MsrIds) (read_msr : ℕ → ℕ) where
  -- `vmx_basic.vmx_controls != 0 ? … : …`
  abbrev pub control_msr : (true_msr msr : ℕ) → ℕ
  control_msr true_msr msr =
      if get C.vmx_controls (read_msr M.vmx_basic) /= 0 then true_msr else msr

  unfoldable pub vmexit_ctls : ℕ
  vmexit_ctls =
      cpu_alter_vmx_control_register C.allowed read_msr
        (puts
          ((C.exit_save_ia32_efer, 1)
            ∷ (C.exit_load_ia32_efer, 1)
            ∷ (C.exit_host_address_space_size, 1)
            ∷ [])
          0)
        (control_msr M.vmx_true_exit_ctls M.vmx_exit_ctls)

  unfoldable pub vmentry_ctls : ℕ
  vmentry_ctls =
      cpu_alter_vmx_control_register C.allowed read_msr
        (puts ((C.entry_ia32e_mode_guest, 1) ∷ (C.entry_load_ia32_efer, 1) ∷ []) 0)
        (control_msr M.vmx_true_entry_ctls M.vmx_entry_ctls)

  unfoldable pub pinbased_ctls : ℕ
  pinbased_ctls =
      cpu_alter_vmx_control_register C.allowed read_msr
        (puts ((C.virtual_nmi, 1) ∷ (C.nmi_exiting, 1) ∷ []) 0)
        (control_msr M.vmx_true_pinbased_ctls M.vmx_pinbased_ctls)

  unfoldable pub procbased_ctls : ℕ
  procbased_ctls =
      cpu_alter_vmx_control_register C.allowed read_msr
        (puts ((C.activate_secondary_controls, 1) ∷ (C.use_msr_bitmaps, 1) ∷ []) 0)
        (control_msr M.vmx_true_procbased_ctls M.vmx_procbased_ctls)

  unfoldable pub procbased2_ctls : ℕ
  procbased2_ctls =
      cpu_alter_vmx_control_register C.allowed read_msr
        (puts
          ((C.enable_xsaves, 1)
            ∷ (C.enable_invpcid, 1)
            ∷ (C.unrestricted_guest, 1)
            ∷ (C.enable_rdtscp, 1)
            ∷ (C.enable_vpid, 0)
            ∷ (C.enable_ept, 1)
            ∷ [])
          0)
        M.vmx_procbased_ctls2
