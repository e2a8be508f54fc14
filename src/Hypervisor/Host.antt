-- ===== src/Hypervisor/Host.antt =====
-- A VM exit: `host_vmexit` of hypervisor/host.cc, which the entry of host.S calls.
use hypervi.Base.{
  ℕ, Bool, List, [], ◌∷◌, ◌++◌, Option, none, some, ◌==◌, if◌then◌else◌, truth, Field, get,
}
use hypervi.Hypervisor.Vmcs.{VmcsField, Vmcs, cpu_vmxread}
use hypervi.Hypervisor.Ept.{EptLayout, Machine, Resolved, ept_resolve_entries}
use hypervi.Hypervisor.VmxCheck.Layout.{SegmentLayout, GuestLayout}
use hypervi.Hypervisor.VmxCheck.Guest.{cpu_vmxcheck}
use hypervi.Hypervisor.Cpu.Dump.{CoreLogged, corelog, corelog_hex}

-- `vmx_vmexit_reason` of the ia32 header.
pub record ExitLayout : Type 0 where
  pub basic_exit_reason : Field
  pub vm_entry_failure : Field
  pub ept_misconfiguration : ℕ

-- What an exit logs, the entries that it looks up, and what `cpu_vmxcheck` returned.
pub record VmExit : Type 0 where
  pub logged : List CoreLogged
  pub resolved : Option Resolved
  pub checked : Bool

-- `machine` has the extended page tables.
unfoldable pub host_vmexit :
    ExitLayout → EptLayout → SegmentLayout → GuestLayout → Vmcs → Machine → VmExit
host_vmexit X E L G vmcs machine =
    let reason = cpu_vmxread vmcs VmcsField.exit_reason in
    let basic_exit_reason = get X.basic_exit_reason reason in
    let misconfigured = basic_exit_reason == X.ept_misconfiguration in
    let failed_address = cpu_vmxread vmcs VmcsField.exit_guest_linear_address in
    record {
      logged =
          corelog "vmexit called!\n"
            ∷ corelog_hex "exit reason: " basic_exit_reason
            ∷ (if truth (get X.vm_entry_failure reason)
                then corelog "failed to launch vm! big sad :(\n"
                  ∷ corelog_hex "exit qualifications: "
                      (cpu_vmxread vmcs VmcsField.exit_qualification)
                  ∷ corelog_hex "int err code: "
                      (cpu_vmxread vmcs VmcsField.vmexit_instruction_info)
                  ∷ corelog_hex "int err code: "
                      (cpu_vmxread vmcs VmcsField.vmexit_interruption_error_code)
                  ∷ []
                else [])
          ++ (if misconfigured then corelog "ept misconfigured!\n" ∷ [] else []);
      resolved =
          if misconfigured
          then some (
              ept_resolve_entries E (cpu_vmxread vmcs VmcsField.ctrl_ept_pointer) machine.mem
                failed_address)
          else none;
      checked = cpu_vmxcheck L G vmcs;
    }
