-- ===== src/Hypervisor/Cpu/Dump.antt =====
-- What the hypervisor logs of a core: `cpu_dumpvmcs` of hypervisor/cpu.cc.
use Prim.Native.String.{String}
use hypervi.Base.{ℕ, List, [], ◌∷◌, map}
use hypervi.Hypervisor.Vmcs.{VmcsField, Vmcs, cpu_vmxread}

-- A call of `corelog` or `corelog_hex`, without the prefix.
pub data CoreLogged : Type 0 where
  corelog : (msg : String) → CoreLogged
  corelog_hex : (msg : String) (value : ℕ) → CoreLogged

-- `vmcsdumpe`
pub record Vmcsdumpe : Type 0 where
  pub index : VmcsField
  pub name : String

abbrev key : VmcsField → String → Vmcsdumpe
key index name = record { index = index; name = name }

abbrev pub keys_to_dump : List Vmcsdumpe
keys_to_dump =
    key VmcsField.host_rsp "host rsp"
    ∷ key VmcsField.host_rip "host rip"
    ∷ key VmcsField.guest_rsp "guest rsp"
    ∷ key VmcsField.guest_rip "guest rip"
    ∷ key VmcsField.guest_es_selector "guest es sel"
    ∷ key VmcsField.guest_cs_selector "guest cs sel"
    ∷ key VmcsField.guest_ss_selector "guest ss sel"
    ∷ key VmcsField.guest_ds_selector "guest ds sel"
    ∷ key VmcsField.guest_fs_selector "guest fs sel"
    ∷ key VmcsField.guest_gs_selector "guest gs sel"
    ∷ key VmcsField.guest_ldtr_selector "guest ldtr sel"
    ∷ key VmcsField.guest_tr_selector "guest tr sel"
    ∷ key VmcsField.guest_vmcs_link_pointer "guest vmc link"
    ∷ key VmcsField.guest_efer "guest efer"
    ∷ key VmcsField.guest_es_limit "guest es limit"
    ∷ key VmcsField.guest_cs_limit "guest cs limit"
    ∷ key VmcsField.guest_ss_limit "guest ss limit"
    ∷ key VmcsField.guest_ds_limit "guest ds limit"
    ∷ key VmcsField.guest_fs_limit "guest fs limit"
    ∷ key VmcsField.guest_gs_limit "guest gs limit"
    ∷ key VmcsField.guest_ldtr_limit "guest ldtr limit"
    ∷ key VmcsField.guest_tr_limit "guest tr limit"
    ∷ key VmcsField.guest_gdtr_limit "guest gdtr limit"
    ∷ key VmcsField.guest_idtr_limit "guest idtr limit"
    ∷ key VmcsField.guest_es_access_rights "guest es ar"
    ∷ key VmcsField.guest_cs_access_rights "guest cs ar"
    ∷ key VmcsField.guest_ss_access_rights "guest ss ar"
    ∷ key VmcsField.guest_ds_access_rights "guest ds ar"
    ∷ key VmcsField.guest_fs_access_rights "guest fs ar"
    ∷ key VmcsField.guest_gs_access_rights "guest gs ar"
    ∷ key VmcsField.guest_ldtr_access_rights "guest ldtr ar"
    ∷ key VmcsField.guest_tr_access_rights "guest tr ar"
    ∷ key VmcsField.guest_sysenter_cs "guest sysenter cs"
    ∷ key VmcsField.guest_cr0 "guest cr0"
    ∷ key VmcsField.guest_cr3 "guest cr3"
    ∷ key VmcsField.guest_cr4 "guest cr4"
    ∷ key VmcsField.guest_fs_base "guest fs base"
    ∷ key VmcsField.guest_gs_base "guest gs base"
    ∷ key VmcsField.guest_ldtr_base "guest ldtr base"
    ∷ key VmcsField.guest_tr_base "guest tr base"
    ∷ key VmcsField.guest_gdtr_base "guest gdtr base"
    ∷ key VmcsField.guest_idtr_base "guest idtr base"
    ∷ key VmcsField.guest_rsp "guest rsp"
    ∷ key VmcsField.guest_rip "guest rip"
    ∷ key VmcsField.guest_rflags "guest rflags"
    ∷ key VmcsField.guest_sysenter_esp "guest sysenter esp"
    ∷ key VmcsField.guest_sysenter_eip "guest sysenter eip"
    ∷ []

unfoldable pub cpu_dumpvmcs : Vmcs → List CoreLogged
cpu_dumpvmcs vmcs =
    map (λ (k : Vmcsdumpe). corelog_hex k.name (cpu_vmxread vmcs k.index)) keys_to_dump
