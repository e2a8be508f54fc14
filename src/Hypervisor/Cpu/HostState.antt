-- ===== src/Hypervisor/Cpu/HostState.antt =====
-- The selectors that a VM exit loads.
use mathlib.Core.Option.{some-injective}
use hypervi.Base.{
  ℕ, zero, suc, ◌/◌, ◌%◌, ◌<◌, Option, ◌≡◌, sym, ap, ◌∙◌, arith, some, get_elem?, bit_and,
  bit_and-halves,
}
use hypervi.Hypervisor.Vmcs.{VmcsField}
use hypervi.Hypervisor.Cpu.{Processor, MsrIds}
use hypervi.Hypervisor.Cpu.Controls.{ControlLayout}
use hypervi.Hypervisor.Cpu.Fields.{Source, host_fields}

low_bits : (x : ℕ) → bit_and x 0xfffffff8 % 8 ≡ 0
low_bits x = omega (
  arith,
  bit_and-halves x 0xfffffff8,
  bit_and-halves (x / 2) 0x7ffffffc,
  bit_and-halves (x / 2 / 2) 0x3ffffffe,
)

at_selector :
    (x : ℕ) (g f : VmcsField) (v : ℕ)
    → ◌≡◌ {A = Option (VmcsField × ℕ)} (some (g, bit_and x 0xfffffff8)) (some (f, v))
    → v % 8 ≡ 0
at_selector x g f v e =
    ap (λ (p : VmcsField × ℕ). p.1 % 8) (sym (some-injective (g, bit_and x 0xfffffff8) (f, v) e))
    ∙ low_bits x

module _ (C : ControlLayout) (M : MsrIds) (P : Processor) (S : Source) where
  -- The first seven fields, the selectors of the host, have a privilege level of 0 and name the
  -- global table: the three low bits are 0, as VM entry demands.
  pub host_fields-selectors :
      (i : ℕ) (f : VmcsField) (v : ℕ)
      → i < 7
      → get_elem? (host_fields C M P S) i ≡ some (f, v)
      → v % 8 ≡ 0
  unfolding host_fields
  host_fields-selectors zero f v h e = at_selector P.read_es VmcsField.host_es_selector f v e
  host_fields-selectors (suc zero) f v h e = at_selector P.read_cs VmcsField.host_cs_selector f v e
  host_fields-selectors (suc (suc zero)) f v h e =
      at_selector P.read_ss VmcsField.host_ss_selector f v e
  host_fields-selectors (suc (suc (suc zero))) f v h e =
      at_selector P.read_ds VmcsField.host_ds_selector f v e
  host_fields-selectors (suc (suc (suc (suc zero)))) f v h e =
      at_selector P.read_fs VmcsField.host_fs_selector f v e
  host_fields-selectors (suc (suc (suc (suc (suc zero))))) f v h e =
      at_selector P.read_gs VmcsField.host_gs_selector f v e
  host_fields-selectors (suc (suc (suc (suc (suc (suc zero)))))) f v h e =
      at_selector P.read_tr VmcsField.host_tr_selector f v e
  host_fields-selectors (suc (suc (suc (suc (suc (suc (suc i))))))) f v h e = absurd (omega arith)
