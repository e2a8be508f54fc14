-- ===== src/Hypervisor/Cpu/Alter.antt =====
-- The control words against what the processor allows, bit by bit.
use hypervi.Base.{
  ℕ, ◌%◌, ◌^◌, min, max, ◌≡◌, ◌∙◌, arith, Field, get, puts, get-puts, IsUnion, Assignment, List, ap,
  Disjoint, bit, bit-bit_and, bit-bit_or, refl, [], ◌∷◌,
}
use hypervi.Hypervisor.Cpu.{MsrIds, AllowedLayout, cpu_alter_vmx_control_register}
use hypervi.Hypervisor.Cpu.Controls.{ControlLayout, vmentry_ctls, control_msr}

-- Bit i of a control word is set where the processor demands it, or where it is asked for and
-- the processor allows it.
pub cpu_alter_vmx_control_register-bits :
    (A : AllowedLayout) (read_msr : ℕ → ℕ) (original msr i : ℕ)
    → bit i (cpu_alter_vmx_control_register A read_msr original msr)
      ≡ max
          (min (bit i original) (bit i (get A.allowed_1_settings (read_msr msr))))
          (bit i (get A.allowed_0_settings (read_msr msr)))
unfolding cpu_alter_vmx_control_register
cpu_alter_vmx_control_register-bits A read_msr original msr i = rw (bit-bit_or, bit-bit_and) refl

one_bit : (f : Field) (x : ℕ) → f.width ≡ 1 → get f x ≡ bit f.offset x
unfolding get
one_bit f x w = rw w refl

-- A requested bit that the processor allows is set.
requested :
    (A : AllowedLayout) (read_msr : ℕ → ℕ) (original msr : ℕ) (f : Field)
    → f.width ≡ 1
    → get f original ≡ 1
    → bit f.offset (get A.allowed_1_settings (read_msr msr)) ≡ 1
    → get f (cpu_alter_vmx_control_register A read_msr original msr) ≡ 1
requested A read_msr original msr f w asked allowed =
    let here = one_bit f (cpu_alter_vmx_control_register A read_msr original msr) w in
    let there = one_bit f original w in
    let bits = cpu_alter_vmx_control_register-bits A read_msr original msr f.offset in
    omega (arith, here, there, bits, asked, allowed)

module _ (C : ControlLayout) (M : MsrIds) (read_msr : ℕ → ℕ) where
  -- The bit of a field in the settings that a register allows.
  abbrev allowed : (msr : ℕ) → Field → ℕ
  allowed msr f = bit f.offset (get C.allowed.allowed_1_settings (read_msr msr))

  -- Where the processor allows it, VM entry makes a 64-bit guest and loads its EFER.
  pub vmentry_ctls-long_mode :
      C.entry_ia32e_mode_guest.width ≡ 1
      → C.entry_load_ia32_efer.width ≡ 1
      → Disjoint C.entry_ia32e_mode_guest C.entry_load_ia32_efer
      → allowed
          (control_msr C M read_msr M.vmx_true_entry_ctls M.vmx_entry_ctls)
          C.entry_ia32e_mode_guest
        ≡ 1
      → allowed
          (control_msr C M read_msr M.vmx_true_entry_ctls M.vmx_entry_ctls)
          C.entry_load_ia32_efer
        ≡ 1
      → (get C.entry_ia32e_mode_guest (vmentry_ctls C M read_msr) ≡ 1)
        × (get C.entry_load_ia32_efer (vmentry_ctls C M read_msr) ≡ 1)
  unfolding vmentry_ctls
  vmentry_ctls-long_mode w w' d h h' =
      let asked : List Assignment =
        (C.entry_ia32e_mode_guest, 1) ∷ (C.entry_load_ia32_efer, 1) ∷ [] in
      let union : IsUnion asked = ((d, tt), (tt, tt)) in
      (
        requested C.allowed read_msr (puts asked 0) _ C.entry_ia32e_mode_guest w
            (get-puts asked 0 0 C.entry_ia32e_mode_guest 1 union refl ∙ ap (λ (t : ℕ). 1 % 2 ^ t) w)
            h,
        requested C.allowed read_msr (puts asked 0) _ C.entry_load_ia32_efer w'
            (get-puts asked 0 1 C.entry_load_ia32_efer 1 union refl ∙ ap (λ (t : ℕ). 1 % 2 ^ t) w')
            h',
      )
