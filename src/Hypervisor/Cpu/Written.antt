-- ===== src/Hypervisor/Cpu/Written.antt =====
-- Reading a VMCS back after it was written.
use hypervi.Base.{
  ℕ, zero, suc, ◌%◌, ◌^◌, ◌≡◌, refl, ap, ◌∙◌, arith, Bool, true, false, ◌&&◌, List, [], ◌∷◌, Option,
  none, some, ◌==◌, ◌/=◌, if◌then◌else◌, get_elem?, &&_iff,
}
use mathlib.Core.Path.{subst}
use mathlib.Core.Option.{some-injective}
use hypervi.Hypervisor.Vmcs.{VmcsField, Vmcs, cpu_vmxread}
use hypervi.Hypervisor.Cpu.{VmcsAccess, cpu_vmxwrite, write_fields}

==_same : (n : ℕ) → (n == n) ≡ true
==_same n = ground arith

==_other : (m n : ℕ) → (m /= n) ≡ true → (m == n) ≡ false
==_other m n h = ground arith

-- No field of the list has this number.
abbrev pub unwritten : VmcsAccess → VmcsField → List (VmcsField × ℕ) → Bool
unwritten W f [] = true
unwritten W f ((g, v) ∷ l) = (W.encoding g /= W.encoding f) && unwritten W f l

-- The fields of the list have different numbers.
abbrev pub distinct : VmcsAccess → List (VmcsField × ℕ) → Bool
distinct W [] = true
distinct W ((f, v) ∷ l) = unwritten W f l && distinct W l

-- A processor that takes every write.
pub record IsWritable (W : VmcsAccess) : Type 0 where
  pub accepts : (f : VmcsField) (v : ℕ) → W.call_vmwrite f v ≡ 0

module _ (W : VmcsAccess) (ok : IsWritable W) where
  stored :
      (f g : VmcsField) (v : ℕ) (vmcs : Vmcs)
      → cpu_vmxwrite W f v vmcs g
        ≡ (if W.encoding f == W.encoding g then some (v % 2 ^ W.width f) else vmcs g)
  unfolding cpu_vmxwrite
  stored f g v vmcs = rw (ok.accepts f v) refl

  cpu_vmxread-same :
      (f : VmcsField) (v : ℕ) (vmcs : Vmcs)
      → cpu_vmxread (cpu_vmxwrite W f v vmcs) f ≡ v % 2 ^ W.width f
  unfolding cpu_vmxread
  cpu_vmxread-same f v vmcs =
      let here : cpu_vmxwrite W f v vmcs f ≡ some (v % 2 ^ W.width f) =
        stored f f v vmcs ∙ rw (==_same (W.encoding f)) refl in
      ap (λ (o : Option ℕ). elim o [ none ↦ 0x1337420 | some x ↦ x ]) here

  cpu_vmxread-other :
      (f g : VmcsField) (v : ℕ) (vmcs : Vmcs)
      → (W.encoding g /= W.encoding f) ≡ true
      → cpu_vmxread (cpu_vmxwrite W g v vmcs) f ≡ cpu_vmxread vmcs f
  unfolding cpu_vmxread
  cpu_vmxread-other f g v vmcs e =
      let kept : cpu_vmxwrite W g v vmcs f ≡ vmcs f =
        stored g f v vmcs ∙ rw (==_other (W.encoding g) (W.encoding f) e) refl in
      ap (λ (o : Option ℕ). elim o [ none ↦ 0x1337420 | some x ↦ x ]) kept

  pub cpu_vmxread-unwritten :
      (l : List (VmcsField × ℕ)) (f : VmcsField) (vmcs : Vmcs)
      → unwritten W f l ≡ true
      → cpu_vmxread (write_fields W l vmcs) f ≡ cpu_vmxread vmcs f
  unfolding write_fields
  cpu_vmxread-unwritten [] f vmcs e = refl
  cpu_vmxread-unwritten ((g, v) ∷ l) f vmcs e =
      let parts = (&&_iff (W.encoding g /= W.encoding f) (unwritten W f l)).0 e in
      cpu_vmxread-unwritten l f (cpu_vmxwrite W g v vmcs) parts.1
      ∙ cpu_vmxread-other f g v vmcs parts.0

  -- Each field of a list of different ones reads back as it was written, cut to its width.
  pub cpu_vmxread-write_fields :
      (l : List (VmcsField × ℕ)) (i : ℕ) (f : VmcsField) (v : ℕ) (vmcs : Vmcs)
      → distinct W l ≡ true
      → get_elem? l i ≡ some (f, v)
      → cpu_vmxread (write_fields W l vmcs) f ≡ v % 2 ^ W.width f
  unfolding write_fields
  cpu_vmxread-write_fields [] i f v vmcs d e = cc
  cpu_vmxread-write_fields ((g, w) ∷ l) zero f v vmcs d e =
      let same = some-injective (g, w) (f, v) e in
      let first : unwritten W g l ≡ true = ((&&_iff (unwritten W g l) (distinct W l)).0 d).0 in
      subst
        (λ (a : VmcsField × ℕ).
          cpu_vmxread (write_fields W l (cpu_vmxwrite W g w vmcs)) a.0 ≡ a.1 % 2 ^ W.width a.0)
        same (cpu_vmxread-unwritten l g (cpu_vmxwrite W g w vmcs) first ∙ cpu_vmxread-same g w vmcs)
  cpu_vmxread-write_fields ((g, w) ∷ l) (suc i) f v vmcs d e =
      cpu_vmxread-write_fields l i f v (cpu_vmxwrite W g w vmcs)
        ((&&_iff (unwritten W g l) (distinct W l)).0 d).1 e
