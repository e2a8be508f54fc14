-- ===== src/Hypervisor/VmxCheck.antt =====
-- The checks on the guest's state before VM entry: hypervisor/vmxcheck.cc. A failed check
-- returns false; what it logs is left out.
pub mod Layout
pub mod Guest
pub mod Segments
pub mod State
pub mod Entry
use hypervi.Base.{
  ℕ, ◌<◌, Bool, true, false, not, ◌&&◌, ◌||◌, leb, ◌==◌, ◌/=◌, if◌then◌else◌, implies, truth, u16,
  u32, ◌<<◌, get, bit_and,
}
use hypervi.Hypervisor.VmxCheck.Layout.{SegmentLayout}
use hypervi.Hypervisor.Vmcs.{VmcsField, guest_cr0, guest_ss_access_rights, guest_cs_access_rights}

pub data SegmentType : Type 0 where
  cs ss ds es fs gs : SegmentType

-- `is_flag_set(thing, flag)`
abbrev pub is_flag_set : ℕ → ℕ → Bool
is_flag_set thing flag = truth (bit_and thing flag)

abbrev pub is_cs : SegmentType → Bool
is_cs cs = true
is_cs ss = false
is_cs ds = false
is_cs es = false
is_cs fs = false
is_cs gs = false

module _ (L : SegmentLayout) where
  -- The first switch, on the segment's type.
  abbrev data_type_check : (ar : ℕ) → Bool
  data_type_check ar = implies (get L.unusable ar == 0) (
      is_flag_set (get L.type ar) 1
      && implies (is_flag_set (get L.type ar) 8) (is_flag_set (get L.type ar) 2))

  unfoldable pub type_check : SegmentType → (ar : ℕ) → (unrestricted_guest : Bool) → Bool
  type_check cs ar unrestricted_guest =
      if not unrestricted_guest
      then (get L.type ar == L.code_execute_only_accessed
          || get L.type ar == L.code_execute_read_accessed
          || get L.type ar == L.code_execute_only_conforming_accessed
          || get L.type ar == L.code_execute_read_conforming_accessed)
      else (get L.type ar == L.data_read_write_accessed
          || get L.type ar == L.code_execute_only_accessed
          || get L.type ar == L.code_execute_read_accessed
          || get L.type ar == L.code_execute_only_conforming_accessed
          || get L.type ar == L.code_execute_read_conforming_accessed)
  type_check ss ar unrestricted_guest = implies (get L.unusable ar == 0) (
      get L.type ar == L.data_read_write_accessed
      || get L.type ar == L.data_read_write_expand_down_accessed)
  type_check ds ar unrestricted_guest = data_type_check ar
  type_check es ar unrestricted_guest = data_type_check ar
  type_check fs ar unrestricted_guest = data_type_check ar
  type_check gs ar unrestricted_guest = data_type_check ar

  -- The second switch, on the privilege level.
  abbrev data_dpl_check : (ar selector : ℕ) → (unrestricted_guest : Bool) → Bool
  data_dpl_check ar selector unrestricted_guest =
      implies (not unrestricted_guest && get L.unusable ar == 0 && truth (get L.type ar << 11))
        (leb (get L.request_privilege_level selector) (get L.descriptor_privilege_level ar))

  unfoldable pub dpl_check :
      SegmentType → (ar ar_ss ar_cs cr0 selector : ℕ) → (unrestricted_guest : Bool) → Bool
  dpl_check cs ar ar_ss ar_cs cr0 selector unrestricted_guest =
      (get L.type ar == L.code_execute_only_accessed
        || get L.type ar == L.code_execute_read_accessed)
      && get L.descriptor_privilege_level ar == get L.descriptor_privilege_level ar_ss
  dpl_check ss ar ar_ss ar_cs cr0 selector unrestricted_guest =
      implies (not unrestricted_guest)
        (get L.descriptor_privilege_level ar == get L.request_privilege_level selector)
      && implies
          (get L.type ar_cs == L.data_read_write_accessed || truth (get L.protection_enable cr0))
          (get L.descriptor_privilege_level ar == 0)
  dpl_check ds ar ar_ss ar_cs cr0 selector u = data_dpl_check ar selector u
  dpl_check es ar ar_ss ar_cs cr0 selector u = data_dpl_check ar selector u
  dpl_check fs ar ar_ss ar_cs cr0 selector u = data_dpl_check ar selector u
  dpl_check gs ar ar_ss ar_cs cr0 selector u = data_dpl_check ar selector u

  -- The granularity bit against the limit.
  unfoldable pub granularity_check : (ar limit : ℕ) → Bool
  granularity_check ar limit =
      implies (not (is_flag_set limit 0xfff)) (get L.granularity ar == 0)
      && implies (is_flag_set limit 0xfff00000) (truth (get L.granularity ar))

  unfoldable pub check_segment_access_rights :
      (read : VmcsField → ℕ)
      → SegmentType
      → (access_rights limit selector : ℕ) → (ia32_mode_guest unrestricted_guest : Bool) → Bool
  unfolding type_check dpl_check granularity_check
  check_segment_access_rights read seg ar limit selector ia32_mode_guest unrestricted_guest =
      let ar_ss = u32 (read guest_ss_access_rights) in
      let ar_cs = u32 (read guest_cs_access_rights) in
      let usable = is_cs seg || get L.unusable ar == 0 in
      type_check seg ar unrestricted_guest
      && implies usable (get L.descriptor_type ar == 1)
      && dpl_check seg ar ar_ss ar_cs (read guest_cr0) selector unrestricted_guest
      && implies usable (truth (get L.present ar))
      && implies usable (get L.reserved1 ar == 0 && get L.reserved2 ar == 0)
      && implies (is_cs seg)
          (implies (ia32_mode_guest && truth (get L.long_mode ar)) (get L.default_big ar == 0))
      && implies usable (granularity_check ar limit)
