-- ===== src/Hypervisor/VmxCheck/Segments.antt =====
-- What `check_segment_access_rights` demands of each segment.
use hypervi.Base.{
  ℕ, ◌≡◌, ◌≢◌, ◌↔◌, ◌⊎◌, ◌≤◌, ◌*◌, ◌/◌, ◌%◌, ◌^◌, bit_and, bit_and-low, bit_and-middle, Bool, true,
  false, arith, get, u32, refl,
}
use hypervi.Hypervisor.Vmcs.{VmcsField, guest_cr0, guest_ss_access_rights, guest_cs_access_rights}
use hypervi.Hypervisor.VmxCheck.Layout.{SegmentLayout}
use hypervi.Hypervisor.VmxCheck.{
  SegmentType, cs, ss, ds, es, fs, gs, granularity_check, check_segment_access_rights, type_check,
  dpl_check,
}

-- The granularity bit against the limit: it is off where the low 12 bits are 0, and on where
-- bits 20 to 31 are not.
pub record Granularity (L : SegmentLayout) (ar limit : ℕ) : Type 0 where
  pub off : limit % 2 ^ 12 ≡ 0 → get L.granularity ar ≡ 0
  pub on : limit / 2 ^ 20 % 2 ^ 12 ≢ 0 → get L.granularity ar ≢ 0

-- The masks of the check.
pub low_mask : (x : ℕ) → bit_and x 0xfff ≡ x % 2 ^ 12
low_mask x = bit_and-low 12 x

pub high_mask : (x : ℕ) → bit_and x 0xfff00000 ≡ x / 2 ^ 20 % 2 ^ 12 * 2 ^ 20
high_mask x = bit_and-middle 20 12 x

pub one_mask : (i x : ℕ) → bit_and x (1 * 2 ^ i) ≡ x / 2 ^ i % 2 * 2 ^ i
one_mask i x = bit_and-middle i 1 x

pub granularity_lem :
    (L : SegmentLayout) (ar limit : ℕ)
    → (granularity_check L ar limit ≡ true) ↔ Granularity L ar limit
unfolding granularity_check
granularity_lem L ar limit = ground (arith, low_mask limit, high_mask limit)

module _ (L : SegmentLayout) (read : VmcsField → ℕ) where
  -- A code segment: execute-only or execute-read, accessed and not conforming, at the privilege
  -- level of the stack.
  pub record CodeSegment (ar limit : ℕ) (long : Type 0) : Type 0 where
    pub type :
        (get L.type ar ≡ L.code_execute_only_accessed)
        ⊎ (get L.type ar ≡ L.code_execute_read_accessed)
    pub descriptor_type : get L.descriptor_type ar ≡ 1
    pub privilege :
        get L.descriptor_privilege_level ar
        ≡ get L.descriptor_privilege_level (u32 (read guest_ss_access_rights))
    pub present : get L.present ar ≢ 0
    pub reserved1 : get L.reserved1 ar ≡ 0
    pub reserved2 : get L.reserved2 ar ≡ 0
    pub size : long → get L.long_mode ar ≢ 0 → get L.default_big ar ≡ 0
    pub granularity : Granularity L ar limit

  -- The check of CS accepts exactly the code segments, whether or not the guest is unrestricted.
  pub cs_check :
      (ar limit selector : ℕ) (m u : Bool)
      → (check_segment_access_rights L read cs ar limit selector m u ≡ true)
        ↔ CodeSegment ar limit (m ≡ true)
  unfolding check_segment_access_rights type_check dpl_check
  cs_check ar limit selector m u = ground (arith, granularity_lem L ar limit)

  -- A stack segment that is loaded.
  pub record StackSegment (ar limit : ℕ) : Type 0 where
    pub type :
        (get L.type ar ≡ L.data_read_write_accessed)
        ⊎ (get L.type ar ≡ L.data_read_write_expand_down_accessed)
    pub descriptor_type : get L.descriptor_type ar ≡ 1
    pub present : get L.present ar ≢ 0
    pub reserved1 : get L.reserved1 ar ≡ 0
    pub reserved2 : get L.reserved2 ar ≡ 0
    pub granularity : Granularity L ar limit

  -- The privilege level of the stack, which is checked of an unusable one, too.
  pub record StackPrivilege (ar selector : ℕ) (restricted : Type 0) : Type 0 where
    pub requested :
        restricted → get L.descriptor_privilege_level ar ≡ get L.request_privilege_level selector
    pub real_mode :
        get L.type (u32 (read guest_cs_access_rights)) ≡ L.data_read_write_accessed
        → get L.descriptor_privilege_level ar ≡ 0
    pub protected :
        get L.protection_enable (read guest_cr0) ≢ 0 → get L.descriptor_privilege_level ar ≡ 0

  -- The check of SS accepts exactly the stack segments with that privilege level, and the
  -- unusable ones with it.
  pub ss_check :
      (ar limit selector : ℕ) (m u : Bool)
      → (check_segment_access_rights L read ss ar limit selector m u ≡ true)
        ↔ ((get L.unusable ar ≡ 0 → StackSegment ar limit) × StackPrivilege ar selector (u ≡ false))
  unfolding check_segment_access_rights type_check dpl_check
  ss_check ar limit selector m u = ground (arith, granularity_lem L ar limit)

  -- A data segment that is loaded: accessed, readable if it is code.
  pub record DataSegment (ar limit selector : ℕ) (restricted : Type 0) : Type 0 where
    pub accessed : get L.type ar % 2 ≡ 1
    pub readable : get L.type ar / 8 % 2 ≡ 1 → get L.type ar / 2 % 2 ≡ 1
    pub descriptor_type : get L.descriptor_type ar ≡ 1
    pub privilege :
        restricted
        → get L.type ar ≢ 0
        → get L.request_privilege_level selector ≤ get L.descriptor_privilege_level ar
    pub present : get L.present ar ≢ 0
    pub reserved1 : get L.reserved1 ar ≡ 0
    pub reserved2 : get L.reserved2 ar ≡ 0
    pub granularity : Granularity L ar limit

  -- The check of DS, ES, FS and GS accepts exactly the data segments and the unusable ones.
  pub data_check :
      (seg : SegmentType) (ar limit selector : ℕ) (m u : Bool)
      → seg ≢ cs
      → seg ≢ ss
      → (check_segment_access_rights L read seg ar limit selector m u ≡ true)
        ↔ (get L.unusable ar ≡ 0 → DataSegment ar limit selector (u ≡ false))
  unfolding check_segment_access_rights type_check dpl_check
  data_check cs ar limit selector m u hc hs = absurd (hc refl)
  data_check ss ar limit selector m u hc hs = absurd (hs refl)
  data_check ds ar limit selector m u hc hs = ground (
    arith,
    granularity_lem L ar limit,
    one_mask 0 (get L.type ar),
    one_mask 1 (get L.type ar),
    one_mask 3 (get L.type ar),
  )
  data_check es ar limit selector m u hc hs = ground (
    arith,
    granularity_lem L ar limit,
    one_mask 0 (get L.type ar),
    one_mask 1 (get L.type ar),
    one_mask 3 (get L.type ar),
  )
  data_check fs ar limit selector m u hc hs = ground (
    arith,
    granularity_lem L ar limit,
    one_mask 0 (get L.type ar),
    one_mask 1 (get L.type ar),
    one_mask 3 (get L.type ar),
  )
  data_check gs ar limit selector m u hc hs = ground (
    arith,
    granularity_lem L ar limit,
    one_mask 0 (get L.type ar),
    one_mask 1 (get L.type ar),
    one_mask 3 (get L.type ar),
  )

  -- A weaker restriction asks for less.
  pub DataSegment-map :
      {ar limit selector : ℕ} {r r' : Type 0}
      → (r' → r)
      → DataSegment ar limit selector r
      → DataSegment ar limit selector r'
  DataSegment-map f h = record {
    accessed = h.accessed;
    readable = h.readable;
    descriptor_type = h.descriptor_type;
    privilege = λ e. h.privilege (f e);
    present = h.present;
    reserved1 = h.reserved1;
    reserved2 = h.reserved2;
    granularity = h.granularity;
  }

  pub StackPrivilege-map :
      {ar selector : ℕ} {r r' : Type 0}
      → (r' → r)
      → StackPrivilege ar selector r
      → StackPrivilege ar selector r'
  StackPrivilege-map f h = record {
    requested = λ e. h.requested (f e);
    real_mode = h.real_mode;
    protected = h.protected;
  }

  pub CodeSegment-map :
      {ar limit : ℕ} {r r' : Type 0} → (r' → r) → CodeSegment ar limit r → CodeSegment ar limit r'
  CodeSegment-map f h = record {
    type = h.type;
    descriptor_type = h.descriptor_type;
    privilege = h.privilege;
    present = h.present;
    reserved1 = h.reserved1;
    reserved2 = h.reserved2;
    size = λ e. h.size (f e);
    granularity = h.granularity;
  }
