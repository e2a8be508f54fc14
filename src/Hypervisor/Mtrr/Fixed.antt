-- ===== src/Hypervisor/Mtrr/Fixed.antt =====
-- `ept_get_memory_type` over the fixed ranges, which cover the memory below 1 MB.
use mathlib.Core.Path.{subst}
use mathlib.Core.Option.{some-injective}
use mathlib.Core.List.{append_assoc}
use hypervi.Base.{
  ℕ, zero, suc, ◌+◌, ◌*◌, ◌/◌, ◌%◌, ◌^◌, ◌≤◌, ◌<◌, ◌≡◌, ◌⊎◌, inl, inr, refl, ap, ◌∙◌, true, some,
  List, [], ◌∷◌, ◌++◌, arith, get_elem?, truth, get, length,
}
use hypervi.Hypervisor.Mtrr.{
  MtrrData, MtrrLayout, MemoryTypes, FixedCall, fixed_calls, max_mtrrs, ept_init_mtrr, scan,
  ept_get_memory_type,
}
use hypervi.Hypervisor.Mtrr.Fill.{tiles}
use hypervi.Hypervisor.Mtrr.Init.{fixed_list, variable_list, enabled_ranges, ept_init_mtrr_lem}

le-mul : (s i j : ℕ) → i ≤ j → s * i ≤ s * j
le-mul s i j h = grind arith

eq-or-lt : (i j : ℕ) → i ≤ j → (i ≡ j) ⊎ (i < j)
eq-or-lt i j h = omega arith

-- The 4-KB page at `start` lies in tile j of a register that has tiles of `size` bytes at `base`.
pub record InTile (base size j start : ℕ) : Type 0 where
  pub below : base + size * j ≤ start
  pub above : start + 0x1000 ≤ base + size * j + size

module _ (T : MemoryTypes) (default : ℕ) where
  -- The tile that holds the page decides.
  scan-here :
      (i value base size start r : ℕ) (rest : List MtrrData)
      → base + size * i + size < 2 ^ 64
      → InTile base size i start
      → scan T default start 0x1000 (tiles 1 i value base size ++ rest) r
        ≡ value / 2 ^ (8 * i) % 2 ^ 8
  unfolding scan tiles
  scan-here i value base size start r rest fits t = ground (arith, t.below, t.above)

  -- A tile that ends before the page or starts behind it is passed over.
  scan-other :
      (i value base size start r : ℕ) (rest : List MtrrData)
      → base + size * i + size < 2 ^ 64
      → (start < base + size * i) ⊎ (base + size * i + size ≤ start)
      → scan T default start 0x1000 (tiles 1 i value base size ++ rest) r
        ≡ scan T default start 0x1000 rest r
  unfolding scan tiles
  scan-other i value base size start r rest fits o = ground arith

  tiles_step :
      (left i value base size : ℕ) (rest : List MtrrData)
      → tiles (suc left) i value base size ++ rest
        ≡ tiles 1 i value base size ++ (tiles left (suc i) value base size ++ rest)
  unfolding tiles
  tiles_step left i value base size rest = refl

  scan-tiles :
      (left i j value base size start r : ℕ) (rest : List MtrrData)
      → base + size * (i + left) < 2 ^ 64
      → i ≤ j
      → j < i + left
      → InTile base size j start
      → scan T default start 0x1000 (tiles left i value base size ++ rest) r
        ≡ value / 2 ^ (8 * j) % 2 ^ 8
  scan-tiles zero i j value base size start r rest fits lo hi t = absurd (omega arith)
  scan-tiles (suc left) i j value base size start r rest fits lo hi t =
      rw (tiles_step left i value base size rest) (elim (eq-or-lt i j lo) [
        | inl e ↦
            scan-here i value base size start r (tiles left (suc i) value base size ++ rest)
              (omega arith) (rw e t)
            ∙ ap (λ k. value / 2 ^ (8 * k) % 2 ^ 8) e
        | inr more ↦
            scan-other i value base size start r (tiles left (suc i) value base size ++ rest)
              (omega arith) (inr (omega (arith, le-mul size (suc i) j more, t.below)))
            ∙ scan-tiles left (suc i) j value base size start r rest (omega arith) more
                (omega arith) t
      ])

  scan_past :
      (left i value base size start r : ℕ) (rest : List MtrrData)
      → base + size * (i + left) < 2 ^ 64
      → base + size * (i + left) ≤ start
      → scan T default start 0x1000 (tiles left i value base size ++ rest) r
        ≡ scan T default start 0x1000 rest r
  unfolding tiles
  scan_past zero i value base size start r rest fits past = refl
  scan_past (suc left) i value base size start r rest fits past =
      scan-other i value base size start r (tiles left (suc i) value base size ++ rest)
        (omega arith) (inr (omega arith))
      ∙ scan_past left (suc i) value base size start r rest (omega arith) (omega arith)

-- Registers in the order of their addresses, from `low` on, with no overlap.
abbrev IsOrdered : ℕ → List FixedCall → Type 0
IsOrdered low [] = Unit
IsOrdered low (c ∷ calls) =
    (low ≤ c.base) × (c.base + c.size * 8 < 2 ^ 64) × IsOrdered (c.base + c.size * 8) calls

ordered_from :
    (low k : ℕ) (calls : List FixedCall) {c : FixedCall}
    → IsOrdered low calls
    → get_elem? calls k ≡ some c
    → low ≤ c.base
ordered_from low k [] o e = cc
ordered_from low zero (d ∷ calls) o e = ground (arith, o.0)
ordered_from low (suc k) (d ∷ calls) o e =
    omega (arith, o.0, ordered_from (d.base + d.size * 8) k calls o.2 e)

module _ (T : MemoryTypes) (L : MtrrLayout) (read_msr bsf : ℕ → ℕ) where
  scan-fixed_list :
      (default : ℕ) (calls : List FixedCall) (low k j start r : ℕ) (rest : List MtrrData)
      {c : FixedCall}
      → IsOrdered low calls
      → get_elem? calls k ≡ some c
      → j < 8
      → InTile c.base c.size j start
      → scan T default start 0x1000 (fixed_list L read_msr bsf calls ++ rest) r
        ≡ read_msr c.register / 2 ^ (8 * j) % 2 ^ 8
  unfolding fixed_list
  scan-fixed_list default [] low k j start r rest o e h t = cc
  scan-fixed_list default (d ∷ calls) low zero j start r rest {c} o e h t =
      subst
        (λ (c : FixedCall).
          InTile c.base c.size j start
          → scan T default start 0x1000 (fixed_list L read_msr bsf (d ∷ calls) ++ rest) r
            ≡ read_msr c.register / 2 ^ (8 * j) % 2 ^ 8)
        (some-injective d c e) here t
    where
      here :
          InTile d.base d.size j start
          → scan T default start 0x1000 (fixed_list L read_msr bsf (d ∷ calls) ++ rest) r
            ≡ read_msr d.register / 2 ^ (8 * j) % 2 ^ 8
      here t =
          rw
            (append_assoc (tiles 8 0 (read_msr d.register) d.base d.size)
              (fixed_list L read_msr bsf calls) rest)
            (scan-tiles T default 8 0 j (read_msr d.register) d.base d.size start r
              (fixed_list L read_msr bsf calls ++ rest) o.1 (omega arith) h t)
  scan-fixed_list default (d ∷ calls) low (suc k) j start r rest {c} o e h t =
      rw
        (append_assoc (tiles 8 0 (read_msr d.register) d.base d.size)
          (fixed_list L read_msr bsf calls) rest)
        (scan_past T default 8 0 (read_msr d.register) d.base d.size start r
            (fixed_list L read_msr bsf calls ++ rest) o.1
            (omega (arith, ordered_from (d.base + d.size * 8) k calls o.2 e, t.below))
          ∙ scan-fixed_list default calls (d.base + d.size * 8) k j start r rest o.2 e h t)

  fixed_calls-IsOrdered : IsOrdered 0 (fixed_calls L read_msr bsf)
  unfolding fixed_calls
  fixed_calls-IsOrdered = omega arith

  enabled_ranges-on :
      truth (get L.fixed_range_supported (read_msr L.capabilities)) ≡ true
      → truth (get L.fixed_range_mtrr_enable (read_msr L.def_type)) ≡ true
      → enabled_ranges L read_msr bsf
        ≡ fixed_list L read_msr bsf (fixed_calls L read_msr bsf)
          ++ variable_list L read_msr bsf (get L.variable_range_count (read_msr L.capabilities)) 0
  unfolding enabled_ranges
  enabled_ranges-on s e = rw (s, e)

  listed_type :
      (k j start : ℕ) (c : FixedCall)
      → truth (get L.fixed_range_supported (read_msr L.capabilities)) ≡ true
      → truth (get L.fixed_range_mtrr_enable (read_msr L.def_type)) ≡ true
      → length (enabled_ranges L read_msr bsf) < max_mtrrs
      → get_elem? (fixed_calls L read_msr bsf) k ≡ some c
      → j < 8
      → InTile c.base c.size j start
      → (out : List MtrrData × ℕ) × (ept_init_mtrr L read_msr bsf ≡ some out)
        × (ept_get_memory_type T out.0 out.1 start 0x1000
            ≡ read_msr c.register / 2 ^ (8 * j) % 2 ^ 8)
  unfolding ept_get_memory_type
  listed_type k j start c s e fits at h t = (
    _,
    ept_init_mtrr_lem L read_msr bsf fits,
    rw
        (
          enabled_ranges-on s e,
          append_assoc (fixed_list L read_msr bsf (fixed_calls L read_msr bsf)) (
              variable_list L read_msr bsf (get L.variable_range_count (read_msr L.capabilities))
                0),
        )
        (scan-fixed_list _ (fixed_calls L read_msr bsf) 0 k j start T.invalid _
          fixed_calls-IsOrdered at h t),
  )

  -- The fixed-range registers of the manual: each covers eight tiles of one size from its base on.
  pub data FixedRange : (register base size : ℕ) → Type 0 where
    fix64k_00000 : FixedRange L.fix64k_00000 0 0x10000
    fix16k_80000 : FixedRange L.fix16k_80000 0x80000 0x4000
    fix16k_a0000 : FixedRange L.fix16k_a0000 0xa0000 0x4000
    fix4k_c0000 : FixedRange L.fix4k_c0000 0xc0000 0x1000
    fix4k_c8000 : FixedRange L.fix4k_c8000 0xc8000 0x1000
    fix4k_d0000 : FixedRange L.fix4k_d0000 0xd0000 0x1000
    fix4k_d8000 : FixedRange L.fix4k_d8000 0xd8000 0x1000
    fix4k_e0000 : FixedRange L.fix4k_e0000 0xe0000 0x1000
    fix4k_e8000 : FixedRange L.fix4k_e8000 0xe8000 0x1000
    fix4k_f0000 : FixedRange L.fix4k_f0000 0xf0000 0x1000
    fix4k_f8000 : FixedRange L.fix4k_f8000 0xf8000 0x1000

  -- Each of them is read, with its base and size.
  listed :
      {register base size : ℕ}
      → FixedRange register base size
      → (k : ℕ) × (get_elem? (fixed_calls L read_msr bsf) k
          ≡ some (record { register = register; base = base; size = size }))
  unfolding fixed_calls
  listed fix64k_00000 = (0, refl)
  listed fix16k_80000 = (1, refl)
  listed fix16k_a0000 = (2, refl)
  listed fix4k_c0000 = (3, refl)
  listed fix4k_c8000 = (4, refl)
  listed fix4k_d0000 = (5, refl)
  listed fix4k_d8000 = (6, refl)
  listed fix4k_e0000 = (7, refl)
  listed fix4k_e8000 = (8, refl)
  listed fix4k_f0000 = (9, refl)
  listed fix4k_f8000 = (10, refl)

  -- With the fixed ranges supported and enabled, and an element of the array to spare,
  -- `ept_init_mtrr` succeeds, and every 4-KB page in tile j of one of the eleven fixed-range
  -- registers then has the type in byte j of that register, whatever the variable ranges say.
  pub fixed_type :
      (register base size j start : ℕ)
      → FixedRange register base size
      → truth (get L.fixed_range_supported (read_msr L.capabilities)) ≡ true
      → truth (get L.fixed_range_mtrr_enable (read_msr L.def_type)) ≡ true
      → length (enabled_ranges L read_msr bsf) < max_mtrrs
      → j < 8
      → InTile base size j start
      → (out : List MtrrData × ℕ) × (ept_init_mtrr L read_msr bsf ≡ some out)
        × (ept_get_memory_type T out.0 out.1 start 0x1000 ≡ read_msr register / 2 ^ (8 * j) % 2 ^ 8)
  fixed_type register base size j start range s e fits h t =
      let (k, at) = listed range in
      listed_type k j start (record { register = register; base = base; size = size }) s e fits at h
        t
