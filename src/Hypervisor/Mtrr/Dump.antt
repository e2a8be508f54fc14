-- ===== src/Hypervisor/Mtrr/Dump.antt =====
-- `ept_dump_mtrrs` of hypervisor/ept.cc, which logs the ranges up to the first element that is
-- not enabled.
use hypervi.Base.{
  ℕ, zero, suc, ◌+◌, ◌-◌, ◌*◌, ◌<◌, ◌≡◌, refl, ap, Bool, true, false, ◌&&◌, Option, none, some,
  List, [], ◌∷◌, ◌++◌, arith, length, get_or, replicate, &&_iff, if◌then◌else◌, truth, u32, get,
  ◌>>=◌,
}
use hypervi.Hypervisor.Mtrr.{
  MtrrData, MtrrLayout, max_mtrrs, cleared, FixedCall, fixed_calls, variable_mtrr, ept_init_mtrr,
}
use hypervi.Hypervisor.Mtrr.Fill.{tiles}
use hypervi.Hypervisor.Mtrr.Init.{fixed_list, variable_list, enabled_ranges, ept_init_mtrr_lem}

-- The lines that `ept_dump_mtrrs` gives to `corelog_hex`.
pub data MtrrLine : Type 0 where
  dumping : ℕ → MtrrLine
  range_start : ℕ → MtrrLine
  range_end : ℕ → MtrrLine

-- The loop, from some element on; `none` reads behind the array.
unfoldable pub dump_from : List MtrrData → Option (List MtrrLine)
dump_from [] = none
dump_from (mtrr ∷ rest) =
    let more = dump_from rest in
    if mtrr.enabled
    then (do lines ← more; some (range_start mtrr.range_begin ∷ range_end mtrr.range_end ∷ lines))
    else some []

unfoldable pub ept_dump_mtrrs : List MtrrData → Option (List MtrrLine)
unfolding dump_from
ept_dump_mtrrs [] = none
ept_dump_mtrrs (mtrr ∷ rest) = do
  lines ← dump_from (mtrr ∷ rest)
  some (dumping mtrr.range_begin ∷ lines)

-- Two lines for each range.
unfoldable pub range_lines : List MtrrData → List MtrrLine
range_lines [] = []
range_lines (m ∷ ms) = range_start m.range_begin ∷ range_end m.range_end ∷ range_lines ms

unfoldable all_enabled : List MtrrData → Bool
all_enabled [] = true
all_enabled (m ∷ ms) = m.enabled && all_enabled ms

all_enabled-append :
    (xs ys : List MtrrData)
    → all_enabled xs ≡ true
    → all_enabled ys ≡ true
    → all_enabled (xs ++ ys) ≡ true
unfolding all_enabled
all_enabled-append [] ys h k = k
all_enabled-append (x ∷ xs) ys h k =
    let e = (&&_iff x.enabled (all_enabled xs)).0 h in
    (&&_iff x.enabled (all_enabled (xs ++ ys))).1 (e.0, all_enabled-append xs ys e.1 k)

all_enabled-if :
    (b : Bool) (xs ys : List MtrrData)
    → all_enabled xs ≡ true
    → all_enabled ys ≡ true
    → all_enabled (if b then xs else ys) ≡ true
all_enabled-if true xs ys h k = h
all_enabled-if false xs ys h k = k

tiles_enabled : (left i value base size : ℕ) → all_enabled (tiles left i value base size) ≡ true
unfolding all_enabled tiles
tiles_enabled zero i value base size = refl
tiles_enabled (suc left) i value base size = tiles_enabled left (suc i) value base size

-- The loop stops at the first cleared element.
dump_from-append :
    (ms : List MtrrData) (room : ℕ)
    → all_enabled ms ≡ true
    → dump_from (ms ++ replicate (suc room) cleared) ≡ some (range_lines ms)
unfolding all_enabled dump_from range_lines
dump_from-append [] room h = refl
dump_from-append (m ∷ ms) room h =
    let e = (&&_iff m.enabled (all_enabled ms)).0 h in rw (e.0, dump_from-append ms room e.1)

-- The begin of the first range, or of a cleared element.
unfoldable pub first_begin : List MtrrData → ℕ
first_begin ms = (get_or ms 0 cleared).range_begin

ept_dump_mtrrs-append :
    (ms : List MtrrData) (room : ℕ)
    → all_enabled ms ≡ true
    → ept_dump_mtrrs (ms ++ replicate (suc room) cleared)
      ≡ some (dumping (first_begin ms) ∷ range_lines ms)
unfolding ept_dump_mtrrs first_begin dump_from range_lines
ept_dump_mtrrs-append [] room h = refl
ept_dump_mtrrs-append (m ∷ ms) room h =
    ap (λ r. r >>= λ lines. some (dumping m.range_begin ∷ lines)) (dump_from-append (m ∷ ms) room h)

module _ (L : MtrrLayout) (read_msr bsf : ℕ → ℕ) where
  fixed_enabled : (calls : List FixedCall) → all_enabled (fixed_list L read_msr bsf calls) ≡ true
  unfolding all_enabled fixed_list
  fixed_enabled [] = refl
  fixed_enabled (c ∷ calls) =
      all_enabled-append (tiles 8 0 (read_msr c.register) c.base c.size) _
        (tiles_enabled 8 0 (read_msr c.register) c.base c.size) (fixed_enabled calls)

  variable_enabled : (left i : ℕ) → all_enabled (variable_list L read_msr bsf left i) ≡ true
  unfolding all_enabled variable_list variable_mtrr
  variable_enabled zero i = refl
  variable_enabled (suc left) i =
      let h = variable_enabled left (suc i) in
      all_enabled-if (truth (get L.valid (read_msr (u32 (L.physmask0 + i * 2))))) _ _ h h

  ranges_enabled : all_enabled (enabled_ranges L read_msr bsf) ≡ true
  unfolding enabled_ranges
  ranges_enabled =
      let v = variable_enabled (get L.variable_range_count (read_msr L.capabilities)) 0 in
      all_enabled-if _ _ _ (all_enabled-append _ _ (fixed_enabled (fixed_calls L read_msr bsf)) v) v

  -- With an element to spare, the dump of what `ept_init_mtrr` stored ends, and logs the first
  -- element's begin and then the begin and the end of each enabled range, in order.
  pub ept_dump_mtrrs-ept_init_mtrr :
      length (enabled_ranges L read_msr bsf) < max_mtrrs
      → (ept_init_mtrr L read_msr bsf >>= λ out. ept_dump_mtrrs out.0)
        ≡ some (
            dumping (first_begin (enabled_ranges L read_msr bsf))
            ∷ range_lines (enabled_ranges L read_msr bsf))
  ept_dump_mtrrs-ept_init_mtrr h =
      let ms = enabled_ranges L read_msr bsf in
      let spare = max_mtrrs - length ms - 1 in
      let left : max_mtrrs - length ms ≡ suc spare = omega arith in
      rw (ept_init_mtrr_lem L read_msr bsf h, left) (ept_dump_mtrrs-append ms spare ranges_enabled)
