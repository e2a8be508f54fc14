-- ===== src/Hypervisor/Mtrr/Init.antt =====
-- `ept_init_mtrr` stores the enabled ranges in the order of reading.
use mathlib.Core.Path.{subst}
use hypervi.Base.{
  ℕ, zero, suc, ◌+◌, ◌-◌, ◌*◌, ◌≤◌, ◌<◌, ◌≡◌, refl, ap, ◌∙◌, Bool, true, false, ◌&&◌, Option, none,
  some, List, [], ◌∷◌, ◌++◌, arith, length, length-append, set, get_or, replicate, if◌then◌else◌,
  truth, u8, u32, get, ◌>>=◌,
}
use hypervi.Hypervisor.Mtrr.{
  MtrrData, MtrrLayout, Mtrrs, max_mtrrs, cleared, store_mtrr, ept_read_fixed_mtrrs, FixedCall,
  fixed_calls, run_calls, variable_mtrr, variable_round, variable_ranges, end_mark, ept_init_mtrr,
}
use hypervi.Hypervisor.Mtrr.Fill.{
  tiles, IsFilled, Adds, Adds-bind, Adds-nothing, Adds-store, read_fixed_loop-Adds,
}

ept_read_fixed_mtrrs-Adds :
    {total : ℕ} {ms : List MtrrData} {s : Mtrrs} (value base size : ℕ)
    → 8 ≤ total
    → IsFilled total ms s
    → Adds (total - 8) ms (tiles 8 0 value base size) (ept_read_fixed_mtrrs value base size s)
unfolding ept_read_fixed_mtrrs
ept_read_fixed_mtrrs-Adds value base size h f =
    read_fixed_loop-Adds 8 0 value base size (omega arith) f

get_or_end :
    (ms : List MtrrData) (c d : MtrrData) (rest : List MtrrData)
    → get_or (ms ++ c ∷ rest) (length ms) d ≡ c
get_or_end [] c d rest = refl
get_or_end (x ∷ ms) c d rest = get_or_end ms c d rest

set_same :
    (ms : List MtrrData) (c : MtrrData) (rest : List MtrrData)
    → set (ms ++ c ∷ rest) (length ms) c ≡ ms ++ c ∷ rest
set_same [] c rest = refl
set_same (x ∷ ms) c rest = ap (λ l. x ∷ l) (set_same ms c rest)

-- The end mark is written into the first cleared element, and changes nothing.
end_mark-room :
    {room : ℕ} {ms : List MtrrData} {s : Mtrrs}
    → IsFilled (suc room) ms s
    → end_mark s ≡ some (ms ++ replicate (suc room) cleared)
unfolding end_mark
end_mark-room {room} {ms} f =
    rw (f.index, f.entries, get_or_end ms cleared cleared (replicate room cleared))
      (rw (set_same ms cleared (replicate room cleared)) (ground (arith, f.total)))

-- With no element left the end mark is written behind the array.
end_mark-no_room : {ms : List MtrrData} {s : Mtrrs} → IsFilled 0 ms s → end_mark s ≡ none
unfolding end_mark
end_mark-no_room f = ground (arith, f.total, f.index)

length-tiles : (left i value base size : ℕ) → length (tiles left i value base size) ≡ left
unfolding tiles
length-tiles zero i value base size = refl
length-tiles (suc left) i value base size = ap suc (length-tiles left (suc i) value base size)

-- One round of the loop over the variable ranges, and what follows it.
variable_step :
    (valid : Bool) (m : MtrrData) (rest : List MtrrData) (k : Mtrrs → Option Mtrrs) {room total : ℕ}
    {ms : List MtrrData} {s : Mtrrs}
    → total ≡ length (if valid then m ∷ rest else rest) + room
    → IsFilled total ms s
    → ((left : ℕ) (ms' : List MtrrData) (s' : Mtrrs)
        → left ≡ length rest + room
        → IsFilled left ms' s'
        → Adds room ms' rest (k s'))
    → Adds room ms (if valid then m ∷ rest else rest) (
        (if valid
          then (do
            entries ← store_mtrr s.index m s.entries
            some (record s { entries = entries; index = s.index + 1 }))
          else some s)
        >>= k)
variable_step true m rest k {room} {total} {ms} {s} e f next =
    let e' : total ≡ suc (length rest + room) = omega arith in
    Adds-bind k (Adds-store m s.offset (subst (λ n. IsFilled n ms s) e' f))
      (λ s' f'. next _ _ s' refl f')
variable_step false m rest k e f next = next _ _ _ e f

module _ (L : MtrrLayout) (read_msr bsf : ℕ → ℕ) where
  -- The ranges of some fixed-range registers.
  unfoldable pub fixed_list : List FixedCall → List MtrrData
  fixed_list [] = []
  fixed_list (c ∷ calls) = tiles 8 0 (read_msr c.register) c.base c.size ++ fixed_list calls

  -- The valid ones of `left` variable ranges, from number i on.
  unfoldable pub variable_list : (left i : ℕ) → List MtrrData
  variable_list zero i = []
  variable_list (suc left) i =
      let rest = variable_list left (suc i) in
      if truth (get L.valid (read_msr (u32 (L.physmask0 + i * 2))))
      then variable_mtrr L read_msr bsf (read_msr (u32 (L.physbase0 + i * 2)))
          (read_msr (u32 (L.physmask0 + i * 2)))
        ∷ rest
      else rest

  length-fixed_list : (calls : List FixedCall) → length (fixed_list calls) ≡ 8 * length calls
  unfolding fixed_list
  length-fixed_list [] = refl
  length-fixed_list (c ∷ calls) = omega (
    arith,
    length-append (tiles 8 0 (read_msr c.register) c.base c.size) (fixed_list calls),
    length-tiles 8 0 (read_msr c.register) c.base c.size,
    length-fixed_list calls,
  )

  fixed_calls-length : length (fixed_calls L read_msr bsf) ≡ 11
  unfolding fixed_calls
  fixed_calls-length = refl

  run_calls-Adds :
      (calls : List FixedCall) {room total : ℕ} {ms : List MtrrData} {s : Mtrrs}
      → total ≡ 8 * length calls + room
      → IsFilled total ms s
      → Adds room ms (fixed_list calls) (run_calls L read_msr bsf calls s)
  unfolding run_calls fixed_list
  run_calls-Adds [] {room} {total} {ms} {s} e f =
      Adds-nothing (subst (λ n. IsFilled n ms s) (omega arith) f)
  run_calls-Adds (c ∷ calls) e f =
      Adds-bind (run_calls L read_msr bsf calls)
        (ept_read_fixed_mtrrs-Adds (read_msr c.register) c.base c.size (omega arith) f)
        (λ s' f'. run_calls-Adds calls (omega arith) f')

  variable_ranges-Adds :
      (left i : ℕ) {room total : ℕ} {ms : List MtrrData} {s : Mtrrs}
      → total ≡ length (variable_list left i) + room
      → IsFilled total ms s
      → Adds room ms (variable_list left i) (variable_ranges L read_msr bsf left i s)
  unfolding variable_ranges variable_list variable_round
  variable_ranges-Adds zero i {room} {total} {ms} {s} e f =
      Adds-nothing (subst (λ n. IsFilled n ms s) (omega arith) f)
  variable_ranges-Adds (suc left) i {room} e f =
      variable_step (truth (get L.valid (read_msr (u32 (L.physmask0 + i * 2))))) _
        (variable_list left (suc i)) (variable_ranges L read_msr bsf left (suc i)) e f
        λ all ms' s' e' f'. variable_ranges-Adds left (suc i) e' f'

  -- The ranges that the registers enable.
  unfoldable pub enabled_ranges : List MtrrData
  enabled_ranges =
      let variable = variable_list (get L.variable_range_count (read_msr L.capabilities)) 0 in
      if truth (get L.fixed_range_supported (read_msr L.capabilities))
        && truth (get L.fixed_range_mtrr_enable (read_msr L.def_type))
      then fixed_list (fixed_calls L read_msr bsf) ++ variable
      else variable

  -- Where the two loops of `ept_init_mtrr` lead.
  record Loops (fixed : Bool) (n room : ℕ) (ms : List MtrrData) (s : Mtrrs) : Type 0 where
    middle : Mtrrs
    final : Mtrrs
    fixed_runs :
        (if fixed then run_calls L read_msr bsf (fixed_calls L read_msr bsf) s else some s)
        ≡ some middle
    variable_runs : variable_ranges L read_msr bsf n 0 middle ≡ some final
    filled : IsFilled room ms final

  loops :
      (fixed : Bool) (n room : ℕ) (s : Mtrrs)
      → max_mtrrs
        ≡ length (
            if fixed
            then fixed_list (fixed_calls L read_msr bsf) ++ variable_list n 0
            else variable_list n 0)
          + room
      → IsFilled max_mtrrs [] s
      → Loops fixed n room
          (if fixed
            then fixed_list (fixed_calls L read_msr bsf) ++ variable_list n 0
            else variable_list n 0)
          s
  loops true n room s e f =
      let first =
        run_calls-Adds (fixed_calls L read_msr bsf) {room = 255} (omega (arith, fixed_calls-length))
          f in
      let second =
        variable_ranges-Adds n 0 {room = room}
          (omega (
            arith,
            length-append (fixed_list (fixed_calls L read_msr bsf)) (variable_list n 0),
            length-fixed_list (fixed_calls L read_msr bsf),
            fixed_calls-length,
          ))
          first.filled in
      record {
        middle = first.final;
        final = second.final;
        fixed_runs = first.runs;
        variable_runs = second.runs;
        filled = second.filled;
      }
  loops false n room s e f =
      let second = variable_ranges-Adds n 0 {room = room} e f in
      record {
        middle = s;
        final = second.final;
        fixed_runs = refl;
        variable_runs = second.runs;
        filled = second.filled;
      }

  abbrev initial : Mtrrs
  initial = record { entries = replicate max_mtrrs cleared; index = 0; offset = 0 }

  enabled_ranges-Loops :
      (room : ℕ)
      → max_mtrrs ≡ length enabled_ranges + room
      → Loops
          (truth (get L.fixed_range_supported (read_msr L.capabilities))
            && truth (get L.fixed_range_mtrr_enable (read_msr L.def_type)))
          (get L.variable_range_count (read_msr L.capabilities))
          room
          enabled_ranges
          initial
  unfolding enabled_ranges
  enabled_ranges-Loops room e =
      loops _ _ room initial e (record { index = refl; entries = refl; total = refl })

  init_run :
      (room : ℕ)
      → max_mtrrs ≡ length enabled_ranges + suc room
      → ept_init_mtrr L read_msr bsf
        ≡ some (
          enabled_ranges ++ replicate (suc room) cleared,
          u8 (get L.default_memory_type (read_msr L.def_type)),
        )
  unfolding ept_init_mtrr
  init_run room e =
      let run = enabled_ranges-Loops (suc room) e in
      rw (run.fixed_runs, run.variable_runs, end_mark-room run.filled)

  -- With an element to spare, `ept_init_mtrr` stores exactly the enabled ranges, in the order of
  -- reading and followed by cleared elements, and keeps the default type.
  pub ept_init_mtrr_lem :
      length enabled_ranges < max_mtrrs
      → ept_init_mtrr L read_msr bsf
        ≡ some (
          enabled_ranges ++ replicate (max_mtrrs - length enabled_ranges) cleared,
          u8 (get L.default_memory_type (read_msr L.def_type)),
        )
  ept_init_mtrr_lem h =
      init_run (max_mtrrs - length enabled_ranges - 1) (omega arith)
      ∙ ap
          (λ n. some (
            enabled_ranges ++ replicate n cleared,
            u8 (get L.default_memory_type (read_msr L.def_type)),
          ))
          {x = suc (max_mtrrs - length enabled_ranges - 1)} (omega arith)

  -- When every element holds a range, the end mark is written behind the array.
  pub ept_init_mtrr_overrun :
      length enabled_ranges ≡ max_mtrrs → ept_init_mtrr L read_msr bsf ≡ none
  unfolding ept_init_mtrr
  ept_init_mtrr_overrun h =
      let run = enabled_ranges-Loops 0 (omega arith) in
      rw (run.fixed_runs, run.variable_runs, end_mark-no_room run.filled)
