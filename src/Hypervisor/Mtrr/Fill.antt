-- ===== src/Hypervisor/Mtrr/Fill.antt =====
-- What `ept_init_mtrr` leaves in `g_mtrrs`: the ranges in the order of reading, then cleared
-- elements. The lists here describe the result without an array, an index or a fault.
use mathlib.Core.Path.{subst}
use mathlib.Core.List.{append_assoc, append-nil}
use hypervi.Base.{
  ℕ, zero, suc, ◌+◌, ◌*◌, ◌/◌, ◌%◌, ◌^◌, ◌≡◌, refl, sym, true, Option, some, List, [], ◌∷◌, ◌++◌,
  arith, length, length-append, set, replicate, u64, ◌>>=◌,
}
use hypervi.Hypervisor.Mtrr.{
  MtrrData, Mtrrs, max_mtrrs, cleared, store_mtrr, read_fixed_round, read_fixed_loop,
}

-- The ranges that one fixed-range register describes, from its byte i on.
unfoldable pub tiles : (left i value base size : ℕ) → List MtrrData
tiles zero i value base size = []
tiles (suc left) i value base size =
    record {
      enabled = true;
      fixed = true;
      type = value / 2 ^ (8 * i) % 2 ^ 8;
      range_begin = u64 (base + size * i);
      range_end = u64 (u64 (base + size * i) + size);
    }
    ∷ tiles left (suc i) value base size

-- `ms` was stored, and `room` cleared elements are left.
pub record IsFilled (room : ℕ) (ms : List MtrrData) (s : Mtrrs) : Type 0 where
  pub index : s.index ≡ length ms
  pub entries : s.entries ≡ ms ++ replicate room cleared
  pub total : length ms + room ≡ max_mtrrs

pub set_end :
    (ms : List MtrrData) (m c : MtrrData) (rest : List MtrrData)
    → set (ms ++ c ∷ rest) (length ms) m ≡ (ms ++ m ∷ []) ++ rest
set_end [] m c rest = refl
set_end (x ∷ ms) m c rest = rw (set_end ms m c rest)

store_mtrr-IsFilled :
    {room : ℕ} {ms : List MtrrData} {s : Mtrrs} (m : MtrrData)
    → IsFilled (suc room) ms s
    → store_mtrr s.index m s.entries ≡ some ((ms ++ m ∷ []) ++ replicate room cleared)
unfolding store_mtrr
store_mtrr-IsFilled {room} {ms} m f =
    rw (f.index, f.entries, set_end ms m cleared (replicate room cleared)) (ground (arith, f.total))

IsFilled-snoc :
    {room : ℕ} {ms : List MtrrData} {s : Mtrrs} (m : MtrrData) (offset : ℕ)
    → IsFilled (suc room) ms s
    → IsFilled room (ms ++ m ∷ []) (record {
      entries = (ms ++ m ∷ []) ++ replicate room cleared;
      index = s.index + 1;
      offset = offset;
    })
IsFilled-snoc {ms} m offset f = record {
  index = omega (arith, f.index, length-append ms (m ∷ []));
  entries = refl;
  total = omega (arith, f.total, length-append ms (m ∷ []));
}

-- A run that succeeds and adds `added`.
pub record Adds (room : ℕ) (ms added : List MtrrData) (r : Option Mtrrs) : Type 0 where
  pub final : Mtrrs
  pub runs : r ≡ some final
  pub filled : IsFilled room (ms ++ added) final

pub Adds-bind :
    {mid room : ℕ} {ms a b : List MtrrData} {r : Option Mtrrs} (k : Mtrrs → Option Mtrrs)
    → Adds mid ms a r
    → ((s : Mtrrs) → IsFilled mid (ms ++ a) s → Adds room (ms ++ a) b (k s))
    → Adds room ms (a ++ b) (r >>= k)
Adds-bind {room} {ms} {a} {b} k first next =
    let second = next first.final first.filled in
    record {
      final = second.final;
      runs = rw first.runs second.runs;
      filled = subst (λ l. IsFilled room l second.final) (append_assoc ms a b) second.filled;
    }

pub Adds-nothing :
    {room : ℕ} {ms : List MtrrData} {s : Mtrrs} → IsFilled room ms s → Adds room ms [] (some s)
Adds-nothing {room} {ms} {s} f = record {
  final = s;
  runs = refl;
  filled = subst (λ l. IsFilled room l s) (sym (append-nil ms)) f;
}

pub Adds-store :
    {room : ℕ} {ms : List MtrrData} {s : Mtrrs} (m : MtrrData) (offset : ℕ)
    → IsFilled (suc room) ms s
    → Adds room ms (m ∷ []) (do
      entries ← store_mtrr s.index m s.entries
      some (record { entries = entries; index = s.index + 1; offset = offset }))
Adds-store {room} {ms} {s} m offset f = record {
  final = record {
    entries = (ms ++ m ∷ []) ++ replicate room cleared;
    index = s.index + 1;
    offset = offset;
  };
  runs = rw (store_mtrr-IsFilled m f);
  filled = IsFilled-snoc m offset f;
}

read_fixed_round-Adds :
    {room : ℕ} (i value base size : ℕ) {ms : List MtrrData} {s : Mtrrs}
    → IsFilled (suc room) ms s
    → Adds room ms (tiles 1 i value base size) (read_fixed_round value base size i s)
unfolding read_fixed_round tiles
read_fixed_round-Adds i value base size f = Adds-store _ _ f

pub read_fixed_loop-Adds :
    (left : ℕ) {room total : ℕ} (i value base size : ℕ) {ms : List MtrrData} {s : Mtrrs}
    → total ≡ left + room
    → IsFilled total ms s
    → Adds room ms (tiles left i value base size) (read_fixed_loop left i value base size s)
unfolding read_fixed_loop tiles
read_fixed_loop-Adds zero {room} {total} i value base size {ms} {s} e f =
    Adds-nothing (subst (λ n. IsFilled n ms s) (omega arith) f)
read_fixed_loop-Adds (suc left) {room} {total} i value base size {ms} {s} e f =
    let e' : total ≡ suc (left + room) = omega arith in
    Adds-bind (λ s'. read_fixed_loop left (suc i) value base size s')
      (read_fixed_round-Adds i value base size (subst (λ n. IsFilled n ms s) e' f))
      (λ s' f'. read_fixed_loop-Adds left (suc i) value base size refl f')
