-- ===== src/Loader/Gdt/Task.antt =====
-- What the processor finds behind the new table's task register.
use hypervi.Base.{
  ℕ, ◌+◌, ◌*◌, ◌/◌, ◌%◌, ◌^◌, ◌<◌, ◌≤◌, ◌≡◌, ◌⊎◌, inr, refl, ◌∙◌, arith, List, [], ◌∷◌, All, u64,
  false, ◌==◌, get, get-put, get-put_other, field,
}
use hypervi.Freestanding.Memory.{Bytes, read_le, write_le}
use hypervi.Freestanding.Memory.Laws.{write_le-Frame, read_le-write_le, read_le-same, at_offset}
use hypervi.Freestanding.Segments.{
  SelectorLayout, SegmentDescriptor, get_segment_base, get_descriptor_base, get_segment_descriptor,
}
use hypervi.Freestanding.Segments.Laws.{IsDescriptor, get_descriptor_base_lem}
use hypervi.Loader.Gdt.{GdtLayout, Member, assign, tss_members, task_selector}

-- A member shares no byte with any of a list.
abbrev pub IsApart : (offset size : ℕ) → List Member → Type 0
IsApart o n = All (λ (g : Member). (o + n ≤ g.offset) ⊎ (g.offset + g.size ≤ o))

abbrev ArePairwiseApart : List Member → Type 0
ArePairwiseApart [] = Unit {0}
ArePairwiseApart (f ∷ l) = IsApart f.offset f.size l × ArePairwiseApart l

pub assign_kept :
    (p q : ℕ) (l : List Member) (m : Bytes)
    → All (λ (g : Member). (q < p + g.offset) ⊎ (p + g.offset + g.size ≤ q)) l
    → assign p l m q ≡ m q
unfolding assign
assign_kept p q [] m all = refl
assign_kept p q (f ∷ l) m all =
    assign_kept p q l (write_le f.size (p + f.offset) f.value m) all.1
    ∙ write_le-Frame f.size (p + f.offset) f.value m q all.0

byte_of_member :
    (p o n j : ℕ) (l : List Member)
    → j < n
    → IsApart o n l
    → All (λ (g : Member). (p + o + j < p + g.offset) ⊎ (p + g.offset + g.size ≤ p + o + j)) l
byte_of_member p o n j [] hj all = tt
byte_of_member p o n j (g ∷ l) hj all = (ground arith, byte_of_member p o n j l hj all.1)

-- Each member reads as the value assigned, cut to its size.
assign_members :
    (p : ℕ) (l : List Member) (m : Bytes)
    → ArePairwiseApart l
    → All (λ (f : Member). read_le f.size (p + f.offset) (assign p l m) ≡ f.value % 256 ^ f.size) l
unfolding assign
assign_members p [] m apart = tt
assign_members p (f ∷ l) m apart =
    let first = write_le f.size (p + f.offset) f.value m in
    (
      read_le-same f.size (p + f.offset) first (assign p l first) (λ j hj.
            assign_kept p (p + f.offset + j) l first
              (byte_of_member p f.offset f.size j l hj apart.0))
          ∙ read_le-write_le f.size (p + f.offset) f.value m,
      assign_members p l first apart.1,
    )

-- A descriptor in memory, as the processor's manual lays it out.
unfoldable pub descriptor_at : Bytes → (p : ℕ) → SegmentDescriptor
descriptor_at m p = record {
  base_address_low = read_le 2 (p + 2) m;
  base_address_middle = read_le 1 (p + 4) m;
  base_address_high = read_le 1 (p + 7) m;
  system = read_le 1 (p + 5) m / 16 % 2;
  type = read_le 1 (p + 5) m % 16;
  base_address_upper = read_le 4 (p + 8) m;
}

-- The descriptor of a task state segment at an address.
pub task_descriptor : ℕ → SegmentDescriptor
task_descriptor tss_ptr = record {
  base_address_low = tss_ptr % 2 ^ 16;
  base_address_middle = tss_ptr / 2 ^ 16 % 2 ^ 8;
  base_address_high = tss_ptr / 2 ^ 24 % 2 ^ 8;
  system = 0;
  type = 9;
  base_address_upper = tss_ptr / 2 ^ 32 % 2 ^ 32;
}

module _ (p tss_ptr : ℕ) (m m' : Bytes)
    (same : (j : ℕ) → j < 16 → m' (p + j) ≡ assign p (tss_members tss_ptr) m (p + j)) where
  assigned : Bytes
  assigned = assign p (tss_members tss_ptr) m

  read_assigned : (n o : ℕ) → o + n ≤ 16 → read_le n (p + o) m' ≡ read_le n (p + o) assigned
  unfolding assigned
  read_assigned n o fits = read_le-same n (p + o) assigned m' (λ j hj.
      at_offset assigned m' p (o + j) (p + o + j) (same (o + j) (omega arith)) (omega arith))

  pub assigned_descriptor : descriptor_at m' p ≡ task_descriptor tss_ptr
  unfolding descriptor_at task_descriptor assigned
  assigned_descriptor =
      let reads = assign_members p (tss_members tss_ptr) m (omega arith) in
      let low : read_le 2 (p + 2) m' ≡ tss_ptr % 2 ^ 16 =
        omega (arith, read_assigned 2 2 (omega arith), reads.1.0) in
      let middle : read_le 1 (p + 4) m' ≡ tss_ptr / 2 ^ 16 % 2 ^ 8 =
        omega (arith, read_assigned 1 4 (omega arith), reads.1.1.0) in
      let high : read_le 1 (p + 7) m' ≡ tss_ptr / 2 ^ 24 % 2 ^ 8 =
        omega (arith, read_assigned 1 7 (omega arith), reads.1.1.1.0) in
      let upper : read_le 4 (p + 8) m' ≡ tss_ptr / 2 ^ 32 % 2 ^ 32 =
        omega (arith, read_assigned 4 8 (omega arith), reads.1.1.1.1.0) in
      let flags : read_le 1 (p + 5) m' ≡ 0b10001001 =
        omega (arith, read_assigned 1 5 (omega arith), reads.1.1.1.1.1.0) in
      rw (low, middle, high, upper, flags) refl

-- The layout that the processor's manual documents.
pub record IsDocumented (L : GdtLayout) : Type 0 where
  pub index : L.selector.index ≡ field 3 13
  pub table : L.selector.table ≡ field 2 1
  pub descriptor_size : L.selector.descriptor_size ≡ 8
  pub descriptor_64_size : L.descriptor_64_size ≡ 16
  pub tss_available : L.selector.tss_available ≡ 9

-- The base of the descriptor that was assigned.
pub task_base :
    (L : SelectorLayout) (tss_ptr : ℕ)
    → L.tss_available ≡ 9
    → tss_ptr < 2 ^ 64
    → get_descriptor_base L (task_descriptor tss_ptr) ≡ tss_ptr
unfolding task_descriptor
task_base L tss_ptr available word =
    let parts : IsDescriptor (task_descriptor tss_ptr) = record {
      low = omega arith;
      middle = omega arith;
      high = omega arith;
      upper = omega arith;
    } in
    get_descriptor_base_lem L (task_descriptor tss_ptr) parts ∙ rw available (omega arith)

-- The selector's index is the number of descriptors in the old table.
pub selected_index :
    (L : GdtLayout) (limit n : ℕ)
    → IsDocumented L
    → limit + 1 ≡ 8 * n
    → n < 2 ^ 13
    → get L.selector.index (task_selector L limit) ≡ n
selected_index L limit n doc whole few =
    get-put L.selector.index ((limit + 1) / L.selector.descriptor_size) 0
    ∙ rw (doc.index, doc.descriptor_size) (omega arith)

-- A selector of the global table leads to its descriptor.
pub selected_base :
    (L : GdtLayout) (memory : ℕ → SegmentDescriptor) (base limit n : ℕ)
    → IsDocumented L
    → limit + 1 ≡ 8 * n
    → 0 < n
    → n < 2 ^ 13
    → base + limit + 1 < 2 ^ 64
    → get_segment_base L.selector memory base (task_selector L limit)
      ≡ get_descriptor_base L.selector (memory (base + limit + 1))
unfolding get_segment_base get_segment_descriptor get_descriptor_base get
selected_base L memory base limit n doc whole some_entry few word =
    let index = selected_index L limit n doc whole few in
    let table : get L.selector.table (task_selector L limit) ≡ 0 =
      get-put_other L.selector.index L.selector.table ((limit + 1) / L.selector.descriptor_size) 0
        (rw (doc.index, doc.table) (inr (omega arith)))
      ∙ rw doc.table refl in
    let some_index : (n == 0) ≡ false = ground arith in
    let address : u64 (base + n * 8) ≡ base + limit + 1 = omega arith in
    rw (index, table, doc.descriptor_size, some_index, address) refl
