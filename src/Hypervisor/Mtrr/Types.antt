-- ===== src/Hypervisor/Mtrr/Types.antt =====
-- `ept_get_memory_type` over variable ranges, against the rule of precedence of the range
-- registers.
use mathlib.Core.Path.{subst}
use hypervi.Base.{
  ℕ, ◌+◌, ◌-◌, ◌^◌, ◌<◌, ◌≡◌, ◌≢◌, ◌⊎◌, inl, inr, refl, ◌∙◌, Bool-cases, Bool, true, false, ◌&&◌,
  ◌||◌, List, [], ◌∷◌, map, All, arith, ltb, leb, ◌==◌, if◌then◌else◌, u64,
}
use hypervi.Hypervisor.Mtrr.{MtrrData, MemoryTypes, combine, scan, ept_get_memory_type}

-- The four values differ.
pub record IsDistinct (T : MemoryTypes) : Type 0 where
  pub uc_wt : T.uncacheable ≢ T.write_through
  pub uc_wb : T.uncacheable ≢ T.write_back
  pub wt_wb : T.write_through ≢ T.write_back
  pub uc_invalid : T.uncacheable ≢ T.invalid
  pub wt_invalid : T.write_through ≢ T.invalid
  pub wb_invalid : T.write_back ≢ T.invalid

-- The range holds `start`.
abbrev pub covers : ℕ → MtrrData → Bool
covers start m = leb m.range_begin start && ltb start m.range_end

-- The enabled ranges that hold `start`; the first element that is not enabled ends the array.
unfoldable pub covering : ℕ → List MtrrData → List MtrrData
covering start [] = []
covering start (m ∷ rest) =
    let others = covering start rest in
    if m.enabled then (if covers start m then m ∷ others else others) else []

module _ (start : ℕ) (m : MtrrData) (rest : List MtrrData) where
  pub covering_in :
      m.enabled ≡ true → covers start m ≡ true → covering start (m ∷ rest) ≡ m ∷ covering start rest
  unfolding covering
  covering_in e c = ground arith

  pub covering_skip :
      m.enabled ≡ true → covers start m ≡ false → covering start (m ∷ rest) ≡ covering start rest
  unfolding covering
  covering_skip e c = ground arith

  pub covering_off : m.enabled ≡ false → covering start (m ∷ rest) ≡ []
  unfolding covering
  covering_off e = ground arith

abbrev pub has : ℕ → List ℕ → Bool
has t [] = false
has t (x ∷ xs) = x == t || has t xs

module _ (T : MemoryTypes) where
  -- Uncacheable wins, write-through wins over write-back, and no range means the default.
  unfoldable pub precedence : (default : ℕ) → List ℕ → ℕ
  precedence default types =
      if has T.uncacheable types
      then T.uncacheable
      else if has T.write_through types
      then T.write_through
      else if has T.write_back types
      then T.write_back
      else default

  -- A variable range of one of three types that holds the whole page at `start`.
  pub record IsWhole (start size : ℕ) (m : MtrrData) : Type 0 where
    pub variable : m.fixed ≡ false
    pub inside : u64 (start + size + 2 ^ 64 - 1) < m.range_end
    pub known : (m.type ≡ T.uncacheable) ⊎ (m.type ≡ T.write_through) ⊎ (m.type ≡ T.write_back)

  abbrev types : ℕ → List MtrrData → List ℕ
  types start ms = map (λ m. m.type) (covering start ms)

  -- The rule, with the result of the ranges before.
  abbrev precedence_after : (default result : ℕ) → List ℕ → ℕ
  precedence_after default result ts =
      if has T.uncacheable ts
      then T.uncacheable
      else if result == T.write_through || has T.write_through ts
      then T.write_through
      else if result == T.write_back || has T.write_back ts
      then T.write_back
      else default

  abbrev IsResult : ℕ → Type 0
  IsResult r = (r ≡ T.invalid) ⊎ (r ≡ T.write_through) ⊎ (r ≡ T.write_back)

  if_false : (b : Bool) (x y : ℕ) → b ≡ false → (if b then x else y) ≡ y
  if_false b x y e = rw e

  scan-nil :
      (d : IsDistinct T) (default start size r : ℕ)
      → IsResult r
      → scan T default start size [] r ≡ precedence_after default r []
  unfolding scan
  scan-nil d default start size r h = ground (arith, d.wt_invalid, d.wb_invalid)

  scan_disabled :
      (default start size : ℕ) (m : MtrrData) (rest : List MtrrData) (r : ℕ)
      → m.enabled ≡ false
      → scan T default start size (m ∷ rest) r ≡ scan T default start size [] r
  unfolding scan
  scan_disabled default start size m rest r e = rw e

  scan_skip :
      (default start size : ℕ) (m : MtrrData) (rest : List MtrrData) (r : ℕ)
      → m.enabled ≡ true
      → covers start m ≡ false
      → scan T default start size (m ∷ rest) r ≡ scan T default start size rest r
  unfolding scan
  scan_skip default start size m rest r e c = ground arith

  scan_whole :
      (default start size : ℕ) (m : MtrrData) (rest : List MtrrData) (r : ℕ)
      → m.enabled ≡ true
      → covers start m ≡ true
      → IsWhole start size m
      → scan T default start size (m ∷ rest) r ≡ (
          if m.type == T.uncacheable
          then T.uncacheable
          else scan T default start size rest (combine T m.type r))
  unfolding scan
  scan_whole default start size m rest r e c w = ground (arith, w.variable, w.inside)

  combine-IsResult :
      (t r : ℕ) → (t ≡ T.write_through) ⊎ (t ≡ T.write_back) → IsResult r → IsResult (combine T t r)
  unfolding combine
  combine-IsResult t r k h = ground arith

  -- One more type that is not uncacheable, before the others or as the result so far.
  combine-precedence :
      (d : IsDistinct T) (default t r : ℕ) (ts : List ℕ)
      → (t ≡ T.write_through) ⊎ (t ≡ T.write_back)
      → IsResult r
      → precedence_after default (combine T t r) ts ≡ precedence_after default r (t ∷ ts)
  unfolding combine
  combine-precedence d default t r ts k h =
      ground (arith, d.uc_wt, d.uc_wb, d.wt_wb, d.wt_invalid, d.wb_invalid)

  precedence-uc :
      (default t r : ℕ) (ts : List ℕ)
      → t ≡ T.uncacheable
      → precedence_after default r (t ∷ ts) ≡ T.uncacheable
  precedence-uc default t r ts e = ground arith

  scan-covering :
      (d : IsDistinct T) (default start size : ℕ) (m : MtrrData) (rest : List MtrrData) (r : ℕ)
      → m.enabled ≡ true
      → covers start m ≡ true
      → IsWhole start size m
      → IsResult r
      → ((r' : ℕ)
          → IsResult r'
          → scan T default start size rest r' ≡ precedence_after default r' (types start rest))
      → scan T default start size (m ∷ rest) r
        ≡ precedence_after default r (m.type ∷ types start rest)
  scan-covering d default start size m rest r e c w h ih =
      rw (scan_whole default start size m rest r e c w) (step w.known)
    where
      not_uc :
          (m.type ≡ T.write_through) ⊎ (m.type ≡ T.write_back) → (m.type == T.uncacheable) ≡ false
      not_uc k = ground (arith, d.uc_wt, d.uc_wb)

      light :
          (m.type ≡ T.write_through) ⊎ (m.type ≡ T.write_back)
          → (if m.type == T.uncacheable
              then T.uncacheable
              else scan T default start size rest (combine T m.type r))
            ≡ precedence_after default r (m.type ∷ types start rest)
      light k =
          if_false _ _ _ (not_uc k)
          ∙ ih (combine T m.type r) (combine-IsResult m.type r k h)
          ∙ combine-precedence d default m.type r (types start rest) k h

      step :
          (m.type ≡ T.uncacheable) ⊎ (m.type ≡ T.write_through) ⊎ (m.type ≡ T.write_back)
          → (if m.type == T.uncacheable
              then T.uncacheable
              else scan T default start size rest (combine T m.type r))
            ≡ precedence_after default r (m.type ∷ types start rest)
      step (inl uc) = ground (arith, uc)
      step (inr k) = light k

  scan-precedence :
      (d : IsDistinct T) (default start size : ℕ) (ms : List MtrrData) (result : ℕ)
      → IsResult result
      → All (IsWhole start size) (covering start ms)
      → scan T default start size ms result ≡ precedence_after default result (types start ms)
  unfolding covering
  scan-precedence d default start size [] result r w = scan-nil d default start size result r
  scan-precedence d default start size (m ∷ rest) result r w = elim (Bool-cases m.enabled) [
    | inl on ↦ elim (Bool-cases (covers start m)) [
      | inl c ↦
          let w' = subst (All (IsWhole start size)) (covering_in start m rest on c) w in
          rw (covering_in start m rest on c) (
            scan-covering d default start size m rest result on c w'.0 r
              (λ r' h'. scan-precedence d default start size rest r' h' w'.1))
      | inr c ↦
          let w' = subst (All (IsWhole start size)) (covering_skip start m rest on c) w in
          rw (covering_skip start m rest on c) (
            scan_skip default start size m rest result on c
            ∙ scan-precedence d default start size rest result r w')
    ]
    | inr off ↦ rw (covering_off start m rest off) (
        scan_disabled default start size m rest result off ∙ scan-nil d default start size result r)
  ]

  -- If every enabled range that holds the page's start holds the whole page, is variable and has
  -- one of the three types, the result is that of the rule of precedence.
  pub ept_get_memory_type-precedence :
      (d : IsDistinct T) (default start size : ℕ) (ms : List MtrrData)
      → All (IsWhole start size) (covering start ms)
      → ept_get_memory_type T ms default start size ≡ precedence default (types start ms)
  unfolding ept_get_memory_type precedence
  ept_get_memory_type-precedence d default start size ms w =
      scan-precedence d default start size ms T.invalid (inl refl) w
      ∙ ground (arith, d.wt_invalid, d.wb_invalid)
