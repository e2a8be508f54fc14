-- ===== src/Loader/Gfx/Screen.antt =====
-- The mode that `efi_gfx_init` leaves on the screen.
use hypervi.Base.{
  ℕ, ◌≤◌, ◌≡◌, ◌≢◌, ◌⊎◌, inl, inr, refl, sym, ap, ◌∙◌, arith, List, [], ◌∷◌, ◌++◌, Option, none,
  some, ◌==◌, ◌/=◌, true, false, get_elem?, Bool-cases, Option-cases,
}
use hypervi.Loader.Gfx.{select_mode}
use hypervi.Loader.Gfx.Mode.{stays, found, select_mode-Chosen}
use hypervi.Loader.Gfx.Init.{
  Gop, GopMode, GfxState, HandleAnswer, handle_protocols, fill_screen, with_mode, efi_gfx_init,
  efi_gfx_get_res,
}

-- A protocol whose current mode has the width that `query_mode` gives for it, before and after
-- `set_mode`.
pub record IsGop (g : Gop) : Type 0 where
  pub now :
      (w : ℕ)
      → get_elem? g.query_mode g.current.mode ≡ some (some w)
      → w ≡ g.current.horizontal_resolution
  pub after :
      (k w : ℕ) (mode : GopMode)
      → get_elem? g.query_mode k ≡ some (some w)
      → g.set_mode k ≡ some mode
      → w ≡ mode.horizontal_resolution

-- The screen is filled in its current mode, and no mode is wider.
pub record Widest (s s' : GfxState) (modes : List (Option ℕ)) : Type 0 where
  pub width : ℕ
  pub height : ℕ
  pub resolution : efi_gfx_get_res s' ≡ some (width, height)
  pub filled : s'.fills ≡ s.fills ++ ((width, height) ∷ [])
  pub widest : (j v : ℕ) → get_elem? modes j ≡ some (some v) → v ≤ width

module _ (g : Gop) (ok : IsGop g) where
  abbrev pub chosen : ℕ × ℕ
  chosen = select_mode g.query_mode 0 g.current.mode g.current.horizontal_resolution

  abbrev NoWider : ℕ → Type 0
  NoWider width = (j v : ℕ) → get_elem? g.query_mode j ≡ some (some v) → v ≤ width

  -- The current mode where it is chosen, and any other that `set_mode` takes.
  stays_widest : chosen.0 ≡ g.current.mode → NoWider g.current.horizontal_resolution
  stays_widest same =
      elim (select_mode-Chosen g.query_mode 0 g.current.mode g.current.horizontal_resolution) [
        | stays e below ↦ λ j v at. omega (arith, below j v at)
        | found k w e at from widest last ↦ λ j v this.
            let here : k ≡ g.current.mode = omega (arith, sym (ap (λ (r : ℕ × ℕ). r.0) e), same) in
            let known = ok.now w (ap (λ (t : ℕ). get_elem? g.query_mode t) (sym here) ∙ at) in
            omega (arith, widest j v this, known)
      ]

  set_widest :
      (mode : GopMode)
      → chosen.0 ≢ g.current.mode
      → g.set_mode chosen.0 ≡ some mode
      → NoWider mode.horizontal_resolution
  set_widest mode other set =
      elim (select_mode-Chosen g.query_mode 0 g.current.mode g.current.horizontal_resolution) [
        | stays e below ↦ absurd (other (ap (λ (r : ℕ × ℕ). r.0) e))
        | found k w e at from widest last ↦ λ j v this.
            let here : chosen.0 ≡ k = ap (λ (r : ℕ × ℕ). r.0) e ∙ omega arith in
            let known = ok.after k w mode at (ap g.set_mode (sym here) ∙ set) in
            omega (arith, widest j v this, known)
      ]

-- Where a handle gives a protocol, `efi_gfx_init` ends with it open and either fills the screen, in
-- a mode that no other is wider than, or leaves it, where `set_mode` fails.
pub efi_gfx_init_lem :
    (handles : List HandleAnswer) (s : GfxState)
    → handle_protocols handles s.gop ≢ 0
    → IsGop (s.protocols (handle_protocols handles s.gop))
    → (s' : GfxState) × (efi_gfx_init (some handles) s ≡ some s')
      × (s'.gop ≡ handle_protocols handles s.gop)
      × (Widest s s' (s.protocols (handle_protocols handles s.gop)).query_mode
          ⊎ ((s'.fills ≡ s.fills)
              × ((k : ℕ) × ((s.protocols (handle_protocols handles s.gop)).set_mode k ≡ none))))
unfolding efi_gfx_init efi_gfx_get_res
efi_gfx_init_lem handles s present ok =
    let gop = handle_protocols handles s.gop in
    let g = s.protocols gop in
    let opened : GfxState = record s { gop = gop } in
    let not_null : (gop == 0) ≡ false = ground arith in
    elim (Bool-cases ((chosen g ok).0 /= g.current.mode)) [
      | inr same ↦
          rw (not_null, same)
            (
              fill_screen opened,
              refl,
              refl,
              inl (record {
                width = g.current.horizontal_resolution;
                height = g.current.vertical_resolution;
                resolution = rw not_null refl;
                filled = refl;
                widest = stays_widest g ok (ground arith);
              }),
            )
      | inl other ↦ elim (Option-cases (g.set_mode (chosen g ok).0)) [
        | inl failed ↦ rw (not_null, other, failed) (opened, refl, refl, inr (refl, (_, failed)))
        | inr (mode, set) ↦
            let here : (gop == gop) ≡ true = ground arith in
            rw (not_null, other, set)
              (
                fill_screen (with_mode mode opened),
                refl,
                refl,
                inl (record {
                  width = mode.horizontal_resolution;
                  height = mode.vertical_resolution;
                  resolution = rw (not_null, here) refl;
                  filled = rw here refl;
                  widest = set_widest g ok mode (λ e. ground arith) set;
                }),
              )
      ]
    ]
