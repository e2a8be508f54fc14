-- ===== src/Loader/Gfx/Init.antt =====
-- Opening the graphics protocol and setting its mode: `efi_gfx_init` and `efi_gfx_get_res` of
-- loader/efi/gfx.cc.
use hypervi.Base.{ℕ, Bool, List, [], ◌∷◌, ◌++◌, Option, none, some, ◌==◌, ◌/=◌, if◌then◌else◌}
use hypervi.Loader.Allocator.{out_address}
use hypervi.Loader.Gfx.{select_mode}

-- The members of `efi_gop_mode` and its `info` that are read.
pub record GopMode : Type 0 where
  pub mode : ℕ
  pub horizontal_resolution : ℕ
  pub vertical_resolution : ℕ

-- `efi_gop`: the current mode; the widths that `query_mode` gives for its `max_mode` modes, `none`
-- where it fails; and what `set_mode` makes the current mode, `none` where it fails.
pub record Gop : Type 0 where
  pub current : GopMode
  pub query_mode : List (Option ℕ)
  pub set_mode : ℕ → Option GopMode

-- `gop`, the protocols by their addresses, and the sizes of the screens that `blt` filled.
pub record GfxState : Type 0 where
  pub gop : ℕ
  pub protocols : ℕ → Gop
  pub fills : List (ℕ × ℕ)

-- What `handle_protocol` stores for a handle, if anything, and whether it succeeds.
abbrev pub HandleAnswer : Type 0
HandleAnswer = Option ℕ × Bool

-- The loop over the handles: `gop` behind it.
unfoldable pub handle_protocols : List HandleAnswer → (gop : ℕ) → ℕ
handle_protocols [] gop = gop
handle_protocols ((stores, success) ∷ handles) gop =
    let opened = out_address stores gop in
    let rest = handle_protocols handles opened in if success then opened else rest

-- The last call of `efi_gfx_init`.
abbrev pub fill_screen : GfxState → GfxState
fill_screen s =
    let mode = (s.protocols s.gop).current in
    record s { fills = s.fills ++ ((mode.horizontal_resolution, mode.vertical_resolution) ∷ []) }

-- `set_mode` on the open protocol.
abbrev pub with_mode : GopMode → GfxState → GfxState
with_mode mode s = record s {
  protocols = λ a. if a == s.gop then record (s.protocols a) { current = mode } else s.protocols a;
}

-- `handles` is what `locate_handle_buffer` gives, `none` where it fails. The result `none` is a
-- read behind the null pointer.
unfoldable pub efi_gfx_init : (handles : Option (List HandleAnswer)) → GfxState → Option GfxState
efi_gfx_init none s = some s
efi_gfx_init (some handles) s =
    let opened : GfxState = record s { gop = handle_protocols handles s.gop } in
    let gop = opened.protocols opened.gop in
    let (current_mode, current_width) =
      select_mode gop.query_mode 0 gop.current.mode gop.current.horizontal_resolution in
    let set : GfxState = elim (gop.set_mode current_mode) [
      | none ↦ opened
      | some mode ↦ fill_screen (with_mode mode opened)
    ] in
    if opened.gop == 0
    then none
    else if current_mode /= gop.current.mode
    then some set
    else some (fill_screen opened)

-- The width and the height.
unfoldable pub efi_gfx_get_res : GfxState → Option (ℕ × ℕ)
efi_gfx_get_res s =
    let mode = (s.protocols s.gop).current in
    if s.gop == 0 then none else some (mode.horizontal_resolution, mode.vertical_resolution)
