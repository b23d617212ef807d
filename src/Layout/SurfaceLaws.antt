-- ===== src/Layout/SurfaceLaws.antt =====
-- The keyboard's surface holds its keys (compositor/src/shell/shell_ui.c with compositor/src/shell/shell_osk.c).
use lumo_compositor.Base.{
  ℕ, ◌^◌, ◌≤◌, ◌<◌, not, ◌||◌, some, ◌==◌, ◌≡◌, ap, arith, some-inj, require-eq-some,
}
use lumo_compositor.Layout.{Rect, IsInside, clamp_u32}
use lumo_compositor.Layout.Modes.{osk}
use lumo_compositor.Layout.Surfaces.{
  SurfaceConfig, osk_height, surface_config_for_mode, mode_config,
}
use lumo_compositor.Layout.Keys.{osk_key_rect}
use lumo_compositor.Layout.KeyRects.{osk_key_rect-IsInside}

osk_height-range :
    (height : ℕ)
    → 260 ≤ height
    → height < 2 ^ 31
    → (260 ≤ osk_height height) × (osk_height height ≤ height)
unfolding clamp_u32
osk_height-range height high low = (ground arith, ground arith)

osk_config :
    (width height : ℕ) (c : SurfaceConfig)
    → surface_config_for_mode osk width height ≡ some c
    → (osk_height height ≡ c.height) × (width ≡ c.width)
unfolding surface_config_for_mode mode_config
osk_config width height c h =
    let sized = require-eq-some (not (width == 0 || height == 0)) _ h in
    let same = some-inj sized.1 in
    (ap (λ (s : SurfaceConfig). s.height) same, ap (λ (s : SurfaceConfig). s.width) same)

-- On an output of at least 260 and less than 2 ^ 31 rows, the keyboard's surface is no higher than the
-- output, and every key of it lies inside it.
pub keyboard_surface_keys :
    (width height key : ℕ) (c : SurfaceConfig) (r : Rect)
    → 260 ≤ height
    → height < 2 ^ 31
    → surface_config_for_mode osk width height ≡ some c
    → osk_key_rect c.width c.height key ≡ some r
    → (c.height ≤ height) × IsInside c.width c.height r
keyboard_surface_keys width height key c r high low at h =
    let config = osk_config width height c at in
    let range = osk_height-range height high low in
    let tall : 260 ≤ c.height = omega (arith, config.0, range) in
    (omega (arith, config.0, range), osk_key_rect-IsInside c.width c.height key r tall h)

short_osk_height : (height : ℕ) → 0 < height → height < 260 → osk_height height ≡ 260
unfolding clamp_u32
short_osk_height height some_height low = ground arith

-- On a lower output the keyboard's surface is 260 rows high, more than the output has.
pub short_output_keyboard :
    (width height : ℕ) (c : SurfaceConfig)
    → 0 < height
    → height < 260
    → surface_config_for_mode osk width height ≡ some c
    → (c.height ≡ 260) × (height < c.height)
short_output_keyboard width height c some_height low at =
    let config = osk_config width height c at in
    let short = short_osk_height height some_height low in
    (omega (arith, config.0, short), omega (arith, config.0, short))
