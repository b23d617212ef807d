-- ===== src/Layout/Panels.antt =====
-- The panels, buttons and markers of compositor/src/shell/shell_ui.c.
use lumo_compositor.Base.{
  ℕ, ◌+◌, ◌-◌, ◌*◌, ◌/◌, ◌%◌, not, ◌||◌, Option, some, ltb, leb, ◌==◌, ◌>>=◌, ◌>>◌, require,
}
use lumo_compositor.CString.{uint32_mod}
use lumo_compositor.Layout.{Rect, clamp_u32, min_u32, max_u32}
use lumo_compositor.Layout.Signed.{pos, difference, half, SignedRect}

abbrev panel_inset : ℕ → ℕ
panel_inset width = clamp_u32 (width / 24) 24 64

abbrev panel_bottom : ℕ → ℕ
panel_bottom height = clamp_u32 (height / 28) 18 40

abbrev panel_top : ℕ → ℕ
panel_top height = clamp_u32 (height / 18) 36 84

-- lumo_shell_launcher_panel_geometry
unfoldable pub launcher_panel_rect : ℕ → ℕ → Option Rect
launcher_panel_rect width height = do
  require (not (width == 0 || height == 0))
  require (
      not
        (leb width (panel_inset width * 2) || leb height (panel_top height + panel_bottom height)))
  some (record {
    x = panel_inset width;
    y = panel_top height;
    width = width - panel_inset width * 2;
    height = height - panel_top height - panel_bottom height;
  })

abbrev close_size : ℕ → ℕ
close_size width = clamp_u32 (width / 20) 44 60

unfoldable pub launcher_close_rect : ℕ → ℕ → Option SignedRect
launcher_close_rect width height = do
  panel ← launcher_panel_rect width height
  some (record {
    left = difference (panel.x + panel.width) (close_size width + 16);
    top = pos (panel.y + 12);
    width = close_size width;
    height = close_size width;
  })

-- The width of the search bar: two fifths of the panel, from 280 to 500, less than the panel by 32.
abbrev search_bar_width : ℕ → ℕ
search_bar_width panel_width =
    min_u32 (min_u32 (max_u32 (panel_width * 2 / 5) 280) 500) (panel_width - 32)

unfoldable pub search_bar_rect : ℕ → ℕ → Option Rect
search_bar_rect width height = do
  panel ← launcher_panel_rect width height
  require (not (search_bar_width panel.width == 0))
  some (record {
    x = panel.x + (panel.width - search_bar_width panel.width) / 2;
    y = panel.y + 18;
    width = search_bar_width panel.width;
    height = 40;
  })

-- The width of a drop-down panel: a part of the output, at least `least`, with a margin of 16.
abbrev pub dropdown_width : ℕ → ℕ → ℕ → ℕ
dropdown_width part least width = min_u32 (max_u32 part least) (width - 16)

unfoldable pub quick_settings_panel_rect : ℕ → ℕ → Option Rect
quick_settings_panel_rect width height = do
  require (not (width == 0 || leb height 56))
  require (not (dropdown_width (width / 2) 200 width == 0))
  some (record {
    x = width - dropdown_width (width / 2) 200 width - 8;
    y = 52;
    width = dropdown_width (width / 2) 200 width;
    height = height - 56;
  })

unfoldable pub time_panel_rect : ℕ → ℕ → Option Rect
time_panel_rect width height = do
  require (not (width == 0 || leb height 56))
  require (not (dropdown_width (width / 2) 240 width == 0))
  some (record {
    x = (width - dropdown_width (width / 2) 240 width) / 2;
    y = 52;
    width = dropdown_width (width / 2) 240 width;
    height = 220;
  })

unfoldable pub notification_panel_rect : ℕ → ℕ → Option Rect
notification_panel_rect width height = do
  require (not (width == 0 || leb height 56))
  require (not (dropdown_width (width / 3) 220 width == 0))
  some
      (record { x = 8; y = 52; width = dropdown_width (width / 3) 220 width; height = height - 56 })

abbrev pub half_button_width : Rect → ℕ
half_button_width panel = (panel.width - 36) / 2

unfoldable pub quick_settings_button_rect : ℕ → ℕ → ℕ → Option Rect
quick_settings_button_rect width height button = do
  require (not (ltb 3 button))
  panel ← quick_settings_panel_rect width height
  require (not (half_button_width panel == 0))
  some (record {
    x = panel.x + 12 + button % 2 * (half_button_width panel + 12);
    y = panel.y + 222 + button / 2 * (28 + 8);
    width = half_button_width panel;
    height = 28;
  })

abbrev pub handle_width : ℕ → ℕ
handle_width width = clamp_u32 (width / 5) 112 220

abbrev pub handle_height : ℕ → ℕ
handle_height height = clamp_u32 (height / 3) 8 14

-- Both subtractions are on uint32_t, and wrap below zero.
unfoldable pub gesture_handle_rect : ℕ → ℕ → Option Rect
gesture_handle_rect width height = do
  require (not (width == 0 || height == 0))
  some (record {
    x = (width + uint32_mod - handle_width width) % uint32_mod / 2;
    y = (height + uint32_mod - handle_height height) % uint32_mod / 2;
    width = handle_width width;
    height = handle_height height;
  })

abbrev status_height : ℕ → ℕ
status_height height = min_u32 (max_u32 (height / 18) 32) 48

abbrev pub app_top : ℕ → ℕ → ℕ
app_top height app = status_height height + 12 + app * (48 + 8)

unfoldable pub sidebar_app_rect : ℕ → ℕ → ℕ → Option SignedRect
sidebar_app_rect width height app = do
  require (not (width == 0 || height == 0))
  require (not (ltb (height - 60) (app_top height app + 48)))
  some (record {
    left = half (difference width 48);
    top = pos (app_top height app);
    width = 48;
    height = 48;
  })

unfoldable pub sidebar_drawer_button_rect : ℕ → ℕ → Option SignedRect
sidebar_drawer_button_rect width height = do
  require (not (width == 0 || ltb height 80))
  some (record {
    left = half (difference width 48);
    top = pos (height - 48 - 12);
    width = 48;
    height = 48;
  })
