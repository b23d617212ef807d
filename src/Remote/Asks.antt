-- ===== src/Remote/Asks.antt =====
-- What the end of a touch asks for: the choices of lumo_shell_touch_handle_up in
-- compositor/src/shell/shell_input.c, apart from the hand's state.
use lumo_compositor.Base.{
  ℕ, ◌+◌, ◌-◌, ◌/◌, Bool, false, ◌&&◌, ◌||◌, Option, none, some, ltb, ◌==◌, if◌then◌else◌,
}
use lumo_compositor.CString.{Bytes, codes, strstr}
use lumo_compositor.Layout.{Rect, clamp_u32}
use lumo_compositor.Layout.Signed.{ℤ, pos, negsuc, SignedRect, signed}
use lumo_compositor.Layout.Targets.{Target, page_count}
use lumo_compositor.Layout.Search.{filtered_tile_count}
use lumo_compositor.Remote.{Remote}
use lumo_compositor.Remote.Points.{
  Point, rect_contains, from_pixel, below_pixel, Button, no_button, reload_button, rotate_button,
  screenshot_button, volume_slider, brightness_slider, settings_button, slider_pct,
}

-- The request that a release sends: each stands for one of the senders.
pub data Action : Type 0 where
  ask_reload ask_cycle ask_screenshot ask_settings ask_keyboard ask_drawer ask_weather : Action
  ask_volume ask_brightness ask_focus ask_new_window ask_close : ℕ → Action
  ask_activate : Target → Action

abbrev pub can_be_many : Bytes → Bool
can_be_many aid = strstr aid (codes "terminal") || strstr aid (codes "browser")

abbrev pub status_height : ℕ → ℕ
status_height height = clamp_u32 (height / 18) 32 48

abbrev pub menu_height : Bool → ℕ
menu_height multi = if multi then 92 else 64

-- An icon's top edge is an int, which is at least 0.
abbrev pub above : ℤ → ℕ → ℕ
above (pos y) menu = y - menu
above (negsuc y) menu = 0

-- The menu stands above the icon, but below the status bar.
abbrev pub menu_top : ℕ → SignedRect → Bool → ℕ
menu_top height icon multi =
    let top = above icon.top (menu_height multi + 4) in
    if ltb top (status_height height + 4) then status_height height + 4 else top

-- The row of 28 pixels, which is 0 up to 27 pixels above the menu, and none further above.
abbrev pub row_of : ℤ → Option ℕ
row_of (pos y) = some (y / 28)
row_of (negsuc y) = if ltb (y + 1) 28 then some 0 else none

abbrev pub is_row : ℕ → Option ℕ → Bool
is_row row none = false
is_row row (some r) = r == row

abbrev pub menu_choice : Bool → Option ℕ → ℕ → Action
menu_choice multi row app =
    if is_row 0 row
    then ask_focus app
    else if multi && is_row 1 row
    then ask_new_window app
    else ask_close app

abbrev pub quick_action : Option Rect → ℤ → Button → Option Action
quick_action panel x no_button = none
quick_action panel x reload_button = some ask_reload
quick_action panel x rotate_button = some ask_cycle
quick_action panel x screenshot_button = some ask_screenshot
quick_action panel x volume_slider = some (ask_volume (slider_pct panel x))
quick_action panel x brightness_slider = some (ask_brightness (slider_pct panel x))
quick_action panel x settings_button = some ask_settings

abbrev pub in_some : Point → Option Rect → Bool
in_some p none = false
in_some p (some r) = rect_contains p (signed r)

-- The lower half of the time panel.
abbrev pub in_lower_half : Point → Option Rect → Bool
in_lower_half p none = false
in_lower_half p (some r) =
    from_pixel p.x (pos r.x)
    && below_pixel p.x (pos (r.x + r.width))
    && from_pixel p.y (pos (r.y + r.height / 2))
    && below_pixel p.y (pos (r.y + r.height))

abbrev pub searched : {D : Type 0} → Remote D → Option Bytes
searched r = if r.search_active then some r.search_query else none

abbrev pub last_page : {D : Type 0} → Remote D → ℕ
last_page r = page_count (filtered_tile_count (searched r)) - 1

-- Whether an offset is further to the left or to the right than a fifth of the width, which is a
-- product of doubles: an argument on its size.
abbrev pub to_left : (ℕ → ℕ → Bool) → ℕ → ℤ → Bool
to_left far width (pos a) = false
to_left far width (negsuc a) = far width (a + 1)

abbrev pub to_right : (ℕ → ℕ → Bool) → ℕ → ℤ → Bool
to_right far width (pos a) = far width a
to_right far width (negsuc a) = false

-- lumo_shell_client_activate_target
abbrev pub activation : Option Target → Option Action
activation none = none
activation (some t) = some (ask_activate t)
