-- ===== src/Tests/Panels.antt =====
-- The panels of the shell on concrete sizes.
use lumo_compositor.Base.{◌≡◌, refl, some}
use lumo_compositor.Layout.{Rect, clamp_u32, max_u32, min_u32}
use lumo_compositor.Layout.Signed.{SignedRect, pos, difference, half}
use lumo_compositor.Layout.Panels.{
  quick_settings_panel_rect, quick_settings_button_rect, sidebar_app_rect,
  sidebar_drawer_button_rect, gesture_handle_rect,
}

abbrev pub quick_panel : Rect
quick_panel = record { x = 632; y = 52; width = 640; height = 744 }

abbrev settings_button : Rect
settings_button = record { x = 958; y = 310; width = 302; height = 28 }

pub quick_panel_at : quick_settings_panel_rect 1280 800 ≡ some quick_panel
unfolding quick_settings_panel_rect max_u32 min_u32
quick_panel_at = refl

settings_button_at : quick_settings_button_rect 1280 800 3 ≡ some settings_button
unfolding quick_settings_button_rect quick_settings_panel_rect max_u32 min_u32
settings_button_at = refl

abbrev third_icon : SignedRect
third_icon = record { left = pos 16; top = pos 168; width = 48; height = 48 }

abbrev drawer_button : SignedRect
drawer_button = record { left = pos 16; top = pos 740; width = 48; height = 48 }

third_icon_at : sidebar_app_rect 80 800 2 ≡ some third_icon
unfolding sidebar_app_rect half difference max_u32 min_u32
third_icon_at = refl

drawer_button_at : sidebar_drawer_button_rect 80 800 ≡ some drawer_button
unfolding sidebar_drawer_button_rect half difference
drawer_button_at = refl

abbrev handle : Rect
handle = record { x = 530; y = 18; width = 220; height = 14 }

handle_at : gesture_handle_rect 1280 50 ≡ some handle
unfolding gesture_handle_rect clamp_u32
handle_at = refl
