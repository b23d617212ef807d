-- ===== src/Remote/Points.antt =====
-- Where a finger or the pointer is, in compositor/src/shell/shell_input.c: wl_fixed_t coordinates, which a double holds
-- exactly, as signed numbers of 256ths of a pixel; the quick settings' buttons and sliders.
use lumo_compositor.Base.{
  ℕ, ◌+◌, ◌-◌, ◌*◌, ◌/◌, Bool, true, false, ◌&&◌, Option, none, some, ltb, leb, if◌then◌else◌,
}
use lumo_compositor.Layout.{Rect}
use lumo_compositor.Layout.Signed.{ℤ, pos, negsuc, difference, SignedRect, signed}
use lumo_compositor.Layout.Panels.{quick_settings_panel_rect, quick_settings_button_rect}

pub record Point : Type 0 where
  pub x : ℤ
  pub y : ℤ

-- Whether a coordinate is at least, at most or below so many pixels.
unfoldable pub from_pixel : ℤ → ℤ → Bool
from_pixel (pos a) (pos n) = leb (n * 256) a
from_pixel (negsuc a) (pos n) = false
from_pixel (pos a) (negsuc n) = true
from_pixel (negsuc a) (negsuc n) = leb (a + 1) ((n + 1) * 256)

unfoldable pub up_to_pixel : ℤ → ℤ → Bool
up_to_pixel (pos a) (pos n) = leb a (n * 256)
up_to_pixel (negsuc a) (pos n) = true
up_to_pixel (pos a) (negsuc n) = false
up_to_pixel (negsuc a) (negsuc n) = leb ((n + 1) * 256) (a + 1)

unfoldable pub below_pixel : ℤ → ℤ → Bool
unfolding from_pixel
below_pixel a n = if from_pixel a n then false else true

-- An int and a length.
abbrev pub moved : ℤ → ℕ → ℤ
moved (pos a) n = pos (a + n)
moved (negsuc a) n = difference n (a + 1)

-- lumo_rect_contains
unfoldable pub rect_contains : Point → SignedRect → Bool
unfolding from_pixel below_pixel
rect_contains p r =
    from_pixel p.x r.left
    && from_pixel p.y r.top
    && below_pixel p.x (moved r.left r.width)
    && below_pixel p.y (moved r.top r.height)

-- The cast to int, towards zero.
unfoldable pub truncated : ℤ → ℤ
truncated (pos a) = pos (a / 256)
truncated (negsuc a) = if ltb (a + 1) 256 then pos 0 else negsuc ((a + 1) / 256 - 1)

-- A coordinate less so many pixels.
abbrev pub less_pixels : ℤ → ℕ → ℤ
less_pixels (pos a) n = difference a (n * 256)
less_pixels (negsuc a) n = negsuc (a + n * 256)

pub data Button : Type 0 where
  no_button reload_button rotate_button screenshot_button volume_slider brightness_slider
        settings_button :
      Button

abbrev pub volume_top : ℕ
volume_top = 48 + 4 + 12 + 24 + 10 + 22 + 22 + 22 + 28 + 6

abbrev pub brightness_top : ℕ
brightness_top = volume_top + 32

abbrev pub track_left : Rect → ℕ
track_left panel = panel.x + 16

-- panel.width - 32, an int that is negative on a narrow output.
abbrev track_right : Rect → ℤ
track_right panel = difference (track_left panel + panel.width) 32

abbrev pub on_track : ℕ → Rect → Point → Bool
on_track top panel p =
    from_pixel p.y (pos top)
    && up_to_pixel p.y (pos (top + 20))
    && from_pixel p.x (pos (track_left panel))
    && up_to_pixel p.x (track_right panel)

abbrev on_button : Option Rect → Point → Bool
on_button none p = false
on_button (some r) p = rect_contains p (signed r)

abbrev pub on_quick_button : ℕ → ℕ → ℕ → Point → Bool
on_quick_button width height button p = on_button (quick_settings_button_rect width height button) p

unfoldable pub button_in : ℕ → ℕ → Option Rect → Point → Button
unfolding from_pixel up_to_pixel rect_contains
button_in width height none p = no_button
button_in width height (some panel) p =
    if on_track volume_top panel p
    then volume_slider
    else if on_track brightness_top panel p
    then brightness_slider
    else if on_quick_button width height 0 p
    then reload_button
    else if on_quick_button width height 1 p
    then rotate_button
    else if on_quick_button width height 2 p
    then screenshot_button
    else if on_quick_button width height 3 p
    then settings_button
    else no_button

-- lumo_shell_status_button_hit
unfoldable pub status_button_hit : Bool → ℕ → ℕ → Point → Button
unfolding button_in
status_button_hit quick_settings width height p =
    if quick_settings
    then button_in width height (quick_settings_panel_rect width height) p
    else no_button

abbrev pub clamp_track : ℤ → ℕ → ℕ
clamp_track (negsuc a) track = 0
clamp_track (pos a) track = if ltb track a then track else a

-- (int)x - track_x
abbrev pub along : ℤ → ℕ → ℤ
along (pos a) left = difference a left
along (negsuc a) left = negsuc (a + left)

-- lumo_shell_slider_pct_from_touch. The source divides by the track's width, which is above zero on an
-- output of more than 48 columns.
unfoldable pub slider_pct : Option Rect → ℤ → ℕ
unfolding truncated
slider_pct none x = 0
slider_pct (some panel) x =
    clamp_track (along (truncated x) (track_left panel)) (panel.width - 32)
    * 100
    / (panel.width - 32)
