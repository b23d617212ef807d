-- ===== src/Layout/Markers.antt =====
-- The touch audit's markers: lumo_shell_touch_audit_point_rect of compositor/src/shell/shell_ui.c, and the search for
-- the marker that a touch hits in compositor/src/core/touch_audit.c.
use lumo_compositor.Base.{
  ℕ, zero, suc, ◌+◌, ◌/◌, Bool, false, not, ◌||◌, Option, none, some, leb, ◌==◌, if◌then◌else◌,
  ◌>>◌, require,
}
use lumo_compositor.Layout.{clamp_u32}
use lumo_compositor.Layout.Signed.{ℤ, difference, SignedRect}
use lumo_compositor.Layout.Modes.{audit_point_count}

abbrev pub marker_width : ℕ → ℕ
marker_width width = clamp_u32 (width / 8) 96 160

abbrev pub marker_height : ℕ → ℕ
marker_height height = clamp_u32 (height / 12) 54 92

abbrev pub marker_inset_x : ℕ → ℕ
marker_inset_x width = clamp_u32 (width / 12) 68 132

abbrev pub marker_inset_y : ℕ → ℕ
marker_inset_y height = clamp_u32 (height / 10) 54 116

-- A centre at the inset, in the middle, or at the inset from the far side, less half a marker.
pub data Along : Type 0 where
  near middle far : Along

unfoldable pub along : Along → ℕ → ℕ → ℕ → ℤ
along near size inset back = difference inset back
along middle size inset back = difference (size / 2) back
along far size inset back = difference size (inset + back)

-- The switch over enum lumo_shell_touch_audit_point.
unfoldable pub point_across : ℕ → Along
point_across point =
    if point == 0 || point == 3 || point == 5
    then near
    else if point == 1 || point == 6
    then middle
    else far

unfoldable pub point_down : ℕ → Along
point_down point = if leb point 2 then near else if leb point 4 then middle else far

abbrev pub marker_at : ℕ → ℕ → ℕ → SignedRect
marker_at width height point = record {
  left = along (point_across point) width (marker_inset_x width) (marker_width width / 2);
  top = along (point_down point) height (marker_inset_y height) (marker_height height / 2);
  width = marker_width width;
  height = marker_height height;
}

unfoldable pub audit_point_rect : ℕ → ℕ → ℕ → Option SignedRect
audit_point_rect width height point = do
  require (not (width == 0 || height == 0 || leb audit_point_count point))
  some (marker_at width height point)

abbrev pub is_hit : (SignedRect → Bool) → Option SignedRect → Bool
is_hit test none = false
is_hit test (some r) = test r

-- lumo_touch_audit_detect_point: the first marker that is hit, of `n` from `i` on.
unfoldable pub detect_from : (SignedRect → Bool) → ℕ → ℕ → ℕ → ℕ → Option ℕ
detect_from hit width height zero i = none
detect_from hit width height (suc n) i =
    let later = detect_from hit width height n (i + 1) in
    if is_hit hit (audit_point_rect width height i) then some i else later

unfoldable pub detect_point : (SignedRect → Bool) → ℕ → ℕ → Option ℕ
unfolding detect_from
detect_point hit width height = detect_from hit width height audit_point_count 0
