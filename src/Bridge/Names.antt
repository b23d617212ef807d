-- ===== src/Bridge/Names.antt =====
-- The names that a request may carry: lumo_rotation_parse and lumo_scrim_state_parse of
-- compositor/include/lumo/compositor.h, lumo_shell_target_kind_parse of compositor/include/lumo/shell.h.
use lumo_compositor.Base.{Bool, ◌||◌, Option, none, some, ◌≡◌, refl, if◌then◌else◌}
use lumo_compositor.CString.{Bytes, codes, str_eq}
use lumo_compositor.Layout.Modes.{
  TargetKind, launcher_tile, launcher_close, osk_key, gesture_handle, sidebar_app,
  sidebar_drawer_btn, no_target, target_kind_name,
}
use lumo_compositor.Ui.{Scrim, hidden, dimmed, modal}
use lumo_compositor.Bridge.{
  Rotation, rotation_normal, rotation_90, rotation_180, rotation_270, rotation_name,
  scrim_state_name,
}

unfoldable pub rotation_parse : Bytes → Option Rotation
unfolding str_eq
rotation_parse value =
    if str_eq value (codes "normal") || str_eq value (codes "0")
    then some rotation_normal
    else if str_eq value (codes "90")
    then some rotation_90
    else if str_eq value (codes "180")
    then some rotation_180
    else if str_eq value (codes "270")
    then some rotation_270
    else none

unfoldable pub scrim_state_parse : Bytes → Option Scrim
unfolding str_eq
scrim_state_parse value =
    if str_eq value (codes "hidden")
    then some hidden
    else if str_eq value (codes "dimmed")
    then some dimmed
    else if str_eq value (codes "modal")
    then some modal
    else none

-- One of two spellings.
abbrev either_text : Bytes → Bytes → Bytes → Bool
either_text value a b = str_eq value a || str_eq value b

unfoldable pub target_kind_parse : Bytes → Option TargetKind
unfolding str_eq
target_kind_parse value =
    if either_text value (codes "launcher-tile") (codes "launcher_tile")
      || str_eq value (codes "tile")
    then some launcher_tile
    else if either_text value (codes "launcher-close") (codes "launcher_close")
    then some launcher_close
    else if either_text value (codes "osk-key") (codes "osk_key")
    then some osk_key
    else if either_text value (codes "gesture-handle") (codes "gesture_handle")
    then some gesture_handle
    else if either_text value (codes "sidebar-app") (codes "sidebar_app")
    then some sidebar_app
    else if either_text value (codes "sidebar-drawer-btn") (codes "sidebar_drawer_btn")
    then some sidebar_drawer_btn
    else if str_eq value (codes "none")
    then some no_target
    else none

pub rotation_parse-rotation_name : (r : Rotation) → rotation_parse (rotation_name r) ≡ some r
unfolding rotation_parse rotation_name
rotation_parse-rotation_name rotation_normal = refl
rotation_parse-rotation_name rotation_90 = refl
rotation_parse-rotation_name rotation_180 = refl
rotation_parse-rotation_name rotation_270 = refl

pub scrim_state_parse-scrim_state_name :
    (s : Scrim) → scrim_state_parse (scrim_state_name s) ≡ some s
unfolding scrim_state_parse scrim_state_name
scrim_state_parse-scrim_state_name hidden = refl
scrim_state_parse-scrim_state_name dimmed = refl
scrim_state_parse-scrim_state_name modal = refl

pub target_kind_parse-target_kind_name :
    (k : TargetKind) → target_kind_parse (target_kind_name k) ≡ some k
unfolding target_kind_parse target_kind_name
target_kind_parse-target_kind_name launcher_tile = refl
target_kind_parse-target_kind_name launcher_close = refl
target_kind_parse-target_kind_name osk_key = refl
target_kind_parse-target_kind_name gesture_handle = refl
target_kind_parse-target_kind_name sidebar_app = refl
target_kind_parse-target_kind_name sidebar_drawer_btn = refl
target_kind_parse-target_kind_name no_target = refl
