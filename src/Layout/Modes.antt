-- ===== src/Layout/Modes.antt =====
-- The names of compositor/src/shell/shell_ui.c: modes, targets, touch phases and audit markers.
use lumo_compositor.Base.{
  ℕ, ◌+◌, Bool, List, [], ◌∷◌, Option, none, some, leb, if◌then◌else◌, get_elem?, length,
}
use lumo_compositor.CString.{Bytes, codes, str_eq}

pub data ShellMode : Type 0 where
  launcher osk gesture status background sidebar : ShellMode

pub data TargetKind : Type 0 where
  no_target launcher_tile launcher_close osk_key gesture_handle sidebar_app sidebar_drawer_btn :
      TargetKind

pub data TouchPhase : Type 0 where
  no_phase down motion up cancel : TouchPhase

pub data TouchTarget : Type 0 where
  no_touch_target hitbox surface : TouchTarget

unfoldable pub mode_name : ShellMode → Bytes
mode_name launcher = codes "launcher"
mode_name osk = codes "osk"
mode_name gesture = codes "gesture"
mode_name status = codes "status"
mode_name background = codes "background"
mode_name sidebar = codes "sidebar"

abbrev pub mode_count : ℕ
mode_count = 6

unfoldable pub mode_index : ShellMode → ℕ
mode_index launcher = 0
mode_index osk = 1
mode_index gesture = 2
mode_index status = 3
mode_index background = 4
mode_index sidebar = 5

unfoldable pub target_kind_name : TargetKind → Bytes
target_kind_name launcher_tile = codes "launcher-tile"
target_kind_name launcher_close = codes "launcher-close"
target_kind_name osk_key = codes "osk-key"
target_kind_name gesture_handle = codes "gesture-handle"
target_kind_name sidebar_app = codes "sidebar-app"
target_kind_name sidebar_drawer_btn = codes "sidebar-drawer-btn"
target_kind_name no_target = codes "none"

unfoldable pub touch_phase_name : TouchPhase → Bytes
touch_phase_name down = codes "down"
touch_phase_name motion = codes "motion"
touch_phase_name up = codes "up"
touch_phase_name cancel = codes "cancel"
touch_phase_name no_phase = codes "none"

unfoldable pub touch_phase_parse : Bytes → Option TouchPhase
touch_phase_parse value =
    if str_eq value (codes "down")
    then some down
    else if str_eq value (codes "motion")
    then some motion
    else if str_eq value (codes "up")
    then some up
    else if str_eq value (codes "cancel")
    then some cancel
    else if str_eq value (codes "none")
    then some no_phase
    else none

unfoldable pub touch_target_name : TouchTarget → Bytes
touch_target_name hitbox = codes "hitbox"
touch_target_name surface = codes "surface"
touch_target_name no_touch_target = codes "none"

unfoldable pub touch_target_parse : Bytes → Option TouchTarget
touch_target_parse value =
    if str_eq value (codes "hitbox")
    then some hitbox
    else if str_eq value (codes "surface")
    then some surface
    else if str_eq value (codes "none")
    then some no_touch_target
    else none

abbrev pub audit_names : List Bytes
audit_names =
    codes "top-left"
    ∷ codes "top-center"
    ∷ codes "top-right"
    ∷ codes "left-center"
    ∷ codes "right-center"
    ∷ codes "bottom-left"
    ∷ codes "bottom-center"
    ∷ codes "bottom-right"
    ∷ []

abbrev audit_labels : List Bytes
audit_labels =
    codes "TOP LEFT"
    ∷ codes "TOP"
    ∷ codes "TOP RIGHT"
    ∷ codes "LEFT"
    ∷ codes "RIGHT"
    ∷ codes "BOTTOM LEFT"
    ∷ codes "BOTTOM"
    ∷ codes "BOTTOM RIGHT"
    ∷ []

abbrev pub audit_point_count : ℕ
audit_point_count = length audit_names

unfoldable pub audit_point_name : ℕ → Option Bytes
audit_point_name point = if leb audit_point_count point then none else get_elem? audit_names point

unfoldable pub audit_point_label : ℕ → Option Bytes
audit_point_label point = if leb audit_point_count point then none else get_elem? audit_labels point

-- The index of the first name that is the region, counted from `i`.
unfoldable pub find_name : Bytes → List Bytes → ℕ → Option ℕ
find_name region [] i = none
find_name region (name ∷ names) i =
    let later = find_name region names (i + 1) in if str_eq region name then some i else later

unfoldable pub audit_point_for_region : Bytes → Option ℕ
unfolding find_name
audit_point_for_region region = find_name region audit_names 0

-- How long a mode's surface takes to open and to close.
unfoldable pub transition_duration_ms : ShellMode → Bool → ℕ
transition_duration_ms launcher visible = if visible then 200 else 150
transition_duration_ms osk visible = if visible then 300 else 200
transition_duration_ms sidebar visible = if visible then 200 else 150
transition_duration_ms gesture visible = 0
transition_duration_ms status visible = 0
transition_duration_ms background visible = 0
