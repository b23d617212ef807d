-- ===== src/Bridge.antt =====
-- The state that the compositor sends to the shell's clients, compositor/src/shell/shell_bridge.c: the frame's
-- fields in order, the write loop, and the names of compositor/include/lumo/compositor.h. What "%.2f" prints of a
-- double is given as text.
pub mod Entries
pub mod Strings
pub mod Headers
pub mod Delivery
pub mod Writing
pub mod Clients
pub mod Names
pub mod Desk
pub mod Targets
pub mod Requests
pub mod Windows
pub mod Keeps
pub mod RequestKeeps
pub mod Launches
pub mod Serving
pub mod Traffic
pub mod Answers
pub mod Results
pub mod Answered
pub mod Reads
pub mod GoHome
use lumo_compositor.Base.{
  ℕ, zero, suc, ◌+◌, ◌-◌, ◌%◌, ◌^◌, ◌≤◌, ◌<◌, Bool, true, false, not, ◌&&◌, ◌||◌, List, [], ◌∷◌,
  ◌++◌, Option, none, some, ltb, leb, ◌==◌, if◌then◌else◌, length, take, ◌>>=◌, ◌>>◌, require,
}
use lumo_compositor.CString.{Bytes, codes, decimal, snprintf_text, uint32_mod}
use lumo_compositor.Frame.{
  Frame, event, frame_init, frame_add_field, frame_add_bool, frame_add_u32, frame_add_string,
  frame_format,
}
use lumo_compositor.Ui.{Ui, Scrim, hidden, dimmed, modal, Notification}
use lumo_compositor.Ui.Audit.{Audit}

pub data Rotation : Type 0 where
  rotation_normal rotation_90 rotation_180 rotation_270 : Rotation

unfoldable pub rotation_name : Rotation → Bytes
rotation_name rotation_90 = codes "90"
rotation_name rotation_180 = codes "180"
rotation_name rotation_270 = codes "270"
rotation_name rotation_normal = codes "normal"

unfoldable pub scrim_state_name : Scrim → Bytes
scrim_state_name dimmed = codes "dimmed"
scrim_state_name modal = codes "modal"
scrim_state_name hidden = codes "hidden"

pub data HitboxKind : Type 0 where
  tile_hitbox osk_hitbox edge_hitbox scrim_hitbox custom_hitbox : HitboxKind

unfoldable pub hitbox_kind_name : HitboxKind → Bytes
hitbox_kind_name tile_hitbox = codes "launcher-tile"
hitbox_kind_name osk_hitbox = codes "osk-key"
hitbox_kind_name edge_hitbox = codes "edge-gesture"
hitbox_kind_name scrim_hitbox = codes "scrim"
hitbox_kind_name custom_hitbox = codes "custom"

-- What a touch is on: nothing, a hitbox of a kind, or a surface.
pub data DebugTarget : Type 0 where
  on_nothing on_surface : DebugTarget
  on_hitbox : HitboxKind → DebugTarget

unfoldable pub touch_target_kind_name : DebugTarget → Bytes
touch_target_kind_name (on_hitbox kind) = codes "hitbox"
touch_target_kind_name on_surface = codes "surface"
touch_target_kind_name on_nothing = codes "none"

abbrev pub debug_hitbox_name : DebugTarget → Bytes
debug_hitbox_name (on_hitbox kind) = hitbox_kind_name kind
debug_hitbox_name on_surface = codes "none"
debug_hitbox_name on_nothing = codes "none"

pub data SampleType : Type 0 where
  sample_down sample_motion sample_up sample_cancel : SampleType

unfoldable pub touch_sample_type_name : SampleType → Bytes
touch_sample_type_name sample_down = codes "down"
touch_sample_type_name sample_motion = codes "motion"
touch_sample_type_name sample_up = codes "up"
touch_sample_type_name sample_cancel = codes "cancel"

-- An application's window as the sidebar lists it; either string may be NULL.
pub record App : Type 0 where
  pub app_id : Option Bytes
  pub title : Option Bytes

-- The fields of lumo_compositor that are sent.
pub record Shell : Type 0 where
  pub ui : Ui
  pub audit : Audit
  pub apps : List App
  pub rotation : Rotation
  pub gesture_threshold : Bytes
  pub gesture_timeout_ms : ℕ
  -- the effective size of the first output, where it is positive
  pub output_size : Option (ℕ × ℕ)
  pub touch_debug_active : Bool
  -- none below zero
  pub touch_debug_id : Option ℕ
  pub touch_debug_x : Bytes
  pub touch_debug_y : Bytes
  pub touch_debug_phase : SampleType
  pub touch_debug_target : DebugTarget
  pub weather_condition : Bytes
  -- weather_code and weather_temp_c + 100 as uint32_t
  pub weather_code : ℕ
  pub weather_temp : ℕ
  pub weather_humidity : Bytes
  pub weather_wind : Bytes
  pub volume_pct : ℕ
  pub brightness_pct : ℕ
  pub toast_time_ms : ℕ
  pub toast_duration_ms : ℕ

-- One call that adds a field; the answer of a `tried` one is not looked at.
pub data Entry : Type 0 where
  flag : Bytes → Bool → Entry
  number : Bytes → ℕ → Entry
  text printed tried_text : Bytes → Bytes → Entry
  tried_number : Bytes → ℕ → Entry

-- frame_add_double, behind its "%.2f" into 32 bytes.
unfoldable pub frame_add_printed : Frame → Bytes → Bytes → Option Frame
frame_add_printed frame key value =
    if leb 32 (length value) then none else frame_add_field frame key value

abbrev pub keep : Frame → Option Frame → Frame
keep frame none = frame
keep frame (some changed) = changed

unfoldable pub add_entry : Entry → Frame → Option Frame
add_entry (flag key value) f = frame_add_bool f key value
add_entry (number key value) f = frame_add_u32 f key value
add_entry (text key value) f = frame_add_string f key value
add_entry (printed key value) f = frame_add_printed f key value
add_entry (tried_text key value) f = some (keep f (frame_add_string f key value))
add_entry (tried_number key value) f = some (keep f (frame_add_u32 f key value))

unfoldable pub add_entries : List Entry → Frame → Option Frame
unfolding add_entry
add_entries [] f = some f
add_entries (e ∷ es) f = do more ← add_entry e f; add_entries es more

abbrev pub or_text : Bytes → Bytes → Bytes
or_text [] other = other
or_text (c ∷ cs) other = c ∷ cs

abbrev pub string_or : Option Bytes → Bytes → Bytes
string_or none other = other
string_or (some string) other = string

-- At most sixteen windows, with their number behind them.
abbrev pub app_entries : ℕ → ℕ → List App → List Entry
app_entries n zero apps = tried_number (codes "running_app_count") n ∷ []
app_entries n (suc room) [] = tried_number (codes "running_app_count") n ∷ []
app_entries n (suc room) (app ∷ apps) =
    tried_text (snprintf_text 32 (codes "running_app_" ++ decimal n))
      (string_or app.app_id (codes "unknown"))
    ∷ tried_text (snprintf_text 32 (codes "running_title_" ++ decimal n)) (string_or app.title [])
    ∷ app_entries (n + 1) room apps

abbrev pub notification_entries : ℕ → List Notification → List Entry
notification_entries i [] = []
notification_entries i (n ∷ ns) =
    text (snprintf_text 24 (codes "notif_" ++ decimal i)) n.text ∷ notification_entries (i + 1) ns

abbrev pub visible_entries : Ui → List Entry
visible_entries ui =
    flag (codes "launcher_visible") ui.launcher_visible
    ∷ flag (codes "keyboard_visible") ui.keyboard_visible
    ∷ flag (codes "osk_shift") ui.osk_shift_active
    ∷ number (codes "osk_page") ui.osk_page
    ∷ flag (codes "quick_settings_visible") ui.quick_settings_visible
    ∷ flag (codes "time_panel_visible") ui.time_panel_visible
    ∷ flag (codes "notification_panel_visible") ui.notification_panel_visible
    ∷ flag (codes "sidebar_visible") ui.sidebar_visible
    ∷ []

abbrev pub gesture_entries : Shell → List Entry
gesture_entries s =
    text (codes "scrim_state") (scrim_state_name s.ui.scrim_state)
    ∷ text (codes "rotation") (rotation_name s.rotation)
    ∷ printed (codes "gesture_threshold") s.gesture_threshold
    ∷ number (codes "gesture_timeout_ms") s.gesture_timeout_ms
    ∷ flag (codes "keyboard_resize_pending") s.ui.keyboard_resize_pending
    ∷ number (codes "keyboard_resize_serial") s.ui.keyboard_resize_serial
    ∷ flag (codes "keyboard_resize_acked") s.ui.keyboard_resize_acked
    ∷ []

abbrev pub audit_entries : Shell → List Entry
audit_entries s =
    flag (codes "touch_audit_active") s.ui.touch_audit_active
    ∷ number (codes "touch_audit_step") s.audit.step
    ∷ number (codes "touch_audit_completed_mask") s.audit.completed_mask
    ∷ flag (codes "touch_audit_saved") s.audit.saved
    ∷ text (codes "touch_audit_profile") (or_text s.audit.profile_name (codes "none"))
    ∷ []

abbrev pub output_entries : Option (ℕ × ℕ) → List Entry
output_entries none = []
output_entries (some (width, height)) =
    number (codes "output_width") width ∷ number (codes "output_height") height ∷ []

abbrev pub debug_id : Option ℕ → ℕ
debug_id none = uint32_mod - 1
debug_id (some id) = id

abbrev pub debug_entries : Shell → List Entry
debug_entries s =
    flag (codes "touch_debug_active") s.touch_debug_active
    ∷ number (codes "touch_debug_id") (debug_id s.touch_debug_id)
    ∷ printed (codes "touch_debug_x") s.touch_debug_x
    ∷ printed (codes "touch_debug_y") s.touch_debug_y
    ∷ text (codes "touch_debug_phase") (touch_sample_type_name s.touch_debug_phase)
    ∷ text (codes "touch_debug_target") (touch_target_kind_name s.touch_debug_target)
    ∷ text (codes "touch_debug_hitbox") (debug_hitbox_name s.touch_debug_target)
    ∷ []

abbrev pub weather_entries : Shell → List Entry
weather_entries s =
    text (codes "weather_condition") (or_text s.weather_condition (codes "unknown"))
    ∷ number (codes "weather_code") s.weather_code
    ∷ number (codes "weather_temp") s.weather_temp
    ∷ text (codes "weather_humidity") (or_text s.weather_humidity (codes "--"))
    ∷ text (codes "weather_wind") (or_text s.weather_wind (codes "--"))
    ∷ number (codes "volume_pct") s.volume_pct
    ∷ number (codes "brightness_pct") s.brightness_pct
    ∷ text (codes "toast_msg") (or_text s.ui.toast_message (codes "-"))
    ∷ number (codes "toast_time") (s.toast_time_ms % uint32_mod)
    ∷ number (codes "toast_dur") s.toast_duration_ms
    ∷ []

-- The first eight of the notifications, with their number in front.
abbrev pub shown_notifications : Ui → List Notification
shown_notifications ui = take 8 ui.notifications

abbrev pub later_entries : Shell → List Entry
later_entries s =
    number (codes "notification_count") (length (shown_notifications s.ui))
      ∷ notification_entries 0 (shown_notifications s.ui)
    ++ (gesture_entries s
        ++ (audit_entries s
            ++ (output_entries s.output_size ++ (debug_entries s ++ weather_entries s))))

abbrev pub state_entries : Shell → List Entry
state_entries s = visible_entries s.ui ++ (app_entries 0 16 s.apps ++ later_entries s)

unfoldable pub build_state_frame : Shell → Option Frame
unfolding add_entries
build_state_frame s = do
  frame ← frame_init event (codes "state") 0
  add_entries (state_entries s) frame

-- The texts for a new client and for all clients: none when they do not fit their buffers.
unfoldable pub snapshot_text : Shell → Option Bytes
unfolding build_state_frame
snapshot_text s = do frame ← build_state_frame s; frame_format frame 1024

unfoldable pub broadcast_text : Shell → Option Bytes
unfolding build_state_frame
broadcast_text s = do frame ← build_state_frame s; frame_format frame 2048
