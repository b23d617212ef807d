-- ===== src/Remote.antt =====
-- The shell client's copy of the compositor's state, struct lumo_shell_client of
-- compositor/src/shell/shell_client_internal.h, and how compositor/src/shell/shell_protocol_client.c reads a field of a
-- frame into it.
pub mod Apply
pub mod Gestures
pub mod State
pub mod Pump
pub mod Follows
pub mod Redraws
pub mod Senders
pub mod Sent
pub mod Served
pub mod SentApps
pub mod Weather
pub mod Points
pub mod Hand
pub mod Asks
pub mod Release
pub mod Perform
pub mod HandKeeps
pub mod Levels
pub mod Events
pub mod Presses
pub mod Pages
pub mod Taps
use lumo_compositor.Base.{
  ℕ, zero, suc, ◌+◌, Bool, true, false, not, ◌&&◌, ◌||◌, Option, none, some, List, [], ◌∷◌, ltb,
  leb, ◌==◌, if◌then◌else◌, ◌>>=◌,
}
use lumo_compositor.CString.{Bytes, codes, str_eq}
use lumo_compositor.Layout.Modes.{
  ShellMode, launcher, osk, gesture, status, background, sidebar, TouchPhase, TouchTarget,
}
use lumo_compositor.Layout.Signed.{ℤ, pos, negsuc}
use lumo_compositor.Ui.{Scrim, hidden, dimmed, modal}

-- The fields that a state frame changes or that decide what it changes. A double is of type `D`.
pub record Remote (D : Type 0) : Type 0 where
  pub mode : ShellMode
  pub unified : Bool
  -- whether the layer surface and its surface are there
  pub has_surface : Bool
  pub launcher_visible : Bool
  pub keyboard_visible : Bool
  pub osk_shift_active : Bool
  -- lumo_shell_osk_page of this process
  pub osk_page : ℕ
  pub quick_settings_visible : Bool
  pub time_panel_visible : Bool
  pub notification_panel_visible : Bool
  pub sidebar_visible : Bool
  pub search_active : Bool
  pub search_query : Bytes
  pub notification_count : ℕ
  pub notifications : ℕ → Bytes
  pub running_app_count : ℕ
  pub running_app_ids : ℕ → Bytes
  pub running_app_titles : ℕ → Bytes
  pub scrim_state : Scrim
  pub rotation_degrees : ℕ
  pub gesture_threshold : D
  pub gesture_timeout_ms : ℕ
  pub keyboard_resize_pending : Bool
  pub keyboard_resize_acked : Bool
  pub keyboard_resize_serial : ℕ
  pub touch_audit_active : Bool
  pub touch_audit_saved : Bool
  pub touch_audit_step : ℕ
  pub touch_audit_completed_mask : ℕ
  pub touch_audit_profile : Bytes
  pub touch_debug_seen : Bool
  pub touch_debug_active : Bool
  pub touch_debug_id : ℕ
  pub touch_debug_x : D
  pub touch_debug_y : D
  pub touch_debug_phase : TouchPhase
  pub touch_debug_target : TouchTarget
  pub output_width_hint : ℕ
  pub output_height_hint : ℕ
  pub weather_condition : Bytes
  pub weather_humidity : Bytes
  pub weather_wind : Bytes
  -- weather_code as the uint32_t that it came as
  pub weather_code : ℕ
  pub weather_temp_c : ℤ
  pub volume_pct : ℕ
  pub brightness_pct : ℕ
  pub toast_message : Bytes
  pub toast_time_low : ℕ
  pub toast_duration_ms : ℕ
  pub next_request_id : ℕ

-- lumo_shell_client_should_be_visible of compositor/src/shell/shell_client.c
unfoldable pub should_be_visible : {D : Type 0} → ShellMode → Remote D → Bool
should_be_visible launcher r =
    r.launcher_visible || r.touch_audit_active || r.quick_settings_visible || r.time_panel_visible
    || r.notification_panel_visible
should_be_visible osk r = r.keyboard_visible
should_be_visible gesture r = true
should_be_visible status r = true
should_be_visible background r = true
should_be_visible sidebar r = r.sidebar_visible

unfoldable pub remote_scrim_parse : Bytes → Option Scrim
unfolding str_eq
remote_scrim_parse value =
    if str_eq value (codes "hidden")
    then some hidden
    else if str_eq value (codes "dimmed")
    then some dimmed
    else if str_eq value (codes "modal")
    then some modal
    else none

unfoldable pub remote_rotation_parse : Bytes → Option ℕ
unfolding str_eq
remote_rotation_parse value =
    if str_eq value (codes "normal") || str_eq value (codes "0")
    then some 0
    else if str_eq value (codes "90")
    then some 90
    else if str_eq value (codes "180")
    then some 180
    else if str_eq value (codes "270")
    then some 270
    else none

-- What a field that is there and valid leaves in a variable.
abbrev pub read_or : {A : Type 0} → Option A → A → A
read_or none old = old
read_or (some new) old = new

-- Whether it is there.
abbrev pub is_read : {A : Type 0} → Option A → Bool
is_read none = false
is_read (some new) = true

-- Whether it is there and not what the variable held.
abbrev pub differs : {A : Type 0} → (A → A → Bool) → Option A → A → Bool
differs equal none old = false
differs equal (some new) old = not (equal old new)
