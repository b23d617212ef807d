-- ===== src/Ui.antt =====
-- The compositor's shell state and its setters, compositor/src/protocol/protocol_setters.c, with the
-- keyboard's page of compositor/src/shell/shell_osk.c. The fields are those of lumo_compositor
-- (compositor/include/lumo/compositor.h) which the setters read and write; the calls into wlroots and
-- the refresh of the hitboxes are items of `effects`, in order. Every lumo_shell_state_broadcast_*
-- only marks the state dirty, lumo_shell_mark_state_dirty of compositor/src/shell/shell_bridge.c.
pub mod TextInput
pub mod Audit
pub mod Edges
pub mod Osk
pub mod Closed
pub mod OskKeeps
pub mod OskRefusals
pub mod Steady
pub mod OskLaws
pub mod Ops
pub mod Invariant
pub mod Resize
pub mod Notifications
pub mod Setters
pub mod Gestures
pub mod Traces
pub mod Panels
pub mod Home
use lumo_compositor.Base.{
  ℕ, zero, suc, ◌+◌, ◌%◌, ◌<◌, ◌≤◌, Bool, true, false, not, ◌&&◌, ◌||◌, List, [], ◌∷◌, ◌++◌, ltb,
  leb, ◌==◌, if◌then◌else◌, length, Option, none, some,
}
use lumo_compositor.CString.{Bytes, uint32_mod}

pub data Scrim : Type 0 where
  hidden dimmed modal : Scrim

pub data Effect : Type 0 where
  refresh_hitboxes : Effect
  schedule_frames : Effect
  osk_node : Bool → Effect
  start_timer : ℕ → Effect
  remove_timer : Effect
  send_close : ℕ → Effect
  clear_focus : Effect
  send_delete_surrounding : Effect
  send_commit_string : Bytes → Effect
  send_done : Effect
  -- a window's node is raised, and its surface takes the keyboard's focus
  raise_window focus_window : ℕ → Effect
  -- lumo_shell_launch_app
  launch : Bytes → Effect
  write_volume write_brightness : ℕ → Effect
  -- every output is turned, and the rotation's name is saved
  rotate_outputs save_rotation : Bytes → Effect
  capture_screenshot stop_session : Effect
  -- the time, the key's code, and whether it is pressed
  notify_key : ℕ → ℕ → Bool → Effect

-- One slot of `notifications` with its timestamp.
pub record Notification : Type 0 where
  pub text : Bytes
  pub time : ℕ

-- An application's window: its scene node is enabled while it shows.
pub record Toplevel : Type 0 where
  pub handle : ℕ
  pub enabled : Bool

pub record Ui : Type 0 where
  pub launcher_visible : Bool
  pub keyboard_visible : Bool
  pub quick_settings_visible : Bool
  pub time_panel_visible : Bool
  pub notification_panel_visible : Bool
  pub sidebar_visible : Bool
  -- sidebar_auto_hide_timer is not NULL
  pub sidebar_timer : Bool
  -- whether the event loop is there and gives a timer when asked
  pub timer_available : Bool
  pub notifications : List Notification
  pub scrim_state : Scrim
  pub keyboard_resize_serial : ℕ
  pub keyboard_resize_pending : Bool
  pub keyboard_resize_acked : Bool
  pub keyboard_auto_shown : Bool
  pub osk_shift_active : Bool
  pub osk_page : ℕ
  pub toast_message : Bytes
  pub touch_audit_active : Bool
  pub toplevels : List Toplevel
  pub layer_config_dirty : Bool
  -- state_broadcast_pending
  pub state_dirty : Bool
  pub effects : List Effect

abbrev pub emit : Effect → Ui → Ui
emit e ui = record ui { effects = ui.effects ++ e ∷ [] }

-- lumo_shell_mark_state_dirty
abbrev pub broadcast : Ui → Ui
broadcast ui = record ui { state_dirty = true }

-- lumo_protocol_mark_layers_dirty
abbrev pub mark_layers_dirty : Ui → Ui
mark_layers_dirty ui = emit schedule_frames (record ui { layer_config_dirty = true })

abbrev pub same : Bool → Bool → Bool
same true b = b
same false b = not b

abbrev pub osk_page_count : ℕ
osk_page_count = 3

-- lumo_shell_osk_toggle_page
unfoldable pub osk_toggle_page : Ui → Ui
osk_toggle_page ui = record ui { osk_page = (ui.osk_page + 1) % osk_page_count }

-- lumo_shell_osk_set_page
unfoldable pub osk_set_page : ℕ → Ui → Ui
osk_set_page page ui = if ltb page osk_page_count then record ui { osk_page = page } else ui

unfoldable pub set_scrim_state : Scrim → Ui → Ui
set_scrim_state state ui = broadcast (record ui { scrim_state = state })

-- `if (visible) … else if (!launcher_visible) …` of set_keyboard_visible
abbrev pub keyboard_scrim : Bool → Bool → Scrim → Scrim
keyboard_scrim true launcher old = dimmed
keyboard_scrim false launcher old = if launcher then old else hidden

abbrev pub keyboard_hidden : Bool → Ui → Ui
keyboard_hidden true ui = ui
keyboard_hidden false ui =
    osk_set_page 0 (record ui { keyboard_auto_shown = false; osk_shift_active = false })

unfoldable pub set_keyboard_visible : Bool → Ui → Ui
unfolding osk_set_page
set_keyboard_visible visible ui =
    let shown = keyboard_hidden visible (record ui { keyboard_visible = visible }) in
    let numbered = record shown {
      keyboard_resize_serial = (shown.keyboard_resize_serial + 1) % uint32_mod;
      keyboard_resize_pending = visible;
      keyboard_resize_acked = not visible;
    } in
    let placed = emit (osk_node visible) numbered in
    let dimming = record placed {
      scrim_state = keyboard_scrim visible placed.launcher_visible placed.scrim_state;
    } in
    if same ui.keyboard_visible visible
    then ui
    else mark_layers_dirty (emit refresh_hitboxes (broadcast dimming))

unfoldable pub ack_keyboard_resize : ℕ → Ui → Ui
ack_keyboard_resize serial ui =
    if ui.keyboard_resize_pending && ui.keyboard_resize_serial == serial
    then record ui { keyboard_resize_pending = false; keyboard_resize_acked = true }
    else ui

abbrev pub launcher_scrim : Bool → Bool → Scrim → Scrim
launcher_scrim true keyboard old = modal
launcher_scrim false keyboard old = if keyboard then old else hidden

unfoldable pub set_launcher_visible : Bool → Ui → Ui
set_launcher_visible visible ui =
    let opened = record ui {
      launcher_visible = visible;
      toast_message = if visible then ui.toast_message else [];
    } in
    let alone =
      if visible && opened.keyboard_visible then set_keyboard_visible false opened else opened in
    let covered = record alone {
      scrim_state = launcher_scrim visible alone.keyboard_visible alone.scrim_state;
    } in
    if same ui.launcher_visible visible
    then ui
    else mark_layers_dirty (emit refresh_hitboxes (broadcast covered))

unfoldable pub set_quick_settings_visible : Bool → Ui → Ui
set_quick_settings_visible visible ui =
    if same ui.quick_settings_visible visible
    then ui
    else mark_layers_dirty (broadcast (record ui { quick_settings_visible = visible }))

unfoldable pub set_time_panel_visible : Bool → Ui → Ui
set_time_panel_visible visible ui =
    if same ui.time_panel_visible visible
    then ui
    else mark_layers_dirty (broadcast (record ui { time_panel_visible = visible }))

unfoldable pub set_notification_panel_visible : Bool → Ui → Ui
set_notification_panel_visible visible ui =
    if same ui.notification_panel_visible visible
    then ui
    else mark_layers_dirty (broadcast (record ui { notification_panel_visible = visible }))

abbrev pub cancel_timer : Ui → Ui
cancel_timer ui =
    if ui.sidebar_timer then emit remove_timer (record ui { sidebar_timer = false }) else ui

abbrev pub arm_timer : Bool → Ui → Ui
arm_timer visible ui =
    if visible && ui.timer_available
    then emit (start_timer 10000) (record ui { sidebar_timer = true })
    else ui

unfoldable pub set_sidebar_visible : Bool → Ui → Ui
set_sidebar_visible visible ui =
    if same ui.sidebar_visible visible
    then ui
    else emit refresh_hitboxes (
        mark_layers_dirty
          (broadcast (arm_timer visible (cancel_timer (record ui { sidebar_visible = visible })))))

-- lumo_sidebar_auto_hide_timeout
unfoldable pub sidebar_timeout : Ui → Ui
sidebar_timeout ui =
    if ui.sidebar_visible
    then set_sidebar_visible false (record ui { sidebar_timer = false })
    else record ui { sidebar_timer = false }
