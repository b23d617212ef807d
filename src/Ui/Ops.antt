-- ===== src/Ui/Ops.antt =====
-- What can happen to the shell's state, as a list of operations: the setters, the timer, the text
-- inputs, the on-screen keys, the audit, the edge gestures, the focus of a touched window and the scrim.
use lumo_compositor.Base.{ℕ, Bool, List, [], ◌∷◌, true, false, Option}
use lumo_compositor.CString.{Bytes}
use lumo_compositor.Ui.{
  Ui, Scrim, Toplevel, hidden, set_scrim_state, set_launcher_visible, set_keyboard_visible,
  set_quick_settings_visible, set_time_panel_visible, set_notification_panel_visible,
  set_sidebar_visible, sidebar_timeout, ack_keyboard_resize, osk_toggle_page, osk_set_page,
}
use lumo_compositor.Ui.TextInput.{
  TextInput, refresh_keyboard_visibility, text_input_enable, text_input_commit, focus_surface,
}
use lumo_compositor.Ui.Notifications.{push_notification}
use lumo_compositor.Ui.Audit.{audit_ui}
use lumo_compositor.Ui.Osk.{commit_osk_text}
use lumo_compositor.Ui.Edges.{Edge, Third, edge_action}

pub data Op : Type 0 where
  launcher keyboard quick_settings time_panel notification_panel sidebar audit : Bool → Op
  timer_fires enable_text : Op
  commit_text : Bool → Op
  refresh_text : Bool → List TextInput → Op
  ack_resize : ℕ → Op
  notify : Bytes → ℕ → Op
  toggle_page : Op
  set_page : ℕ → Op
  gesture : Edge → Third → Op
  press_key : Bool → Bool → ℕ → Op
  focus : Option Bytes → Op
  scrim : Scrim → Op

-- Whether an operation sets the scrim by itself, as set_scrim_state, the home request and the
-- requests that show or hide windows do.
abbrev pub sets_scrim : Op → Bool
sets_scrim (scrim s) = true
sets_scrim _ = false

unfoldable pub apply : Op → Ui → Ui
apply (launcher v) ui = set_launcher_visible v ui
apply (keyboard v) ui = set_keyboard_visible v ui
apply (quick_settings v) ui = set_quick_settings_visible v ui
apply (time_panel v) ui = set_time_panel_visible v ui
apply (notification_panel v) ui = set_notification_panel_visible v ui
apply (sidebar v) ui = set_sidebar_visible v ui
apply (audit v) ui = audit_ui v ui
apply timer_fires ui = sidebar_timeout ui
apply enable_text ui = text_input_enable ui
apply (commit_text e) ui = text_input_commit e ui
apply (refresh_text seat inputs) ui = refresh_keyboard_visibility seat inputs ui
apply (ack_resize serial) ui = ack_keyboard_resize serial ui
apply (notify text time) ui = push_notification text time ui
apply toggle_page ui = osk_toggle_page ui
apply (set_page n) ui = osk_set_page n ui
apply (gesture edge third) ui = edge_action edge third ui
apply (press_key input keys index) ui = (commit_osk_text input keys index ui).ui
apply (focus app_id) ui = focus_surface app_id ui
apply (scrim s) ui = set_scrim_state s ui

unfoldable pub run : List Op → Ui → Ui
run [] ui = ui
run (o ∷ os) ui = run os (apply o ui)

-- A new compositor is zeroed; its windows and its event loop are given.
abbrev pub initial : Bool → List Toplevel → Ui
initial timers windows = record {
  launcher_visible = false;
  keyboard_visible = false;
  quick_settings_visible = false;
  time_panel_visible = false;
  notification_panel_visible = false;
  sidebar_visible = false;
  sidebar_timer = false;
  timer_available = timers;
  notifications = [];
  scrim_state = hidden;
  keyboard_resize_serial = 0;
  keyboard_resize_pending = false;
  keyboard_resize_acked = false;
  keyboard_auto_shown = false;
  osk_shift_active = false;
  osk_page = 0;
  toast_message = [];
  touch_audit_active = false;
  toplevels = windows;
  layer_config_dirty = false;
  state_dirty = false;
  effects = [];
}
