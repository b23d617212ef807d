-- ===== src/Ui/Edges.antt =====
-- The edge gestures, lumo_input_touch_point_trigger_edge_action of compositor/src/core/input_touch.c.
-- The third of the output in which the touch went down is found with doubles, and is an argument.
use lumo_compositor.Base.{
  Bool, true, false, not, List, [], ◌∷◌, if◌then◌else◌, Option, none, some, map, ℕ,
}
use lumo_compositor.Ui.{
  Ui, Toplevel, send_close, clear_focus, hidden, emit, mark_layers_dirty, set_scrim_state,
  set_launcher_visible, set_keyboard_visible, set_quick_settings_visible, set_time_panel_visible,
  set_notification_panel_visible, set_sidebar_visible,
}
use lumo_compositor.Ui.Audit.{audit_ui}

pub data Edge : Type 0 where
  none_edge top left right bottom : Edge

pub data Third : Type 0 where
  left_third center_third right_third : Third

abbrev pub dismiss_launcher : Ui → Ui
dismiss_launcher ui = if ui.launcher_visible then set_launcher_visible false ui else ui

abbrev pub dismiss_notifications : Ui → Ui
dismiss_notifications ui =
    if ui.notification_panel_visible then set_notification_panel_visible false ui else ui

abbrev pub dismiss_time_panel : Ui → Ui
dismiss_time_panel ui = if ui.time_panel_visible then set_time_panel_visible false ui else ui

abbrev pub dismiss_quick_settings : Ui → Ui
dismiss_quick_settings ui =
    if ui.quick_settings_visible then set_quick_settings_visible false ui else ui

abbrev pub dismiss_sidebar : Ui → Ui
dismiss_sidebar ui = if ui.sidebar_visible then set_sidebar_visible false ui else ui

-- Close the other two panels, then toggle the one of the third.
top_panels : Third → Ui → Ui
top_panels left_third ui =
    let others = dismiss_quick_settings (dismiss_time_panel ui) in
    set_notification_panel_visible (not others.notification_panel_visible) others
top_panels center_third ui =
    let others = dismiss_quick_settings (dismiss_notifications ui) in
    set_time_panel_visible (not others.time_panel_visible) others
top_panels right_third ui =
    let others = dismiss_time_panel (dismiss_notifications ui) in
    set_quick_settings_visible (not others.quick_settings_visible) others

unfoldable pub edge_top : Third → Ui → Ui
unfolding top_panels
edge_top third ui = top_panels third (dismiss_launcher ui)

unfoldable pub edge_left : Ui → Ui
edge_left ui =
    if ui.touch_audit_active
    then audit_ui false ui
    else if ui.notification_panel_visible
    then set_notification_panel_visible false ui
    else if ui.time_panel_visible
    then set_time_panel_visible false ui
    else if ui.quick_settings_visible
    then set_quick_settings_visible false ui
    else if ui.launcher_visible
    then set_launcher_visible false ui
    else set_sidebar_visible true ui

abbrev pub dismiss_panels : Ui → Ui
dismiss_panels ui =
    dismiss_sidebar (dismiss_quick_settings (dismiss_time_panel (dismiss_notifications ui)))

-- The first enabled window, which is asked to close, and the windows once its node is disabled.
pub record Closing : Type 0 where
  pub front : ℕ
  pub windows : List Toplevel

abbrev pub behind_window : Toplevel → Option Closing → Option Closing
behind_window t none = none
behind_window t (some c) = some (record c { windows = t ∷ c.windows })

unfoldable pub close_first : List Toplevel → Option Closing
close_first [] = none
close_first (t ∷ ts) =
    let later = behind_window t (close_first ts) in
    if t.enabled
    then some (record { front = t.handle; windows = record t { enabled = false } ∷ ts })
    else later

-- After windows were closed: no focus, no scrim, and a redraw.
abbrev pub show_desktop : Ui → Ui
show_desktop ui = mark_layers_dirty (set_scrim_state hidden (emit clear_focus ui))

abbrev pub close_front : Option Closing → Ui → Ui
close_front none ui = ui
close_front (some c) ui =
    show_desktop (emit (send_close c.front) (record ui { toplevels = c.windows }))

-- The back gesture behind the panels: the keyboard, else the launcher, else the front window.
unfoldable pub back_layer : Ui → Ui
back_layer ui =
    if ui.keyboard_visible
    then set_keyboard_visible false ui
    else if ui.launcher_visible
    then set_launcher_visible false ui
    else close_front (close_first ui.toplevels) ui

unfoldable pub edge_right : Ui → Ui
edge_right ui = if ui.touch_audit_active then audit_ui false ui else back_layer (dismiss_panels ui)

unfoldable pub close_all : List Toplevel → Ui → Ui
close_all [] ui = ui
close_all (t ∷ ts) ui = close_all ts (emit (send_close t.handle) ui)

abbrev pub disable : Toplevel → Toplevel
disable t = record t { enabled = false }

abbrev pub close_windows : List Toplevel → Ui → Ui
close_windows [] ui = ui
close_windows (t ∷ ts) ui =
    show_desktop (record (close_all (t ∷ ts) ui) { toplevels = map disable (t ∷ ts) })

-- The home gesture behind the audit: the launcher with its keyboard, else the keyboard, else all
-- windows.
unfoldable pub home_layer : Ui → Ui
home_layer ui =
    let closed = set_launcher_visible false ui in
    let behind = dismiss_sidebar ui in
    if ui.launcher_visible
    then (if closed.keyboard_visible then set_keyboard_visible false closed else closed)
    else if behind.keyboard_visible
    then set_keyboard_visible false behind
    else close_windows behind.toplevels behind

unfoldable pub edge_bottom : Ui → Ui
edge_bottom ui = home_layer (if ui.touch_audit_active then audit_ui false ui else ui)

unfoldable pub edge_action : Edge → Third → Ui → Ui
edge_action none_edge third ui = ui
edge_action top third ui = edge_top third ui
edge_action left third ui = edge_left ui
edge_action right third ui = edge_right ui
edge_action bottom third ui = edge_bottom ui

-- The touch point's part: an action is triggered once, and the boot splash blocks it.
pub record Touch : Type 0 where
  pub capture_edge : Edge
  pub gesture_triggered : Bool

pub record Triggered : Type 0 where
  pub touch : Touch
  pub ui : Ui

unfoldable pub trigger_edge_action : Bool → Third → Touch → Ui → Triggered
trigger_edge_action booting third touch ui =
    let marked = record touch { gesture_triggered = true } in
    if touch.gesture_triggered
    then record { touch = touch; ui = ui }
    else if booting
    then record { touch = marked; ui = ui }
    else record { touch = marked; ui = edge_action touch.capture_edge third ui }
