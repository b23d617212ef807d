-- ===== src/Bridge/Windows.antt =====
-- The requests about the windows, and the choice among all requests by their name:
-- lumo_shell_bridge_handle_request_frame of compositor/src/shell/shell_bridge.c, and lumo_protocol_close_focused_app of
-- compositor/src/protocol/protocol.c.
use lumo_compositor.Base.{
  ℕ, zero, suc, Bool, true, false, ◌||◌, Option, none, some, List, [], ◌∷◌, map, if◌then◌else◌,
  get_elem?,
}
use lumo_compositor.CString.{Bytes, codes, str_eq, strstr}
use lumo_compositor.Frame.{Frame, frame_get_u32}
use lumo_compositor.Ui.{
  Ui, Toplevel, hidden, dimmed, emit, send_close, clear_focus, launch, set_scrim_state,
  set_launcher_visible, set_sidebar_visible,
}
use lumo_compositor.Ui.Edges.{Closing, behind_window, disable}
use lumo_compositor.Bridge.Desk.{
  Doubles, Desk, Surface, window_surface, other_surface, Reply, with_ui, ok_result, error_result,
  reply, done, fail,
}
use lumo_compositor.Bridge.Targets.{activate_target, show_window, number_or}
use lumo_compositor.Bridge.Requests.{
  changed, request_launcher, request_keyboard, request_scrim, request_threshold, request_ack,
  request_rotation, request_audit, request_volume, request_brightness, request_toast,
  request_screenshot, request_reload, request_cycle,
}

-- What lumo_protocol_close_focused_app does: the window it asks to close, and its answer.
pub record Asked : Type 0 where
  pub window : Option ℕ
  pub closed : Bool

abbrev no_window : Bool → Asked
no_window closed = record { window = none; closed = closed }

abbrev ask : ℕ → Asked
ask handle = record { window = some handle; closed = true }

-- lumo_protocol_close_surface_app
abbrev pub close_surface_app : Surface → Asked
close_surface_app (window_surface handle) = ask handle
close_surface_app (other_surface closed) = no_window closed

abbrev first_window : List Toplevel → Asked
first_window [] = no_window false
first_window (t ∷ ts) = ask t.handle

unfoldable pub close_focused_app : Option Surface → Option Surface → List Toplevel → Asked
close_focused_app (some surface) pointer windows = close_surface_app surface
close_focused_app none (some surface) windows = close_surface_app surface
close_focused_app none none windows = first_window windows

abbrev pub send_close_to : Option ℕ → Desk → Desk
send_close_to none d = d
send_close_to (some handle) d = with_ui (emit (send_close handle) d.shell.ui) d

abbrev pub close_asked : Asked → Desk → Reply
close_asked asked d =
    reply
      (if asked.closed
        then ok_result
        else error_result (some (codes "no_app")) (some (codes "no_focused_toplevel")))
      (send_close_to asked.window d)

abbrev pub close_at : Option Toplevel → Desk → Reply
close_at none d = reply (error_result none none) d
close_at (some t) d = done (send_close_to (some t.handle) d)

abbrev pub close_reply : Option ℕ → Desk → Reply
close_reply none d =
    close_asked (close_focused_app d.keyboard_focus d.pointer_focus d.shell.ui.toplevels) d
close_reply (some index) d = close_at (get_elem? d.shell.ui.toplevels index) d

unfoldable pub request_close : Frame → Desk → Reply
unfolding close_focused_app
request_close f d = close_reply (frame_get_u32 f (codes "index")) d

-- The window at an index, and the windows with its node enabled.
unfoldable pub enable_at : ℕ → List Toplevel → Option Closing
enable_at n [] = none
enable_at zero (t ∷ ts) =
    some (record { front = t.handle; windows = record t { enabled = true } ∷ ts })
enable_at (suc n) (t ∷ ts) = behind_window t (enable_at n ts)

abbrev pub covered_by_window : Ui → Ui
covered_by_window ui =
    set_scrim_state dimmed (set_sidebar_visible false (set_launcher_visible false ui))

abbrev pub focus_reply : Option Closing → Desk → Reply
focus_reply none d = reply (error_result none none) d
focus_reply (some c) d = changed covered_by_window (show_window c d)

unfoldable pub request_focus : Frame → Desk → Reply
unfolding enable_at
request_focus f d =
    focus_reply (enable_at (number_or (frame_get_u32 f (codes "index")) 0) d.shell.ui.toplevels) d

abbrev pub any_enabled : List Toplevel → Bool
any_enabled [] = false
any_enabled (t ∷ ts) = t.enabled || any_enabled ts

abbrev pub all_minimized : Ui → Ui
all_minimized ui = set_scrim_state hidden (
    set_sidebar_visible false (
      set_launcher_visible false
        (emit clear_focus (record ui { toplevels = map disable ui.toplevels }))))

abbrev pub minimized : Desk → Desk
minimized d = record (with_ui (all_minimized d.shell.ui) d) { keyboard_focus = none }

unfoldable pub request_minimize : Desk → Reply
request_minimize d = done (if any_enabled d.shell.ui.toplevels then minimized d else d)

unfoldable pub new_window_command : Option Bytes → Option Bytes
unfolding strstr
new_window_command none = none
new_window_command (some aid) =
    if strstr aid (codes "terminal")
    then some (codes "lumo-app:terminal")
    else if strstr aid (codes "browser")
    then some (codes "lumo-app:browser")
    else none

abbrev pub launch_window : Option Bytes → Ui → Ui
launch_window none ui = ui
launch_window (some command) ui = set_sidebar_visible false (emit (launch command) ui)

abbrev pub id_at : Option Toplevel → Desk → Option Bytes
id_at none d = none
id_at (some t) d = d.app_id_of t.handle

unfoldable pub request_new_window : Frame → Desk → Reply
unfolding new_window_command
request_new_window f d =
    let index = number_or (frame_get_u32 f (codes "index")) 0 in
    let window = get_elem? d.shell.ui.toplevels index in
    changed (launch_window (new_window_command (id_at window d))) d

abbrev pub drawer_opened : Ui → Ui
drawer_opened ui = set_launcher_visible true (set_sidebar_visible false ui)

unfoldable pub request_drawer : Desk → Reply
request_drawer d = changed drawer_opened d

pub data Request : Type 0 where
  activating launcher_request keyboard_request scrim_request threshold_request ack_request : Request
  rotation_request audit_request volume_request brightness_request toast_request : Request
  screenshot_request ping_request reload_request cycle_request close_request focus_request : Request
  minimize_request new_window_request drawer_request : Request

abbrev pub request_names : List (Bytes × Request)
request_names =
    (codes "activate_target", activating)
    ∷ (codes "set_launcher_visible", launcher_request)
    ∷ (codes "set_keyboard_visible", keyboard_request)
    ∷ (codes "set_scrim_state", scrim_request)
    ∷ (codes "set_gesture_threshold", threshold_request)
    ∷ (codes "ack_keyboard_resize", ack_request)
    ∷ (codes "set_rotation", rotation_request)
    ∷ (codes "set_touch_audit_active", audit_request)
    ∷ (codes "set_volume", volume_request)
    ∷ (codes "set_brightness", brightness_request)
    ∷ (codes "show_toast", toast_request)
    ∷ (codes "capture_screenshot", screenshot_request)
    ∷ (codes "ping", ping_request)
    ∷ (codes "reload_session", reload_request)
    ∷ (codes "cycle_rotation", cycle_request)
    ∷ (codes "close_app", close_request)
    ∷ (codes "focus_app", focus_request)
    ∷ (codes "minimize_focused", minimize_request)
    ∷ (codes "new_window", new_window_request)
    ∷ (codes "open_drawer", drawer_request)
    ∷ []

-- The chain of strcmp.
unfoldable pub find_request : Bytes → List (Bytes × Request) → Option Request
find_request name [] = none
find_request name ((text, r) ∷ rest) = if str_eq name text then some r else find_request name rest

module _ {D : Type 0} (doubles : Doubles D) where
  unfoldable pub serve : Request → Frame → Desk → Reply
  serve activating f d = activate_target f d
  serve launcher_request f d = request_launcher f d
  serve keyboard_request f d = request_keyboard f d
  serve scrim_request f d = request_scrim f d
  serve threshold_request f d = request_threshold doubles f d
  serve ack_request f d = request_ack f d
  serve rotation_request f d = request_rotation f d
  serve audit_request f d = request_audit f d
  serve volume_request f d = request_volume f d
  serve brightness_request f d = request_brightness f d
  serve toast_request f d = request_toast f d
  serve screenshot_request f d = request_screenshot d
  serve ping_request f d = done d
  serve reload_request f d = request_reload d
  serve cycle_request f d = request_cycle d
  serve close_request f d = request_close f d
  serve focus_request f d = request_focus f d
  serve minimize_request f d = request_minimize d
  serve new_window_request f d = request_new_window f d
  serve drawer_request f d = request_drawer d

  abbrev pub serve_found : Option Request → Frame → Desk → Reply
  serve_found none f d = fail (codes "unknown_request") (codes "unsupported_name") d
  serve_found (some r) f d = serve r f d

  unfoldable pub handle_request : Frame → Desk → Reply
  unfolding serve find_request
  handle_request f d = serve_found (find_request f.name request_names) f d
