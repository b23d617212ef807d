-- ===== src/Remote/Perform.antt =====
-- The sender behind each request of a release: the calls of lumo_shell_touch_handle_up in
-- compositor/src/shell/shell_input.c.
use lumo_compositor.Base.{Bool, List, some}
use lumo_compositor.CString.{codes}
use lumo_compositor.Bridge.Writing.{SendAnswer}
use lumo_compositor.Remote.{Remote}
use lumo_compositor.Remote.Asks.{
  Action, ask_reload, ask_cycle, ask_screenshot, ask_settings, ask_keyboard, ask_drawer,
  ask_weather, ask_volume, ask_brightness, ask_focus, ask_new_window, ask_close, ask_activate,
}
use lumo_compositor.Remote.Senders.{
  Sending, send_cycle_rotation, send_reload, send_capture_screenshot, send_open_drawer,
  send_set_u32, send_focus_app, send_close_app, send_activate_target, send_weather_command,
  send_settings_tile, send_show_keyboard,
}

unfoldable pub perform : {D : Type 0} → Bool → List SendAnswer → Action → Remote D → Sending D
unfolding send_cycle_rotation send_reload send_capture_screenshot send_open_drawer send_set_u32
    send_focus_app send_close_app send_activate_target send_weather_command send_settings_tile
    send_show_keyboard
perform connected answers ask_reload r = send_reload connected answers r
perform connected answers ask_cycle r = send_cycle_rotation connected answers r
perform connected answers ask_screenshot r = send_capture_screenshot connected answers r
perform connected answers ask_settings r = send_settings_tile connected answers r
perform connected answers ask_keyboard r = send_show_keyboard connected answers r
perform connected answers ask_drawer r = send_open_drawer connected answers r
perform connected answers ask_weather r = send_weather_command connected answers r
perform connected answers (ask_volume pct) r =
    send_set_u32 connected answers (codes "set_volume") (codes "pct") pct r
perform connected answers (ask_brightness pct) r =
    send_set_u32 connected answers (codes "set_brightness") (codes "pct") pct r
perform connected answers (ask_focus app) r = send_focus_app connected answers app r
perform connected answers (ask_new_window app) r =
    send_set_u32 connected answers (codes "new_window") (codes "index") app r
perform connected answers (ask_close app) r = send_close_app connected answers app r
perform connected answers (ask_activate t) r =
    send_activate_target connected answers (some (t.kind, t.index)) r
