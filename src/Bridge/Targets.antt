-- ===== src/Bridge/Targets.antt =====
-- The request activate_target of compositor/src/shell/shell_bridge.c: a tile, a key or a handle of the shell that
-- was touched, with the commands of compositor/src/shell/shell_ui.c.
use lumo_compositor.Base.{
  ℕ, Bool, true, false, ◌&&◌, ◌||◌, Option, none, some, List, [], ◌∷◌, ◌++◌, ◌==◌, map,
  if◌then◌else◌, get_elem?, ◌>>=◌,
}
use lumo_compositor.CString.{Bytes, codes, str_eq, snprintf_text}
use lumo_compositor.Frame.{Frame, frame_get, frame_get_u32}
use lumo_compositor.Layout.Modes.{
  TargetKind, launcher_tile, launcher_close, osk_key, gesture_handle, sidebar_app,
  sidebar_drawer_btn, no_target,
}
use lumo_compositor.Layout.Search.{launcher_labels}
use lumo_compositor.Ui.{
  Ui, Toplevel, hidden, dimmed, emit, raise_window, focus_window, clear_focus, launch,
  set_scrim_state, set_launcher_visible, set_keyboard_visible,
}
use lumo_compositor.Ui.Edges.{
  Closing, behind_window, disable, dismiss_notifications, dismiss_time_panel,
  dismiss_quick_settings, dismiss_sidebar,
}
use lumo_compositor.Ui.Osk.{
  Pressed, Answer, accepted, invalid_index, no_text_input_focus, commit_osk_text,
}
use lumo_compositor.Bridge.Names.{target_kind_parse}
use lumo_compositor.Bridge.Desk.{Desk, window_surface, Reply, with_ui, done, fail}

abbrev pub launcher_commands : List Bytes
launcher_commands =
    codes "lumo-app:phone"
    ∷ codes "lumo-app:messages"
    ∷ codes "lumo-app:browser"
    ∷ codes "lumo-app:camera"
    ∷ codes "lumo-app:maps"
    ∷ codes "lumo-app:music"
    ∷ codes "lumo-app:photos"
    ∷ codes "lumo-app:videos"
    ∷ codes "lumo-app:clock"
    ∷ codes "lumo-app:notes"
    ∷ codes "lumo-app:files"
    ∷ codes "lumo-app:settings"
    ∷ codes "lumo-app:sysmon"
    ∷ codes "lumo-app:github"
    ∷ codes "lumo-app:calculator"
    ∷ codes "lumo-app:calendar"
    ∷ codes "lumo-app:weather"
    ∷ codes "lumo-app:contacts"
    ∷ codes "lumo-app:recorder"
    ∷ codes "lumo-app:tasks"
    ∷ codes "lumo-app:downloads"
    ∷ codes "lumo-app:package"
    ∷ codes "lumo-app:syslog"
    ∷ codes "lumo-app:pdf"
    ∷ []

unfoldable pub launcher_tile_command : ℕ → Option Bytes
launcher_tile_command tile_index = get_elem? launcher_commands tile_index

unfoldable pub launcher_tile_label : ℕ → Option Bytes
launcher_tile_label tile_index = get_elem? launcher_labels tile_index

-- strchr(command, ':') and what stands behind it, or the whole command.
unfoldable pub behind_colon : Bytes → Option Bytes
behind_colon [] = none
behind_colon (c ∷ cs) = if c == b':' then some cs else behind_colon cs

abbrev pub command_name : Option Bytes → Bytes → Bytes
command_name none command = command
command_name (some name) command = name

abbrev pub expected_id : Bytes → Bytes
expected_id command =
    snprintf_text 64 (codes "lumo-" ++ command_name (behind_colon command) command)

abbrev label_allows_multi : Option Bytes → Bool
label_allows_multi none = false
label_allows_multi (some label) = str_eq label (codes "Terminal") || str_eq label (codes "Browser")

abbrev pub allow_multi : ℕ → Bool
allow_multi index = label_allows_multi (launcher_tile_label index)

abbrev has_id : Option Bytes → Bytes → Bool
has_id none id = false
has_id (some aid) id = str_eq aid id

-- A window that runs the command and is alive.
abbrev pub runs_command : Desk → Bytes → Toplevel → Bool
runs_command d command t = has_id (d.app_id_of t.handle) (expected_id command) && d.is_live t.handle

-- The first window that passes, and the windows with its node enabled.
unfoldable pub enable_first : (Toplevel → Bool) → List Toplevel → Option Closing
enable_first test [] = none
enable_first test (t ∷ ts) =
    let later = behind_window t (enable_first test ts) in
    if test t
    then some (record { front = t.handle; windows = record t { enabled = true } ∷ ts })
    else later

-- The node is enabled and raised, and the surface takes the focus.
abbrev pub show_window : Closing → Desk → Desk
show_window c d =
    let ui = record d.shell.ui { toplevels = c.windows } in
    record (with_ui (emit (focus_window c.front) (emit (raise_window c.front) ui)) d) {
      keyboard_focus = some (window_surface c.front);
    }

abbrev on_ui : (Ui → Ui) → Desk → Desk
on_ui change d = with_ui (change d.shell.ui) d

abbrev pub focus_or_launch : Option Closing → Bytes → Desk → Desk
focus_or_launch none command d = on_ui (emit (launch command)) d
focus_or_launch (some c) command d = on_ui (set_scrim_state dimmed) (show_window c d)

unfoldable pub start_command : ℕ → Option Bytes → Desk → Desk
unfolding enable_first
start_command index none d = d
start_command index (some command) d =
    focus_or_launch
      (if allow_multi index
        then none
        else enable_first (runs_command d command) d.shell.ui.toplevels)
      command d

unfoldable pub activate_tile : ℕ → Desk → Reply
unfolding start_command
activate_tile index d =
    done (on_ui (set_launcher_visible false) (start_command index (launcher_tile_command index) d))

abbrev pub close_panels : Ui → Ui
close_panels ui = dismiss_quick_settings (dismiss_time_panel (dismiss_notifications ui))

abbrev pub hide_keyboard : Ui → Ui
hide_keyboard ui = if ui.keyboard_visible then set_keyboard_visible false ui else ui

abbrev pub hide_launcher : Ui → Ui
hide_launcher ui = if ui.launcher_visible then set_launcher_visible false ui else ui

abbrev pub disable_all : Ui → Ui
disable_all ui = record ui { toplevels = map disable ui.toplevels }

-- The handle of the gesture bar: everything is dismissed, and every window's node disabled.
unfoldable pub go_home : Ui → Ui
go_home ui = set_scrim_state hidden (
    emit clear_focus
      (disable_all (dismiss_sidebar (hide_launcher (hide_keyboard (close_panels ui))))))

abbrev pub go_home_desk : Desk → Desk
go_home_desk d = record (with_ui (go_home d.shell.ui) d) { keyboard_focus = none }

abbrev pub key_reply : Answer → Desk → Reply
key_reply accepted d = done d
key_reply invalid_index d = fail (codes "invalid_index") (codes "osk_key") d
key_reply no_text_input_focus d = fail (codes "no_text_input_focus") (codes "text_input_v3") d

abbrev key_pressed : Pressed → Desk → Reply
key_pressed p d = key_reply p.answer (with_ui p.ui d)

unfoldable pub activate_key : ℕ → Desk → Reply
activate_key index d =
    key_pressed (commit_osk_text d.has_text_input d.has_keyboard index d.shell.ui) d

abbrev pub unsupported : Desk → Reply
unsupported d = fail (codes "unsupported_target") (codes "unhandled_kind") d

unfoldable pub activate : TargetKind → ℕ → Desk → Reply
unfolding activate_tile activate_key go_home
activate launcher_tile index d = activate_tile index d
activate launcher_close index d = done (on_ui (set_launcher_visible false) d)
activate gesture_handle index d = done (go_home_desk d)
activate osk_key index d = activate_key index d
activate sidebar_app index d = unsupported d
activate sidebar_drawer_btn index d = unsupported d
activate no_target index d = unsupported d

-- A field that is missing or no number leaves the variable as it was.
abbrev pub number_or : Option ℕ → ℕ → ℕ
number_or none n = n
number_or (some read) n = read

abbrev pub activate_parsed : Option TargetKind → ℕ → Desk → Reply
activate_parsed none index d = fail (codes "invalid_kind") (codes "missing_kind") d
activate_parsed (some kind) index d = activate kind index d

unfoldable pub activate_target : Frame → Desk → Reply
unfolding activate
activate_target f d =
    activate_parsed (do value ← frame_get f (codes "kind"); target_kind_parse value)
      (number_or (frame_get_u32 f (codes "index")) 0) d
