-- ===== src/Remote/Senders.antt =====
-- The requests that the shell client sends, lumo_shell_client_send_frame and the senders behind it in
-- compositor/src/shell/shell_protocol_client.c, and lumo_shell_client_activate_target of compositor/src/shell/shell_input.c.
-- What the calls of send answer is an explicit list. What is logged is left out.
use lumo_compositor.Base.{
  ℕ, ◌+◌, ◌%◌, Bool, true, false, Option, none, some, List, [], map, if◌then◌else◌, ◌>>=◌,
}
use lumo_compositor.CString.{Bytes, codes, uint32_mod}
use lumo_compositor.Frame.{
  Frame, request, frame_init, frame_add_u32, frame_add_bool, frame_add_string, frame_format,
}
use lumo_compositor.Layout.Modes.{ShellMode, TargetKind, launcher_tile, mode_name, target_kind_name}
use lumo_compositor.Bridge.{keep}
use lumo_compositor.Bridge.Writing.{
  SendAnswer, sent, interrupted, would_block, failed, Written, write_all,
}
use lumo_compositor.Remote.{Remote}

-- A full socket ends the write at once: this client does not wait for it.
abbrev pub no_wait : SendAnswer → SendAnswer
no_wait (sent n) = sent n
no_wait interrupted = interrupted
no_wait (would_block again) = would_block false
no_wait failed = failed

abbrev pub nothing_sent : Written
nothing_sent = record { out = []; left = []; answer = some false }

abbrev pub send_bytes : List SendAnswer → Option Bytes → Written
send_bytes answers none = nothing_sent
send_bytes answers (some bytes) = write_all (map no_wait answers) bytes

-- `connected` is whether state_fd is open.
unfoldable pub send_frame : Bool → List SendAnswer → Frame → Written
send_frame connected answers f =
    if connected then send_bytes answers (frame_format f 1024) else nothing_sent

-- The copy with its next request id, and what went out.
pub record Sending (D : Type 0) : Type 0 where
  pub remote : Remote D
  pub written : Written

abbrev pub send_built : Bool → List SendAnswer → Option Frame → Written
send_built connected answers none = nothing_sent
send_built connected answers (some f) = send_frame connected answers f

-- A field that is refused leaves the frame as it was, and the frame is sent without it.
abbrev pub with_u32 : Bytes → ℕ → Frame → Option Frame
with_u32 key value f = some (keep f (frame_add_u32 f key value))

abbrev pub with_string : Bytes → Bytes → Frame → Option Frame
with_string key value f = some (keep f (frame_add_string f key value))

abbrev pub target_request : TargetKind → ℕ → ShellMode → Frame → Option Frame
target_request kind index mode f = do
  a ← frame_add_string f (codes "kind") (target_kind_name kind)
  b ← frame_add_u32 a (codes "index") index
  frame_add_string b (codes "mode") (mode_name mode)

abbrev pub with_flag : Bytes → Bool → Frame → Option Frame
with_flag key value f = some (keep f (frame_add_bool f key value))

-- The fields for the tile of the settings; one that is refused is left out.
abbrev pub settings_fields : Frame → Option Frame
settings_fields f =
    let a = keep f (frame_add_string f (codes "kind") (target_kind_name launcher_tile)) in
    let b = keep a (frame_add_u32 a (codes "index") 11) in
    some (keep b (frame_add_string b (codes "mode") (codes "launcher")))

module _ {D : Type 0} (connected : Bool) (answers : List SendAnswer) where
  -- What the senders share: a request under the next id, its fields, and the write.
  unfoldable pub send_request : Bytes → (Frame → Option Frame) → Remote D → Sending D
  unfolding send_frame
  send_request name add r = record {
    remote = record r { next_request_id = (r.next_request_id + 1) % uint32_mod };
    written =
        send_built connected answers (do f ← frame_init request name r.next_request_id; add f);
  }

  unfoldable pub send_cycle_rotation : Remote D → Sending D
  unfolding send_request
  send_cycle_rotation r = send_request (codes "cycle_rotation") some r

  unfoldable pub send_reload : Remote D → Sending D
  unfolding send_request
  send_reload r = send_request (codes "reload_session") some r

  unfoldable pub send_capture_screenshot : Remote D → Sending D
  unfolding send_request
  send_capture_screenshot r = send_request (codes "capture_screenshot") some r

  unfoldable pub send_minimize_focused : Remote D → Sending D
  unfolding send_request
  send_minimize_focused r = send_request (codes "minimize_focused") some r

  unfoldable pub send_open_drawer : Remote D → Sending D
  unfolding send_request
  send_open_drawer r = send_request (codes "open_drawer") some r

  unfoldable pub send_set_u32 : Bytes → Bytes → ℕ → Remote D → Sending D
  unfolding send_request
  send_set_u32 name key value r = send_request name (with_u32 key value) r

  unfoldable pub send_focus_app : ℕ → Remote D → Sending D
  unfolding send_request
  send_focus_app index r = send_request (codes "focus_app") (with_u32 (codes "index") index) r

  unfoldable pub send_close_app : ℕ → Remote D → Sending D
  unfolding send_request
  send_close_app index r = send_request (codes "close_app") (with_u32 (codes "index") index) r

  -- lumo_shell_client_activate_target, with the target that is active.
  unfoldable pub send_activate_target : Option (TargetKind × ℕ) → Remote D → Sending D
  unfolding send_request
  send_activate_target none r = record { remote = r; written = nothing_sent }
  send_activate_target (some (kind, index)) r =
      send_request (codes "activate_target") (target_request kind index r.mode) r

  -- The weather in the time panel, of lumo_shell_touch_handle_up: a command in
  -- place of a target.
  unfoldable pub send_weather_command : Remote D → Sending D
  unfolding send_request
  send_weather_command r =
      send_request (codes "activate_target")
        (with_string (codes "command") (codes "lumo-app:weather")) r

  -- The button of the settings, and a touch of the search bar, both of lumo_shell_touch_handle_up.
  unfoldable pub send_settings_tile : Remote D → Sending D
  unfolding send_request
  send_settings_tile r = send_request (codes "activate_target") settings_fields r

  unfoldable pub send_show_keyboard : Remote D → Sending D
  unfolding send_request
  send_show_keyboard r =
      send_request (codes "set_keyboard_visible") (with_flag (codes "visible") true) r
