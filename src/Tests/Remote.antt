-- ===== src/Tests/Remote.antt =====
-- The shell client's copy and its requests on concrete inputs.
use lumo_compositor.Base.{
  ℕ, true, false, ◌≡◌, refl, List, [], ◌∷◌, some, arith, take, drop, get_elem?, Option, none,
}
use lumo_compositor.CString.{Bytes, decimal, decimal_onto}
use lumo_compositor.Frame.{
  Frame, event, frame_init, copy_token, copy_value, frame_add_field, frame_add_bool, frame_add_u32,
  frame_add_string, frame_format, append, append_fields, frame_kind_name,
}
use lumo_compositor.Stream.{fresh}
use lumo_compositor.Ui.{hidden}
use lumo_compositor.Layout.Modes.{
  launcher, launcher_close, no_phase, no_touch_target, target_kind_name, mode_name,
}
use lumo_compositor.Layout.Signed.{pos}
use lumo_compositor.Bridge.{
  broadcast_text, build_state_frame, add_entries, add_entry, frame_add_printed, scrim_state_name,
  rotation_name, touch_sample_type_name, touch_target_kind_name, hitbox_kind_name,
}
use lumo_compositor.Bridge.Serving.{chunk, would_block, client_event}
use lumo_compositor.Bridge.Targets.{activate}
use lumo_compositor.Bridge.Windows.{focus_reply, enable_at, close_at}
use lumo_compositor.Bridge.Writing.{sent, write_all, write_left}
use lumo_compositor.Remote.{Remote}
use lumo_compositor.Remote.Pump.{pump_protocol}
use lumo_compositor.Remote.Follows.{Mirrors, in_pieces, connected, pump_protocol-Mirrors}
use lumo_compositor.Remote.Senders.{
  send_frame, send_request, send_activate_target, send_focus_app, send_close_app,
}
use lumo_compositor.Remote.Served.{send_activate_target-activates}
use lumo_compositor.Remote.SentApps.{send_app-reaches}
use lumo_compositor.Tests.Bridge.{shell, idle_bytes, idle_strings}
use lumo_compositor.Tests.Requests.{whole, connection}

-- A client's copy before the first frame.
abbrev pub new_remote : Remote ℕ
new_remote = record {
  mode = launcher;
  unified = false;
  has_surface = true;
  launcher_visible = false;
  keyboard_visible = false;
  osk_shift_active = false;
  osk_page = 0;
  quick_settings_visible = false;
  time_panel_visible = false;
  notification_panel_visible = false;
  sidebar_visible = false;
  search_active = false;
  search_query = [];
  notification_count = 0;
  notifications = λ i. [];
  running_app_count = 0;
  running_app_ids = λ i. [];
  running_app_titles = λ i. [];
  scrim_state = hidden;
  rotation_degrees = 0;
  gesture_threshold = 24;
  gesture_timeout_ms = 180;
  keyboard_resize_pending = false;
  keyboard_resize_acked = true;
  keyboard_resize_serial = 0;
  touch_audit_active = false;
  touch_audit_saved = false;
  touch_audit_step = 0;
  touch_audit_completed_mask = 0;
  touch_audit_profile = [];
  touch_debug_seen = false;
  touch_debug_active = false;
  touch_debug_id = 0;
  touch_debug_x = 0;
  touch_debug_y = 0;
  touch_debug_phase = no_phase;
  touch_debug_target = no_touch_target;
  output_width_hint = 0;
  output_height_hint = 0;
  weather_condition = [];
  weather_humidity = [];
  weather_wind = [];
  weather_code = 0;
  weather_temp_c = pos 0;
  volume_pct = 50;
  brightness_pct = 80;
  toast_message = [];
  toast_time_low = 0;
  toast_duration_ms = 0;
  next_request_id = 1;
}

-- One call of send takes the request.
send_activate_target-activates_example :
    (client_event whole
      (chunk
          (send_activate_target true
            (sent 1024 ∷ [])
            (some (launcher_close, 0))
            new_remote).written.out
        ∷ would_block
        ∷ [])
      connection).turn.desk
    ≡ (activate launcher_close 0 connection.turn.desk).desk
unfolding send_activate_target send_request send_frame frame_init copy_token copy_value
    frame_add_field frame_add_u32 frame_add_string frame_format append append_fields frame_kind_name
    decimal decimal_onto write_all write_left target_kind_name mode_name
send_activate_target-activates_example =
    send_activate_target-activates whole true (sent 1024 ∷ []) new_remote launcher_close 0
      connection (omega arith) (omega arith) refl refl

send_app-reaches_example :
    ((client_event whole
        (chunk (send_focus_app true (sent 1024 ∷ []) 1 new_remote).written.out ∷ would_block ∷ [])
        connection).turn.desk
      ≡ (focus_reply
          (enable_at 1 connection.turn.desk.shell.ui.toplevels)
          connection.turn.desk).desk)
    × ((client_event whole
          (chunk (send_close_app true (sent 1024 ∷ []) 1 new_remote).written.out ∷ would_block ∷ [])
          connection).turn.desk
        ≡ (close_at
            (get_elem? connection.turn.desk.shell.ui.toplevels 1)
            connection.turn.desk).desk)
unfolding send_focus_app send_close_app send_request send_frame frame_init copy_token copy_value
    frame_add_field frame_add_u32 frame_format append append_fields frame_kind_name decimal
    decimal_onto write_all write_left
send_app-reaches_example =
    send_app-reaches whole true (sent 1024 ∷ []) new_remote 1 connection (omega arith) (omega arith)
      refl refl refl

-- What the compositor broadcasts of an idle shell, and a client that knows the size of the output.
abbrev frame_or : Frame → Option Frame → Frame
frame_or f none = f
frame_or f (some g) = g

abbrev idle_frame : Frame
idle_frame =
    frame_or (record { kind = event; name = []; id = 0; fields = [] })
      (build_state_frame (shell []))

abbrev sized_remote : Remote ℕ
sized_remote = record new_remote { output_width_hint = 1280; output_height_hint = 800 }

-- The state comes in two reads.
abbrev pieces : List Bytes
pieces = take 400 idle_bytes ∷ drop 400 idle_bytes ∷ []

pump_protocol-Mirrors_example :
    Mirrors
      (pump_protocol whole (in_pieces pieces) (connected whole new_remote)).remote
      (shell []).ui
    × ((pump_protocol whole (in_pieces pieces) (connected whole new_remote)).stream ≡ fresh)
    × ((pump_protocol whole (in_pieces pieces) (connected whole new_remote)).answer ≡ some true)
unfolding broadcast_text build_state_frame add_entries add_entry frame_add_printed scrim_state_name
    rotation_name touch_sample_type_name touch_target_kind_name hitbox_kind_name frame_init
    copy_token copy_value frame_add_field frame_add_bool frame_add_u32 frame_add_string frame_format
    append append_fields frame_kind_name decimal decimal_onto
pump_protocol-Mirrors_example =
    pump_protocol-Mirrors whole (shell []) pieces new_remote idle_strings refl
