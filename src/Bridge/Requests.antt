-- ===== src/Bridge/Requests.antt =====
-- The requests of the bridge's clients, lumo_shell_bridge_handle_request_frame of compositor/src/shell/shell_bridge.c.
-- The levels of volume and brightness are written by other programs.
use lumo_compositor.Base.{ℕ, ◌-◌, Bool, Option, none, some, ltb, if◌then◌else◌, take, ◌>>=◌}
use lumo_compositor.CString.{Bytes, codes}
use lumo_compositor.Frame.{Frame, frame_get, frame_get_bool, frame_get_u32}
use lumo_compositor.Ui.{
  Ui, Scrim, emit, broadcast, mark_layers_dirty, refresh_hitboxes, write_volume, write_brightness,
  rotate_outputs, save_rotation, set_scrim_state, set_launcher_visible, set_keyboard_visible,
  ack_keyboard_resize,
}
use lumo_compositor.Ui.Audit.{audit_set_active}
use lumo_compositor.Ui.Edges.{dismiss_notifications, dismiss_time_panel, dismiss_quick_settings}
use lumo_compositor.Ui.Osk.{toast_size}
use lumo_compositor.Bridge.{
  Rotation, rotation_normal, rotation_90, rotation_180, rotation_270, rotation_name,
}
use lumo_compositor.Bridge.Names.{rotation_parse, scrim_state_parse}
use lumo_compositor.Bridge.Desk.{
  then_capture, then_stop, Doubles, Desk, Reply, with_ui, ok_result, done, fail,
}
use lumo_compositor.Bridge.Targets.{number_or}

abbrev pub changed : (Ui → Ui) → Desk → Reply
changed change d = done (with_ui (change d.shell.ui) d)

-- A setter that takes a Boolean field, or the answer that the field is missing.
abbrev pub with_flag : Bytes → Option Bool → (Bool → Desk → Reply) → Desk → Reply
with_flag key none set d = fail (codes "missing_field") key d
with_flag key (some value) set d = set value d

unfoldable pub request_launcher : Frame → Desk → Reply
request_launcher f d =
    with_flag (codes "visible") (frame_get_bool f (codes "visible"))
      (λ v. changed (set_launcher_visible v)) d

unfoldable pub request_keyboard : Frame → Desk → Reply
request_keyboard f d =
    with_flag (codes "visible") (frame_get_bool f (codes "visible"))
      (λ v. changed (set_keyboard_visible v)) d

abbrev pub scrim_reply : Option Scrim → Desk → Reply
scrim_reply none d = fail (codes "invalid_state") (codes "scrim_state") d
scrim_reply (some state) d = changed (set_scrim_state state) d

unfoldable pub request_scrim : Frame → Desk → Reply
request_scrim f d = scrim_reply (do value ← frame_get f (codes "state"); scrim_state_parse value) d

-- lumo_protocol_set_gesture_threshold behind the timeout.
abbrev pub set_threshold : {D : Type 0} → Doubles D → D → ℕ → Desk → Desk
set_threshold doubles threshold timeout_ms d =
    let kept = if doubles.is_positive threshold then threshold else doubles.default_threshold in
    record d {
      shell = record d.shell {
        ui = broadcast d.shell.ui;
        gesture_threshold = doubles.print kept;
        gesture_timeout_ms = timeout_ms;
      };
    }

abbrev pub threshold_reply : {D : Type 0} → Doubles D → Option D → ℕ → Desk → Reply
threshold_reply doubles none timeout_ms d = fail (codes "missing_field") (codes "threshold") d
threshold_reply doubles (some value) timeout_ms d = done (set_threshold doubles value timeout_ms d)

unfoldable pub request_threshold : {D : Type 0} → Doubles D → Frame → Desk → Reply
request_threshold doubles f d =
    threshold_reply doubles (do text ← frame_get f (codes "threshold"); doubles.parse text)
      (number_or (frame_get_u32 f (codes "timeout_ms")) d.shell.gesture_timeout_ms) d

abbrev pub ack_reply : Option ℕ → Desk → Reply
ack_reply none d = fail (codes "missing_field") (codes "serial") d
ack_reply (some serial) d = changed (ack_keyboard_resize serial) d

unfoldable pub request_ack : Frame → Desk → Reply
request_ack f d = ack_reply (frame_get_u32 f (codes "serial")) d

-- lumo_input_set_rotation
abbrev pub input_set_rotation : Rotation → Desk → Desk
input_set_rotation rotation d = record d {
  shell = record d.shell { ui = broadcast d.shell.ui; rotation = rotation };
}

abbrev pub rotation_reply : Option Rotation → Desk → Reply
rotation_reply none d = fail (codes "invalid_rotation") (codes "rotation") d
rotation_reply (some rotation) d = done (input_set_rotation rotation d)

unfoldable pub request_rotation : Frame → Desk → Reply
request_rotation f d =
    rotation_reply (do value ← frame_get f (codes "rotation"); rotation_parse value) d

-- lumo_touch_audit_set_active
abbrev pub set_audit : Bool → Desk → Desk
set_audit active d =
    let s = audit_set_active active (record { ui = d.shell.ui; audit = d.shell.audit }) in
    record d { shell = record d.shell { ui = s.ui; audit = s.audit } }

unfoldable pub request_audit : Frame → Desk → Reply
request_audit f d =
    with_flag (codes "active") (frame_get_bool f (codes "active")) (λ v e. done (set_audit v e)) d

-- What lumo_write_volume_pct and lumo_write_brightness_pct write.
abbrev pub clamp_pct : ℕ → ℕ
clamp_pct pct = if ltb 100 pct then 100 else pct

abbrev pub set_volume : Option ℕ → Desk → Desk
set_volume none d = d
set_volume (some pct) d = record d {
  shell = record d.shell {
    ui = broadcast (emit (write_volume (clamp_pct pct)) d.shell.ui);
    volume_pct = pct;
  };
}

unfoldable pub request_volume : Frame → Desk → Reply
request_volume f d = done (set_volume (frame_get_u32 f (codes "pct")) d)

abbrev pub set_brightness : Option ℕ → Desk → Desk
set_brightness none d = d
set_brightness (some pct) d = record d {
  shell = record d.shell {
    ui = broadcast (emit (write_brightness (clamp_pct pct)) d.shell.ui);
    brightness_pct = pct;
  };
}

unfoldable pub request_brightness : Frame → Desk → Reply
request_brightness f d = done (set_brightness (frame_get_u32 f (codes "pct")) d)

abbrev pub show_toast : Option Bytes → ℕ → Desk → Desk
show_toast none duration d = d
show_toast (some message) duration d = record d {
  shell = record d.shell {
    ui = broadcast (record d.shell.ui { toast_message = take (toast_size - 1) message });
    toast_duration_ms = duration;
    toast_time_ms = d.now_ms;
  };
}

unfoldable pub request_toast : Frame → Desk → Reply
request_toast f d = done (
    show_toast (frame_get f (codes "message")) (number_or (frame_get_u32 f (codes "duration")) 3000)
      d)

abbrev pub close_for_screenshot : Ui → Ui
close_for_screenshot ui = dismiss_time_panel (dismiss_quick_settings (dismiss_notifications ui))

unfoldable pub request_screenshot : Desk → Reply
request_screenshot d = record {
  desk = with_ui (close_for_screenshot d.shell.ui) d;
  result = ok_result;
  ending = then_capture;
}

-- The answer goes out before the session ends.
unfoldable pub request_reload : Desk → Reply
request_reload d = record { desk = d; result = ok_result; ending = then_stop }

abbrev pub next_rotation : Rotation → Rotation
next_rotation rotation_normal = rotation_90
next_rotation rotation_90 = rotation_180
next_rotation rotation_180 = rotation_270
next_rotation rotation_270 = rotation_normal

-- lumo_output_set_rotation of compositor/src/core/output.c for all outputs
unfoldable pub output_set_rotation : Rotation → Desk → Desk
output_set_rotation rotation d =
    let name = rotation_name rotation in
    let turned = emit (rotate_outputs name) d.shell.ui in
    record d {
      shell = record d.shell {
        ui =
            broadcast
              (emit (save_rotation name) (mark_layers_dirty (emit refresh_hitboxes turned)));
        rotation = rotation;
      };
    }

unfoldable pub request_cycle : Desk → Reply
unfolding output_set_rotation
request_cycle d = done (output_set_rotation (next_rotation d.shell.rotation) d)
