-- ===== src/Remote/Gestures.antt =====
-- The gestures, the keyboard's resize, the touch audit and the touch that is shown, of a state frame:
-- lumo_shell_client_apply_state_frame of compositor/src/shell/shell_protocol_client.c.
use lumo_compositor.Base.{
  ℕ, ◌-◌, Bool, true, false, ◌||◌, Option, none, some, take, if◌then◌else◌, ◌>>=◌,
}
use lumo_compositor.CString.{Bytes, codes, str_eq}
use lumo_compositor.Frame.{Frame, frame_get, frame_get_bool, frame_get_u32}
use lumo_compositor.Layout.Modes.{
  TouchPhase, no_phase, down, motion, up, cancel, TouchTarget, no_touch_target, hitbox, surface,
  touch_phase_parse, touch_target_parse,
}
use lumo_compositor.Bridge.Desk.{Doubles}
use lumo_compositor.Remote.{
  Remote, remote_scrim_parse, remote_rotation_parse, read_or, is_read, differs,
}
use lumo_compositor.Remote.Apply.{Applied, flips, moves}

unfoldable pub phase_equal : TouchPhase → TouchPhase → Bool
phase_equal no_phase no_phase = true
phase_equal down down = true
phase_equal motion motion = true
phase_equal up up = true
phase_equal cancel cancel = true
phase_equal _ _ = false

unfoldable pub target_equal : TouchTarget → TouchTarget → Bool
target_equal no_touch_target no_touch_target = true
target_equal hitbox hitbox = true
target_equal surface surface = true
target_equal _ _ = false

-- strncpy into a zeroed array
abbrev pub copied : ℕ → Option Bytes → Option Bytes
copied size none = none
copied size (some text) = some (take (size - 1) text)

module _ {D : Type 0} (doubles : Doubles D) where
  abbrev pub frame_get_double : Frame → Bytes → Option D
  frame_get_double f key = do text ← frame_get f key; doubles.parse text

  abbrev pub double_differs : Option D → D → Bool
  double_differs o old = differs doubles.equal o old

  -- A double that compares equal is left as it is.
  abbrev pub moved_to : Option D → D → D
  moved_to o old = if double_differs o old then read_or o old else old

  unfoldable pub apply_gestures : Frame → Applied D → Applied D
  unfolding remote_scrim_parse remote_rotation_parse
  apply_gestures f a =
      let scrim = (do text ← frame_get f (codes "scrim_state"); remote_scrim_parse text) in
      let turned = (do text ← frame_get f (codes "rotation"); remote_rotation_parse text) in
      let threshold = frame_get_double f (codes "gesture_threshold") in
      let timeout = frame_get_u32 f (codes "gesture_timeout_ms") in
      let r = a.remote in
      record a {
        remote = record r {
          scrim_state = read_or scrim r.scrim_state;
          rotation_degrees = read_or turned r.rotation_degrees;
          gesture_threshold = read_or threshold r.gesture_threshold;
          gesture_timeout_ms = read_or timeout r.gesture_timeout_ms;
        };
        changed =
            a.changed || is_read scrim || is_read turned || is_read threshold || is_read timeout;
      }

  unfoldable pub apply_resize : Frame → Applied D → Applied D
  apply_resize f a =
      let pending = frame_get_bool f (codes "keyboard_resize_pending") in
      let acked = frame_get_bool f (codes "keyboard_resize_acked") in
      let serial = frame_get_u32 f (codes "keyboard_resize_serial") in
      let r = a.remote in
      record a {
        remote = record r {
          keyboard_resize_pending = read_or pending r.keyboard_resize_pending;
          keyboard_resize_acked = read_or acked r.keyboard_resize_acked;
          keyboard_resize_serial = read_or serial r.keyboard_resize_serial;
        };
        changed = a.changed || is_read pending || is_read acked || is_read serial;
      }

  unfoldable pub apply_audit : Frame → Applied D → Applied D
  apply_audit f a =
      let active = frame_get_bool f (codes "touch_audit_active") in
      let saved = frame_get_bool f (codes "touch_audit_saved") in
      let step = frame_get_u32 f (codes "touch_audit_step") in
      let mask = frame_get_u32 f (codes "touch_audit_completed_mask") in
      let profile = frame_get f (codes "touch_audit_profile") in
      let r = a.remote in
      record a {
        remote = record r {
          touch_audit_active = read_or active r.touch_audit_active;
          touch_audit_saved = read_or saved r.touch_audit_saved;
          touch_audit_step = read_or step r.touch_audit_step;
          touch_audit_completed_mask = read_or mask r.touch_audit_completed_mask;
          touch_audit_profile = read_or (copied 128 profile) r.touch_audit_profile;
        };
        changed =
            a.changed
            || flips active r.touch_audit_active
            || flips saved r.touch_audit_saved
            || moves step r.touch_audit_step
            || moves mask r.touch_audit_completed_mask
            || differs str_eq profile r.touch_audit_profile;
      }

  -- Whether a place, the phase or the target of the touch is new.
  unfoldable pub touch_moves : Frame → Remote D → Bool
  unfolding phase_equal target_equal
  touch_moves f r =
      double_differs (frame_get_double f (codes "touch_debug_x")) r.touch_debug_x
      || double_differs (frame_get_double f (codes "touch_debug_y")) r.touch_debug_y
      || differs phase_equal
          (do text ← frame_get f (codes "touch_debug_phase"); touch_phase_parse text)
          r.touch_debug_phase
      || differs target_equal
          (do text ← frame_get f (codes "touch_debug_target"); touch_target_parse text)
          r.touch_debug_target

  unfoldable pub apply_debug : Frame → Applied D → Applied D
  unfolding touch_moves
  apply_debug f a =
      let active = frame_get_bool f (codes "touch_debug_active") in
      let id = frame_get_u32 f (codes "touch_debug_id") in
      let phase = (do text ← frame_get f (codes "touch_debug_phase"); touch_phase_parse text) in
      let target = (do text ← frame_get f (codes "touch_debug_target"); touch_target_parse text) in
      let r = a.remote in
      record a {
        remote = record r {
          touch_debug_active = read_or active r.touch_debug_active;
          touch_debug_id = read_or id r.touch_debug_id;
          touch_debug_x = moved_to (frame_get_double f (codes "touch_debug_x")) r.touch_debug_x;
          touch_debug_y = moved_to (frame_get_double f (codes "touch_debug_y")) r.touch_debug_y;
          touch_debug_phase = read_or phase r.touch_debug_phase;
          touch_debug_target = read_or target r.touch_debug_target;
          touch_debug_seen = touch_moves f r || r.touch_debug_seen;
        };
        changed =
            a.changed
            || flips active r.touch_debug_active
            || moves id r.touch_debug_id
            || touch_moves f r;
      }
