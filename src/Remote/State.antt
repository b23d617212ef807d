-- ===== src/Remote/State.antt =====
-- The rest of a state frame, lumo_shell_client_apply_state_frame of compositor/src/shell/shell_protocol_client.c, and
-- the redraw at its end.
use lumo_compositor.Base.{
  ℕ, ◌+◌, ◌-◌, ◌^◌, Bool, true, false, ◌&&◌, ◌||◌, some, ltb, ◌==◌, if◌then◌else◌, ◌>>=◌,
}
use lumo_compositor.CString.{codes, str_eq, uint32_mod}
use lumo_compositor.Frame.{Frame, frame_get, frame_get_u32}
use lumo_compositor.Layout.Modes.{ShellMode, launcher, osk, gesture, status, background, sidebar}
use lumo_compositor.Layout.Signed.{ℤ, pos, negsuc, difference}
use lumo_compositor.Bridge.Desk.{Doubles}
use lumo_compositor.Remote.{Remote, read_or, differs}
use lumo_compositor.Remote.Gestures.{copied, apply_gestures, apply_resize, apply_audit, apply_debug}
use lumo_compositor.Remote.Apply.{
  Applied, begin, moves, apply_launcher, apply_keyboard, apply_panels, apply_notifications,
  apply_sidebar,
}

-- (int)value - 100, where it does not overflow
unfoldable pub temperature : ℕ → ℤ
unfolding difference
temperature value =
    if ltb value (2 ^ 31) then difference value 100 else negsuc (uint32_mod - value - 1 + 100)

unfoldable pub int_equal : ℤ → ℤ → Bool
int_equal (pos a) (pos b) = a == b
int_equal (negsuc a) (negsuc b) = a == b
int_equal _ _ = false

-- The modes whose surface is committed when the output's height changes.
abbrev pub commits : ShellMode → Bool
commits background = true
commits gesture = true
commits status = true
commits launcher = false
commits osk = false
commits sidebar = false

module _ {D : Type 0} (doubles : Doubles D) where
  unfoldable pub apply_output : Frame → Applied D → Applied D
  apply_output f a =
      let width = frame_get_u32 f (codes "output_width") in
      let height = frame_get_u32 f (codes "output_height") in
      let r = a.remote in
      record a {
        remote = record r {
          output_width_hint = read_or width r.output_width_hint;
          output_height_hint = read_or height r.output_height_hint;
        };
        layout_changed =
            a.layout_changed
            || moves width r.output_width_hint
            || moves height r.output_height_hint;
        committed =
            a.committed || (moves height r.output_height_hint && commits r.mode && r.has_surface);
      }

  unfoldable pub apply_weather : Frame → Applied D → Applied D
  unfolding temperature int_equal
  apply_weather f a =
      let condition = frame_get f (codes "weather_condition") in
      let code = frame_get_u32 f (codes "weather_code") in
      let temp = (do value ← frame_get_u32 f (codes "weather_temp"); some (temperature value)) in
      let r = a.remote in
      record a {
        remote = record r {
          weather_condition = read_or (copied 32 condition) r.weather_condition;
          weather_code = read_or code r.weather_code;
          weather_temp_c = read_or temp r.weather_temp_c;
          weather_humidity =
              read_or (copied 16 (frame_get f (codes "weather_humidity"))) r.weather_humidity;
          weather_wind = read_or (copied 24 (frame_get f (codes "weather_wind"))) r.weather_wind;
        };
        changed =
            a.changed
            || differs str_eq condition r.weather_condition
            || moves code r.weather_code
            || differs int_equal temp r.weather_temp_c;
      }

  unfoldable pub apply_levels : Frame → Applied D → Applied D
  apply_levels f a =
      let time = frame_get_u32 f (codes "toast_time") in
      let r = a.remote in
      record a {
        remote = record r {
          volume_pct = read_or (frame_get_u32 f (codes "volume_pct")) r.volume_pct;
          brightness_pct = read_or (frame_get_u32 f (codes "brightness_pct")) r.brightness_pct;
          toast_message = read_or (copied 128 (frame_get f (codes "toast_msg"))) r.toast_message;
          toast_time_low = read_or time r.toast_time_low;
          toast_duration_ms = read_or (frame_get_u32 f (codes "toast_dur")) r.toast_duration_ms;
        };
        changed = a.changed || moves time r.toast_time_low;
      }

  unfoldable pub apply_state_frame : Frame → Remote D → Applied D
  unfolding apply_gestures apply_resize apply_audit apply_debug apply_output apply_weather
      apply_levels
  apply_state_frame f r = apply_levels f (
      apply_weather f (
        apply_output f (
          apply_debug doubles f (
            apply_audit doubles f (
              apply_resize doubles f (
                apply_gestures doubles f (
                  apply_sidebar f (
                    apply_notifications f
                      (apply_panels f (apply_keyboard f (apply_launcher f (begin r))))))))))))

-- What is drawn at the end: nothing, every surface of the one process, or the surface of this mode,
-- with its layout made again or not.
pub data Redraw : Type 0 where
  no_redraw redraw_unified : Redraw
  redraw_surface : Bool → Redraw

unfoldable pub redraw : {D : Type 0} → Applied D → Redraw
redraw a =
    if a.changed || a.layout_changed
    then (if a.remote.unified then redraw_unified else redraw_surface a.layout_changed)
    else no_redraw
