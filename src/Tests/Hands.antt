-- ===== src/Tests/Hands.antt =====
-- Touches of the shell client on concrete inputs.
use lumo_compositor.Base.{
  ℕ, ◌+◌, ◌*◌, ◌≤◌, ◌<◌, Bool, true, false, ◌≡◌, refl, List, [], ◌∷◌, some, none, arith, ltb,
  length,
}
use lumo_compositor.CString.{codes, decimal, decimal_onto}
use lumo_compositor.Frame.{
  frame_init, copy_token, copy_value, frame_add_field, frame_add_u32, frame_add_string,
  frame_format, append, append_fields, frame_kind_name,
}
use lumo_compositor.Layout.{clamp_u32, min_u32, max_u32}
use lumo_compositor.Layout.Modes.{gesture, gesture_handle, target_kind_name, mode_name}
use lumo_compositor.Layout.Panels.{gesture_handle_rect, time_panel_rect}
use lumo_compositor.Layout.Signed.{pos, difference}
use lumo_compositor.Layout.Targets.{Target, target_at, target_with_query, mode_target}
use lumo_compositor.Bridge.Requests.{clamp_pct, set_volume}
use lumo_compositor.Stream.{feed, fresh}
use lumo_compositor.Bridge.Desk.{fail}
use lumo_compositor.Bridge.Windows.{handle_request}
use lumo_compositor.Bridge.Serving.{chunk, would_block, client_event}
use lumo_compositor.Bridge.Targets.{activate}
use lumo_compositor.Bridge.Writing.{sent, write_all, write_left}
use lumo_compositor.Remote.Points.{
  Point, rect_contains, from_pixel, below_pixel, slider_pct, truncated,
}
use lumo_compositor.Remote.Hand.{Hand, snap_back, touch_down}
use lumo_compositor.Remote.Asks.{ask_activate, ask_weather}
use lumo_compositor.Remote.Release.{touch_up}
use lumo_compositor.Remote.Perform.{perform}
use lumo_compositor.Remote.Senders.{
  send_frame, send_request, send_activate_target, send_set_u32, send_weather_command,
}
use lumo_compositor.Remote.Levels.{slider-stored}
use lumo_compositor.Remote.Events.{Event, down, motion, up, cancel, requests, after_events}
use lumo_compositor.Remote.Presses.{length-requests}
use lumo_compositor.Remote.Pages.{IsPaged, after_events-IsPaged}
use lumo_compositor.Remote.Sent.{one_field}
use lumo_compositor.Remote.Taps.{tap-reaches}
use lumo_compositor.Remote.Weather.{weather_touch-refused}
use lumo_compositor.Tests.Panels.{quick_panel, quick_panel_at}
use lumo_compositor.Tests.Requests.{whole, connection}
use lumo_compositor.Tests.Remote.{new_remote}

abbrev pixel : ℕ → ℕ → Point
pixel x y = record { x = pos (x * 256); y = pos (y * 256) }

-- The gesture bar at the bottom, before it is touched.
abbrev bar : Hand ℕ
bar = record {
  remote = record new_remote { mode = gesture };
  slots = [];
  configured_width = 1280;
  configured_height = 36;
  pointer = pixel 0 0;
  pointer_position_valid = false;
  pointer_pressed = false;
  touch_pressed = false;
  active_touch_id = none;
  active_target = none;
  launcher_page = 0;
  launcher_swipe_x = pos 0;
  launcher_swipe_offset = pos 0;
  launcher_swiping = false;
  launcher_snap_active = false;
  launcher_snap_from = pos 0;
  launcher_snap_to = snap_back;
  launcher_snap_start = 0;
  launcher_snap_page = 0;
  sidebar_press_start_msec = 0;
  sidebar_context_menu_visible = false;
  sidebar_context_menu_index = 0;
}

-- Further than a fifth of the width.
abbrev fifth : ℕ → ℕ → Bool
fifth width offset = ltb (width * 256) (offset * 5)

abbrev handle : Target
handle =
    target_at gesture_handle 0 (record { left = pos 530; top = pos 12; width = 220; height = 12 })

tap-reaches_example :
    ((touch_up fifth 1040 3 (touch_down 1000 1 3 (pixel 640 18) bar)).action
      ≡ some (ask_activate handle))
    × ((client_event whole
          (chunk (perform true (sent 1024 ∷ []) (ask_activate handle) bar.remote).written.out
            ∷ would_block
            ∷ [])
          connection).turn.desk
        ≡ (activate gesture_handle 0 connection.turn.desk).desk)
unfolding target_with_query mode_target gesture_handle_rect clamp_u32 rect_contains from_pixel
    below_pixel perform send_activate_target send_request send_frame frame_init copy_token
    copy_value frame_add_field frame_add_u32 frame_add_string frame_format append append_fields
    frame_kind_name decimal decimal_onto write_all write_left target_kind_name mode_name
tap-reaches_example =
    tap-reaches whole fifth 1000 1040 1 3 (pixel 640 18) bar handle true (sent 1024 ∷ []) connection
      refl refl refl refl refl refl (omega arith) (omega arith) refl refl

-- The home screen with the time panel open.
abbrev home : Hand ℕ
home = record bar {
  remote = record new_remote { time_panel_visible = true };
  configured_width = 1280;
  configured_height = 800;
}

weather_touch-refused_example :
    let out = (perform true (sent 1024 ∷ []) ask_weather home.remote).written.out in
    let f = one_field (codes "activate_target") 1 (codes "command") (codes "lumo-app:weather") in
    ((touch_up fifth 1040 3 (touch_down 1000 1 3 (pixel 640 200) home)).action ≡ some ask_weather)
    × (feed fresh out ≡ record { stream = fresh; frames = f ∷ []; accepted = true })
    × (handle_request whole f connection.turn.desk
        ≡ fail (codes "invalid_kind") (codes "missing_kind") connection.turn.desk)
    × ((client_event whole (chunk out ∷ would_block ∷ []) connection).turn.desk
        ≡ connection.turn.desk)
unfolding time_panel_rect min_u32 max_u32 from_pixel below_pixel perform send_weather_command
    send_request send_frame frame_init copy_token copy_value frame_add_field frame_add_string
    frame_format append append_fields frame_kind_name decimal decimal_onto write_all write_left
weather_touch-refused_example =
    weather_touch-refused whole fifth 1000 1040 1 3 (pixel 640 200) home true (sent 1024 ∷ [])
      connection refl refl refl refl refl refl (omega arith) refl refl

slider-stored_example :
    (32 < 640)
    × (slider_pct (some quick_panel) (pos (952 * 256)) ≤ 100)
    × (clamp_pct (slider_pct (some quick_panel) (pos (952 * 256)))
        ≡ slider_pct (some quick_panel) (pos (952 * 256)))
    × ((client_event whole
          (chunk
              (send_set_u32 true
                (sent 1024 ∷ [])
                (codes "set_volume")
                (codes "pct")
                (slider_pct (some quick_panel) (pos (952 * 256)))
                new_remote).written.out
            ∷ would_block
            ∷ [])
          connection).turn.desk
        ≡ set_volume (some (slider_pct (some quick_panel) (pos (952 * 256)))) connection.turn.desk)
unfolding difference slider_pct truncated send_set_u32 send_request send_frame frame_init copy_token
    copy_value frame_add_field frame_add_u32 frame_format append append_fields frame_kind_name
    decimal decimal_onto write_all write_left
slider-stored_example =
    slider-stored whole true (sent 1024 ∷ []) new_remote 1280 800 quick_panel (pos (952 * 256))
      connection (omega arith) quick_panel_at (omega arith) refl refl

-- A tap and a second touch that is taken away.
abbrev touches : List Event
touches =
    down 1000 1 3 (pixel 640 18)
    ∷ up 1040 3
    ∷ down 2000 1 4 (pixel 640 18)
    ∷ motion 4 (pixel 700 18)
    ∷ cancel
    ∷ []

length-requests_example : length (requests fifth touches bar) ≤ 2 + 0
length-requests_example = length-requests fifth touches bar

after_events-IsPaged_example : IsPaged (after_events fifth touches bar)
after_events-IsPaged_example = after_events-IsPaged fifth touches bar (omega arith, omega arith)
