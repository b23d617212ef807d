-- ===== src/Tests/Requests.antt =====
-- Requests of a client on concrete inputs, from their bytes to their answers.
use lumo_compositor.Base.{
  ℕ, zero, suc, true, false, ◌≡◌, refl, List, [], ◌∷◌, none, some, All, ◌==◌, arith, length,
}
use lumo_compositor.CString.{Bytes, codes, str_eq}
use lumo_compositor.Frame.{Frame, IsFrame, request, frame_get, frame_get_bool, bool_of_text}
use lumo_compositor.Stream.{feed, fresh}
use lumo_compositor.Ui.{Ui, Toplevel, hidden, modal, set_launcher_visible}
use lumo_compositor.Ui.Audit.{cleared}
use lumo_compositor.Ui.Ops.{initial}
use lumo_compositor.Ui.Steady.{IsSteady}
use lumo_compositor.Bridge.{rotation_normal, sample_up, on_nothing}
use lumo_compositor.Bridge.Answered.{HasRead, request-answered}
use lumo_compositor.Bridge.Answers.{answer_frame}
use lumo_compositor.Bridge.Clients.{Client}
use lumo_compositor.Bridge.Desk.{Doubles, Desk}
use lumo_compositor.Bridge.GoHome.{flags, nothing_shown, go_home-nothing_shown}
use lumo_compositor.Bridge.Launches.{StartsKnown}
use lumo_compositor.Bridge.Reads.{client_event-chunks}
use lumo_compositor.Bridge.Requests.{request_launcher}
use lumo_compositor.Bridge.Results.{IsReply, handle_request-IsReply}
use lumo_compositor.Bridge.Serving.{
  Turn, Connection, chunk, closed, client_handle_frame, client_event,
}
use lumo_compositor.Bridge.Targets.{go_home}
use lumo_compositor.Bridge.Traffic.{client_event-IsSteady, client_event-StartsKnown}
use lumo_compositor.Bridge.Windows.{handle_request}
use lumo_compositor.Bridge.Writing.{sends}

-- Doubles as whole numbers.
abbrev pub whole : Doubles ℕ
whole = record {
  parse = λ text. none;
  equal = λ a b. a == b;
  is_positive = λ d. true;
  default_threshold = 24;
  print = λ d. codes "24.00";
}

abbrev windows : List Toplevel
windows = record { handle = 1; enabled = true } ∷ record { handle = 2; enabled = false } ∷ []

abbrev desk : Desk
desk = record {
  shell = record {
    ui = initial true windows;
    audit = cleared;
    apps = [];
    rotation = rotation_normal;
    gesture_threshold = codes "24.00";
    gesture_timeout_ms = 180;
    output_size = some (1280, 800);
    touch_debug_active = false;
    touch_debug_id = none;
    touch_debug_x = codes "0.00";
    touch_debug_y = codes "0.00";
    touch_debug_phase = sample_up;
    touch_debug_target = on_nothing;
    weather_condition = [];
    weather_code = 0;
    weather_temp = 118;
    weather_humidity = [];
    weather_wind = [];
    volume_pct = 50;
    brightness_pct = 80;
    toast_time_ms = 0;
    toast_duration_ms = 0;
  };
  app_id_of = λ handle. some (codes "lumo-browser");
  is_live = λ handle. true;
  keyboard_focus = none;
  pointer_focus = none;
  has_text_input = false;
  has_keyboard = true;
  now_ms = 1000;
}

abbrev bytes_each : ℕ → List ℕ
bytes_each zero = []
bytes_each (suc n) = 0 ∷ bytes_each n

length-bytes_each : (n : ℕ) → length (bytes_each n) ≡ n
length-bytes_each zero = refl
length-bytes_each (suc n) = omega (arith, length-bytes_each n)

-- A socket that takes one byte a call.
abbrev slow_client : Client
slow_client = record { fd = 9; answers = sends (bytes_each 1024); received = [] }

abbrev show_launcher : Frame
show_launcher = record {
  kind = request;
  name = codes "set_launcher_visible";
  id = 7;
  fields = record { key = codes "visible"; value = codes "true" } ∷ [];
}

show_launcher-IsFrame : IsFrame show_launcher
show_launcher-IsFrame = record {
  name_token = (refl, λ h. cc, omega arith);
  id_range = omega arith;
  field_room = omega arith;
  each_field = (
    record { key_token = (refl, λ h. cc, omega arith); value_text = (refl, λ h. cc, omega arith) },
    tt,
  );
}

abbrev turn : Turn
turn = record { desk = desk; client = slow_client }

new_client : HasRead [] slow_client
unfolding feed
new_client = refl

request-answered_example :
    HasRead
      (answer_frame show_launcher (handle_request whole show_launcher desk).result ∷ [])
      (client_handle_frame whole show_launcher turn).client
request-answered_example =
    request-answered whole show_launcher turn (bytes_each 1024) [] refl show_launcher-IsFrame refl
      (omega (arith, length-bytes_each 1024)) new_client

-- The request is granted, and the launcher shows.
launcher_shown :
    ((handle_request whole show_launcher desk).result.success ≡ true)
    × ((handle_request whole show_launcher desk).desk.shell.ui.launcher_visible ≡ true)
unfolding handle_request request_launcher frame_get_bool frame_get bool_of_text str_eq
    set_launcher_visible
launcher_shown = (refl, refl)

handle_request-IsReply_example :
    IsReply show_launcher desk (handle_request whole show_launcher desk)
handle_request-IsReply_example = handle_request-IsReply whole show_launcher desk

abbrev pub connection : Connection
connection = record { turn = turn; stream = fresh; removed = false }

abbrev open_browser : Bytes
open_browser = codes "LUMO/1 request new_window id=3\nindex=1\n\n"

client_event-StartsKnown_example :
    StartsKnown
      (client_event whole (chunk open_browser ∷ closed ∷ []) connection).turn.desk.shell.ui
client_event-StartsKnown_example =
    client_event-StartsKnown whole (chunk open_browser ∷ closed ∷ []) connection refl

desk-IsSteady : IsSteady desk.shell.ui
desk-IsSteady = ground arith

client_event-IsSteady_example :
    IsSteady (client_event whole (chunk open_browser ∷ closed ∷ []) connection).turn.desk.shell.ui
client_event-IsSteady_example =
    client_event-IsSteady whole (chunk open_browser ∷ closed ∷ []) connection desk-IsSteady

client_event-chunks_example :
    client_event whole
      (chunk (codes "LUMO/1 requ") ∷ chunk (codes "est ping id=1\n\n") ∷ [])
      connection
    ≡ client_event whole (chunk (codes "LUMO/1 request ping id=1\n\n") ∷ []) connection
client_event-chunks_example =
    client_event-chunks whole (codes "LUMO/1 requ") (codes "est ping id=1\n\n") [] connection

abbrev busy_ui : Ui
busy_ui = record (initial true windows) {
  launcher_visible = true;
  sidebar_visible = true;
  time_panel_visible = true;
  scrim_state = modal;
}

go_home-nothing_shown_example :
    (flags (go_home busy_ui) ≡ nothing_shown)
    × All (λ t. t.enabled ≡ false) (go_home busy_ui).toplevels
    × ((go_home busy_ui).scrim_state ≡ hidden)
go_home-nothing_shown_example = go_home-nothing_shown busy_ui
