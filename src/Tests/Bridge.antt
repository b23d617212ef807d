-- ===== src/Tests/Bridge.antt =====
-- The broadcast state, the write loop and the on-screen keys on concrete inputs.
use lumo_compositor.Base.{
  All, ℕ, true, false, ◌≡◌, refl, List, [], ◌∷◌, ◌++◌, Option, none, some, length,
}
use lumo_compositor.CString.{Bytes, codes}
use lumo_compositor.Frame.{
  frame_init, copy_token, copy_value, frame_add_field, frame_add_bool, frame_add_u32,
  frame_add_string, frame_format, append, append_fields, frame_kind_name,
}
use lumo_compositor.CString.{decimal, decimal_onto}
use lumo_compositor.Ui.Audit.{cleared}
use lumo_compositor.Ui.Ops.{initial}
use lumo_compositor.Bridge.{
  Shell, App, rotation_normal, sample_up, on_nothing, build_state_frame, broadcast_text,
  snapshot_text, add_entries, add_entry, frame_add_printed, scrim_state_name, rotation_name,
  touch_sample_type_name, touch_target_kind_name, hitbox_kind_name,
}
use lumo_compositor.Bridge.Strings.{IsShell}
use lumo_compositor.Bridge.Clients.{Clients, HasState, broadcast_state, broadcast_state-HasState}
use lumo_compositor.Bridge.Writing.{
  write_all, sent, interrupted, failed, would_block, write_all-prefix,
}

write_all-prefix_example :
    ((write_all (sent 2 ∷ interrupted ∷ would_block true ∷ sent 3 ∷ []) (codes "hello")).out
        ++ (write_all (sent 2 ∷ interrupted ∷ would_block true ∷ sent 3 ∷ []) (codes "hello")).left
      ≡ codes "hello")
    × ((write_all (sent 2 ∷ interrupted ∷ would_block true ∷ sent 3 ∷ []) (codes "hello")).answer
          ≡ some true
        → (write_all (sent 2 ∷ interrupted ∷ would_block true ∷ sent 3 ∷ []) (codes "hello")).out
          ≡ codes "hello")
write_all-prefix_example =
    write_all-prefix (sent 2 ∷ interrupted ∷ would_block true ∷ sent 3 ∷ []) (codes "hello")

abbrev app : Bytes → Bytes → App
app id title = record { app_id = some id; title = some title }

abbrev pub shell : List App → Shell
shell apps = record {
  ui = initial true [];
  audit = cleared;
  apps = apps;
  rotation = rotation_normal;
  gesture_threshold = codes "24.00";
  gesture_timeout_ms = 180;
  output_size = some (1280, 800);
  touch_debug_active = false;
  touch_debug_id = none;
  touch_debug_x = codes "0.00";
  touch_debug_y = codes "0.00";
  touch_debug_phase = sample_up;
  touch_debug_target = on_nothing;
  weather_condition = [];
  weather_code = 0;
  weather_temp = 118;
  weather_humidity = [];
  weather_wind = [];
  volume_pct = 50;
  brightness_pct = 80;
  toast_time_ms = 0;
  toast_duration_ms = 0;
}

abbrev three_apps : List App
three_apps =
    app (codes "org.gnome.Calculator") (codes "Calculator")
    ∷ app (codes "org.gnome.TextEditor") (codes "Notes")
    ∷ app (codes "org.mozilla.firefox") (codes "Mozilla Firefox")
    ∷ []

-- The number of bytes that are sent.
abbrev sent_bytes : Option Bytes → ℕ
sent_bytes none = 0
sent_bytes (some bytes) = length bytes

-- With three windows the state does not fit a snapshot, and is broadcast.
three_windows :
    (sent_bytes (snapshot_text (shell three_apps)) ≡ 0)
    × (sent_bytes (broadcast_text (shell three_apps)) ≡ 1029)
unfolding snapshot_text broadcast_text build_state_frame add_entries add_entry frame_add_printed
    scrim_state_name rotation_name touch_sample_type_name touch_target_kind_name hitbox_kind_name
    frame_init copy_token copy_value frame_add_field frame_add_bool frame_add_u32 frame_add_string
    frame_format append append_fields frame_kind_name decimal decimal_onto
three_windows = (refl, refl)

-- The bytes of the state without windows.
abbrev bytes_or_none : Option Bytes → Bytes
bytes_or_none none = []
bytes_or_none (some bytes) = bytes

abbrev pub idle_bytes : Bytes
idle_bytes = bytes_or_none (broadcast_text (shell []))

idle_sent : broadcast_text (shell []) ≡ some idle_bytes
unfolding broadcast_text build_state_frame add_entries add_entry frame_add_printed scrim_state_name
    rotation_name touch_sample_type_name touch_target_kind_name hitbox_kind_name frame_init
    copy_token copy_value frame_add_field frame_add_bool frame_add_u32 frame_add_string frame_format
    append append_fields frame_kind_name decimal decimal_onto
idle_sent = refl

pub idle_strings : IsShell (shell [])
idle_strings = record {
  toast = refl;
  notes = tt;
  windows = tt;
  profile = refl;
  threshold = refl;
  debug_x = refl;
  debug_y = refl;
  condition = refl;
  humidity = refl;
  wind = refl;
}

-- One client takes the text in two pieces, and one hangs up.
abbrev two_clients : Clients
two_clients = record {
  clients =
      record { fd = 7; answers = sent 500 ∷ sent 600 ∷ []; received = [] }
      ∷ record { fd = 8; answers = failed ∷ []; received = [] }
      ∷ [];
  broadcast_pending = true;
}

broadcast_state-HasState_example :
    All (HasState (shell [])) (broadcast_state (shell []) two_clients).clients
    × ((broadcast_state (shell []) two_clients).broadcast_pending ≡ false)
broadcast_state-HasState_example =
    broadcast_state-HasState (shell []) two_clients idle_bytes idle_strings (refl, (refl, tt))
      idle_sent
