-- ===== src/Bridge/Strings.antt =====
-- The strings of the broadcast state (compositor/src/shell/shell_bridge.c) hold no NUL, and so do the fields.
use lumo_compositor.Base.{
  ℕ, zero, suc, ◌+◌, List, [], ◌∷◌, ◌++◌, Option, none, some, take, length, All, All-append, refl,
}
use lumo_compositor.CString.{Bytes, codes}
use lumo_compositor.Ui.{Ui, Scrim, Notification, hidden, dimmed, modal}
use lumo_compositor.Bridge.{
  App, Shell, app_entries, notification_entries, visible_entries, later_entries, or_text, string_or,
  output_entries, scrim_state_name, rotation_name, Rotation, rotation_normal, rotation_90,
  rotation_180, rotation_270, touch_sample_type_name, SampleType, sample_down, sample_motion,
  sample_up, sample_cancel, touch_target_kind_name, debug_hitbox_name, hitbox_kind_name,
  DebugTarget, on_nothing, on_surface, on_hitbox, tile_hitbox, osk_hitbox, edge_hitbox,
  scrim_hitbox, custom_hitbox, gesture_entries, audit_entries, debug_entries, weather_entries,
  shown_notifications,
}
use lumo_compositor.Bridge.Entries.{
  IsString, IsText, IsChecked, bool_text-IsString, decimal-IsString, flag-IsChecked,
  number-IsChecked,
}

infixr 4 ◌&◌
abbrev ◌&◌ : {A B : Type 0} → A → B → A × B
a & b = (a, b)

abbrev pub IsApp : App → Type 0
IsApp app = IsString (string_or app.app_id []) × IsString (string_or app.title [])

abbrev pub IsNotification : Notification → Type 0
IsNotification n = IsString n.text

-- The strings of the state hold no NUL.
pub record IsShell (s : Shell) : Type 0 where
  pub toast : IsString s.ui.toast_message
  pub notes : All IsNotification s.ui.notifications
  pub windows : All IsApp s.apps
  pub profile : IsString s.audit.profile_name
  pub threshold : IsString s.gesture_threshold
  pub debug_x : IsString s.touch_debug_x
  pub debug_y : IsString s.touch_debug_y
  pub condition : IsString s.weather_condition
  pub humidity : IsString s.weather_humidity
  pub wind : IsString s.weather_wind

or_text-IsString : (s other : Bytes) → IsString s → IsString other → IsString (or_text s other)
or_text-IsString [] other h k = k
or_text-IsString (c ∷ cs) other h k = h

string_or-IsString :
    (o : Option Bytes) (other : Bytes)
    → IsString (string_or o [])
    → IsString other
    → IsString (string_or o other)
string_or-IsString none other h k = k
string_or-IsString (some s) other h k = h

pub app_entries-IsText :
    (n room : ℕ) (apps : List App) → All IsApp apps → All IsText (app_entries n room apps)
app_entries-IsText n zero apps h = (decimal-IsString n, tt)
app_entries-IsText n (suc room) [] h = (decimal-IsString n, tt)
app_entries-IsText n (suc room) (app ∷ apps) h =
    string_or-IsString app.app_id (codes "unknown") h.0.0 refl
    & string_or-IsString app.title [] h.0.1 refl
    & app_entries-IsText (n + 1) room apps h.1

notification_entries-IsText :
    (i : ℕ) (ns : List Notification)
    → All IsNotification ns
    → All IsText (notification_entries i ns)
notification_entries-IsText i [] h = tt
notification_entries-IsText i (n ∷ ns) h = (h.0, notification_entries-IsText (i + 1) ns h.1)

All-take : {A : Type 0} (P : A → Type 0) (n : ℕ) (xs : List A) → All P xs → All P (take n xs)
All-take P zero xs h = tt
All-take P (suc n) [] h = tt
All-take P (suc n) (x ∷ xs) h = (h.0, All-take P n xs h.1)

pub visible_entries-IsText : (ui : Ui) → All IsText (visible_entries ui)
visible_entries-IsText ui =
    bool_text-IsString ui.launcher_visible
    & bool_text-IsString ui.keyboard_visible
    & bool_text-IsString ui.osk_shift_active
    & decimal-IsString ui.osk_page
    & bool_text-IsString ui.quick_settings_visible
    & bool_text-IsString ui.time_panel_visible
    & bool_text-IsString ui.notification_panel_visible
    & bool_text-IsString ui.sidebar_visible
    & tt

scrim_state_name-IsString : (scrim : Scrim) → IsString (scrim_state_name scrim)
unfolding scrim_state_name
scrim_state_name-IsString hidden = refl
scrim_state_name-IsString dimmed = refl
scrim_state_name-IsString modal = refl

rotation_name-IsString : (rotation : Rotation) → IsString (rotation_name rotation)
unfolding rotation_name
rotation_name-IsString rotation_normal = refl
rotation_name-IsString rotation_90 = refl
rotation_name-IsString rotation_180 = refl
rotation_name-IsString rotation_270 = refl

sample-IsString : (sample : SampleType) → IsString (touch_sample_type_name sample)
unfolding touch_sample_type_name
sample-IsString sample_down = refl
sample-IsString sample_motion = refl
sample-IsString sample_up = refl
sample-IsString sample_cancel = refl

target-IsString : (target : DebugTarget) → IsString (touch_target_kind_name target)
unfolding touch_target_kind_name
target-IsString on_nothing = refl
target-IsString on_surface = refl
target-IsString (on_hitbox kind) = refl

hitbox-IsString : (target : DebugTarget) → IsString (debug_hitbox_name target)
unfolding hitbox_kind_name
hitbox-IsString on_nothing = refl
hitbox-IsString on_surface = refl
hitbox-IsString (on_hitbox tile_hitbox) = refl
hitbox-IsString (on_hitbox osk_hitbox) = refl
hitbox-IsString (on_hitbox edge_hitbox) = refl
hitbox-IsString (on_hitbox scrim_hitbox) = refl
hitbox-IsString (on_hitbox custom_hitbox) = refl

gesture_entries-IsText : (s : Shell) → IsShell s → All IsText (gesture_entries s)
gesture_entries-IsText s w =
    scrim_state_name-IsString s.ui.scrim_state
    & rotation_name-IsString s.rotation
    & w.threshold
    & decimal-IsString s.gesture_timeout_ms
    & bool_text-IsString s.ui.keyboard_resize_pending
    & decimal-IsString s.ui.keyboard_resize_serial
    & bool_text-IsString s.ui.keyboard_resize_acked
    & tt

audit_entries-IsText : (s : Shell) → IsShell s → All IsText (audit_entries s)
audit_entries-IsText s w =
    bool_text-IsString s.ui.touch_audit_active
    & decimal-IsString s.audit.step
    & decimal-IsString s.audit.completed_mask
    & bool_text-IsString s.audit.saved
    & or_text-IsString s.audit.profile_name (codes "none") w.profile refl
    & tt

output_entries-IsText : (size : Option (ℕ × ℕ)) → All IsText (output_entries size)
output_entries-IsText none = tt
output_entries-IsText (some (width, height)) = decimal-IsString width & decimal-IsString height & tt

debug_entries-IsText : (s : Shell) → IsShell s → All IsText (debug_entries s)
debug_entries-IsText s w =
    bool_text-IsString s.touch_debug_active
    & decimal-IsString _
    & w.debug_x
    & w.debug_y
    & sample-IsString s.touch_debug_phase
    & target-IsString s.touch_debug_target
    & hitbox-IsString s.touch_debug_target
    & tt

weather_entries-IsText : (s : Shell) → IsShell s → All IsText (weather_entries s)
weather_entries-IsText s w =
    or_text-IsString s.weather_condition (codes "unknown") w.condition refl
    & decimal-IsString s.weather_code
    & decimal-IsString s.weather_temp
    & or_text-IsString s.weather_humidity (codes "--") w.humidity refl
    & or_text-IsString s.weather_wind (codes "--") w.wind refl
    & decimal-IsString s.volume_pct
    & decimal-IsString s.brightness_pct
    & or_text-IsString s.ui.toast_message (codes "-") w.toast refl
    & decimal-IsString _
    & decimal-IsString s.toast_duration_ms
    & tt

pub later_entries-IsText : (s : Shell) → IsShell s → All IsText (later_entries s)
later_entries-IsText s w =
    decimal-IsString (length (shown_notifications s.ui))
    & All-append IsText (notification_entries 0 (shown_notifications s.ui)) _
        (notification_entries-IsText 0 (shown_notifications s.ui)
          (All-take IsNotification 8 s.ui.notifications w.notes))
        (All-append IsText (gesture_entries s)
          (audit_entries s
            ++ (output_entries s.output_size ++ (debug_entries s ++ weather_entries s)))
          (gesture_entries-IsText s w)
          (All-append IsText (audit_entries s)
            (output_entries s.output_size ++ (debug_entries s ++ weather_entries s))
            (audit_entries-IsText s w)
            (All-append IsText (output_entries s.output_size) (debug_entries s ++ weather_entries s)
              (output_entries-IsText s.output_size)
              (All-append IsText (debug_entries s) (weather_entries s) (debug_entries-IsText s w)
                (weather_entries-IsText s w)))))

pub visible_entries-IsChecked : (ui : Ui) → All IsChecked (visible_entries ui)
visible_entries-IsChecked ui =
    flag-IsChecked (codes "launcher_visible") ui.launcher_visible
    & flag-IsChecked (codes "keyboard_visible") ui.keyboard_visible
    & flag-IsChecked (codes "osk_shift") ui.osk_shift_active
    & number-IsChecked (codes "osk_page") ui.osk_page
    & flag-IsChecked (codes "quick_settings_visible") ui.quick_settings_visible
    & flag-IsChecked (codes "time_panel_visible") ui.time_panel_visible
    & flag-IsChecked (codes "notification_panel_visible") ui.notification_panel_visible
    & flag-IsChecked (codes "sidebar_visible") ui.sidebar_visible
    & tt
