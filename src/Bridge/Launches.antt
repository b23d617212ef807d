-- ===== src/Bridge/Launches.antt =====
-- Which processes the clients of the bridge can start: the note on command injection above
-- lumo_shell_launch_app of compositor/src/shell/shell_bridge.c, and the helpers that
-- compositor/src/shell/shell_hw.c runs.
use lumo_compositor.Base.{
  ℕ, Bool, true, false, ◌&&◌, List, [], ◌∷◌, ◌++◌, ◌≡◌, refl, all, all-append, arith, leb,
  if◌then◌else◌,
}
use lumo_compositor.Ui.{
  Ui, Effect, launch, write_volume, write_brightness, refresh_hitboxes, schedule_frames, osk_node,
  start_timer, remove_timer, same, emit, set_keyboard_visible, set_launcher_visible,
  set_sidebar_visible, set_quick_settings_visible, set_time_panel_visible,
  set_notification_panel_visible, ack_keyboard_resize, osk_toggle_page, osk_set_page, cancel_timer,
  arm_timer,
}
use lumo_compositor.Ui.Closed.{starts_process, KeepsSetters, either_keeps}
use lumo_compositor.Bridge.Keeps.{is_program}

abbrev pub allowed : Effect → Bool
allowed (launch command) = is_program command
allowed (write_volume pct) = leb pct 100
allowed (write_brightness pct) = leb pct 100
allowed _ = true

-- Only known programs were started, and helpers with a level of at most 100.
abbrev pub StartsKnown : Ui → Type 0
StartsKnown ui = all allowed ui.effects ≡ true

quiet-allowed : (e : Effect) → starts_process e ≡ false → allowed e ≡ true
quiet-allowed (launch command) h = cc
quiet-allowed (write_volume pct) h = cc
quiet-allowed (write_brightness pct) h = cc
quiet-allowed _ h = refl

one_more :
    (e : Effect) (es : List Effect)
    → allowed e ≡ true
    → all allowed es ≡ true
    → all allowed (es ++ e ∷ []) ≡ true
one_more e es known w = ground (arith, all-append allowed es (e ∷ []))

pub emit-StartsKnown :
    (e : Effect) (ui : Ui) → allowed e ≡ true → StartsKnown ui → StartsKnown (emit e ui)
emit-StartsKnown e ui known w = one_more e ui.effects known w

-- Behind the refresh of the hitboxes and of the outputs.
redrawn :
    (es : List Effect)
    → all allowed es ≡ true
    → all allowed ((es ++ refresh_hitboxes ∷ []) ++ schedule_frames ∷ []) ≡ true
redrawn es w =
    one_more schedule_frames (es ++ refresh_hitboxes ∷ []) refl
      (one_more refresh_hitboxes es refl w)

keyboard-StartsKnown :
    (v : Bool) (ui : Ui) → StartsKnown ui → StartsKnown (set_keyboard_visible v ui)
unfolding set_keyboard_visible osk_set_page
keyboard-StartsKnown true ui w =
    either_keeps StartsKnown (same ui.keyboard_visible true) w
      (redrawn (ui.effects ++ osk_node true ∷ []) (one_more (osk_node true) ui.effects refl w))
keyboard-StartsKnown false ui w =
    either_keeps StartsKnown (same ui.keyboard_visible false) w
      (redrawn (ui.effects ++ osk_node false ∷ []) (one_more (osk_node false) ui.effects refl w))

launcher-StartsKnown :
    (v : Bool) (ui : Ui) → StartsKnown ui → StartsKnown (set_launcher_visible v ui)
unfolding set_launcher_visible
launcher-StartsKnown true ui w =
    let opened = record ui { launcher_visible = true } in
    let alone = if ui.keyboard_visible then set_keyboard_visible false opened else opened in
    let w' : StartsKnown alone =
      either_keeps StartsKnown ui.keyboard_visible (keyboard-StartsKnown false opened w) w in
    either_keeps StartsKnown (same ui.launcher_visible true) w (redrawn alone.effects w')
launcher-StartsKnown false ui w =
    either_keeps StartsKnown (same ui.launcher_visible false) w (redrawn ui.effects w)

quick_settings-StartsKnown :
    (v : Bool) (ui : Ui) → StartsKnown ui → StartsKnown (set_quick_settings_visible v ui)
unfolding set_quick_settings_visible
quick_settings-StartsKnown v ui w =
    either_keeps StartsKnown (same ui.quick_settings_visible v) w
      (one_more schedule_frames ui.effects refl w)

time_panel-StartsKnown :
    (v : Bool) (ui : Ui) → StartsKnown ui → StartsKnown (set_time_panel_visible v ui)
unfolding set_time_panel_visible
time_panel-StartsKnown v ui w =
    either_keeps StartsKnown (same ui.time_panel_visible v) w
      (one_more schedule_frames ui.effects refl w)

notification_panel-StartsKnown :
    (v : Bool) (ui : Ui) → StartsKnown ui → StartsKnown (set_notification_panel_visible v ui)
unfolding set_notification_panel_visible
notification_panel-StartsKnown v ui w =
    either_keeps StartsKnown (same ui.notification_panel_visible v) w
      (one_more schedule_frames ui.effects refl w)

sidebar-StartsKnown : (v : Bool) (ui : Ui) → StartsKnown ui → StartsKnown (set_sidebar_visible v ui)
unfolding set_sidebar_visible
sidebar-StartsKnown v ui w =
    let changed = record ui { sidebar_visible = v } in
    let off =
      either_keeps StartsKnown ui.sidebar_timer (one_more remove_timer changed.effects refl w) w in
    let u = cancel_timer changed in
    let armed =
      either_keeps StartsKnown (v && u.timer_available)
        (one_more (start_timer 10000) u.effects refl off) off in
    let last : Ui = arm_timer v u in
    either_keeps StartsKnown (same ui.sidebar_visible v) w (
      one_more refresh_hitboxes (last.effects ++ schedule_frames ∷ []) refl
        (one_more schedule_frames last.effects refl armed))

acks-StartsKnown : (n : ℕ) (ui : Ui) → StartsKnown ui → StartsKnown (ack_keyboard_resize n ui)
unfolding ack_keyboard_resize
acks-StartsKnown n ui w = ground arith

pub StartsKnown-KeepsSetters : KeepsSetters StartsKnown
unfolding osk_toggle_page
StartsKnown-KeepsSetters = record {
  keys = record {
    calls = λ e ui quiet w. emit-StartsKnown e ui (quiet-allowed e quiet) w;
    dirties = λ ui w. w;
    typed = λ text ui w. w;
    shifts = λ b ui w. w;
    pages = λ ui w. w;
    keyboard = keyboard-StartsKnown;
  };
  launcher = launcher-StartsKnown;
  quick_settings = quick_settings-StartsKnown;
  time_panel = time_panel-StartsKnown;
  notification_panel = notification_panel-StartsKnown;
  sidebar = sidebar-StartsKnown;
  scrim = λ s ui w. w;
  audit_flag = λ v ui w. w;
  windows = λ ts ui w. w;
  layers = λ ui w. w;
  volume = λ pct ui small w. emit-StartsKnown (write_volume pct) ui (ground arith) w;
  brightness = λ pct ui small w. emit-StartsKnown (write_brightness pct) ui (ground arith) w;
  acks = acks-StartsKnown;
}
