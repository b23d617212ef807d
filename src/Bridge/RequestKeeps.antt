-- ===== src/Bridge/RequestKeeps.antt =====
-- What the requests other than activate_target keep of the shell's state, and so every request
-- (compositor/src/shell/shell_bridge.c).
use mathlib.Core.Path.{subst}
use lumo_compositor.Base.{
  some-inj, ◌>>=◌, ℕ, ◌≤◌, arith, Bool, true, false, Option, none, some, ◌≡◌, refl, if◌then◌else◌,
  get_elem?,
}
use lumo_compositor.CString.{Bytes, codes, str_eq}
use lumo_compositor.Frame.{Frame, frame_get, frame_get_bool, frame_get_u32}
use lumo_compositor.Ui.{
  Ui, Scrim, Toplevel, hidden, dimmed, emit, launch, set_launcher_visible, set_keyboard_visible,
  set_sidebar_visible,
}
use lumo_compositor.Ui.Audit.{audit_set_active}
use lumo_compositor.Ui.Closed.{
  KeepsSetters, either_keeps, set_scrim_state-keeps, mark_layers_dirty-keeps, audit_ui-keeps,
}
use lumo_compositor.Ui.Edges.{Closing, dismiss_notifications, dismiss_quick_settings}
use lumo_compositor.Bridge.{Rotation}
use lumo_compositor.Bridge.Desk.{Doubles, Desk, Reply, done}
use lumo_compositor.Bridge.Names.{rotation_parse, scrim_state_parse}
use lumo_compositor.Bridge.Targets.{number_or}
use lumo_compositor.Bridge.Requests.{
  with_flag, changed, request_launcher, request_keyboard, request_scrim, scrim_reply,
  request_threshold, threshold_reply, request_ack, ack_reply, request_rotation, rotation_reply,
  set_audit, request_audit, clamp_pct, set_volume, request_volume, set_brightness,
  request_brightness, show_toast, request_toast, request_screenshot, request_reload,
  output_set_rotation, next_rotation, request_cycle,
}
use lumo_compositor.Bridge.Windows.{
  Request, activating, launcher_request, keyboard_request, scrim_request, threshold_request,
  ack_request, rotation_request, audit_request, volume_request, brightness_request, toast_request,
  screenshot_request, ping_request, reload_request, cycle_request, close_request, focus_request,
  minimize_request, new_window_request, drawer_request, close_focused_app, send_close_to, close_at,
  close_reply, request_close, enable_at, focus_reply, request_focus, any_enabled, minimized,
  request_minimize, new_window_command, launch_window, request_new_window, request_drawer, serve,
  serve_found, handle_request, find_request, request_names, id_at,
}
use lumo_compositor.Bridge.Keeps.{
  is_program, Served, Holds, show_window-keeps, activate_target-keeps,
}

known_terminal : is_program (codes "lumo-app:terminal") ≡ true
unfolding str_eq
known_terminal = refl

known_browser : is_program (codes "lumo-app:browser") ≡ true
unfolding str_eq
known_browser = refl

pub new_window_command-is_program :
    (aid : Option Bytes) (c : Bytes) → new_window_command aid ≡ some c → is_program c ≡ true
unfolding new_window_command
new_window_command-is_program none c h = cc
new_window_command-is_program (some aid) c h = go _ _ h
  where
    go :
        (terminal browser : Bool)
        → (if terminal
            then some (codes "lumo-app:terminal")
            else if browser
            then some (codes "lumo-app:browser")
            else none)
          ≡ some c
        → is_program c ≡ true
    go true browser e = subst (λ x. is_program x ≡ true) (some-inj e) known_terminal
    go false true e = subst (λ x. is_program x ≡ true) (some-inj e) known_browser
    go false false e = cc

clamp_pct_bound : (pct : ℕ) → clamp_pct pct ≤ 100
clamp_pct_bound pct = ground arith

module _ (P : Ui → Type 0) (keeps : KeepsSetters P)
    (launched : (c : Bytes) (ui : Ui) → is_program c ≡ true → P ui → P (emit (launch c) ui)) where
  flag_keeps :
      (key : Bytes) (o : Option Bool) (set : Bool → Desk → Reply) (d : Desk)
      → ((v : Bool) → Holds P d → Served P (set v d))
      → Holds P d
      → Served P (with_flag key o set d)
  flag_keeps key none set d h w = w
  flag_keeps key (some v) set d h w = h v w

  scrim_reply-keeps : (o : Option Scrim) (d : Desk) → Holds P d → Served P (scrim_reply o d)
  scrim_reply-keeps none d w = w
  scrim_reply-keeps (some state) d w = set_scrim_state-keeps P keeps state _ w

  threshold_reply-keeps :
      {D : Type 0} (doubles : Doubles D) (o : Option D) (timeout_ms : ℕ) (d : Desk)
      → Holds P d
      → Served P (threshold_reply doubles o timeout_ms d)
  threshold_reply-keeps doubles none timeout_ms d w = w
  threshold_reply-keeps doubles (some value) timeout_ms d w = keeps.keys.dirties _ w

  ack_reply-keeps : (o : Option ℕ) (d : Desk) → Holds P d → Served P (ack_reply o d)
  ack_reply-keeps none d w = w
  ack_reply-keeps (some serial) d w = keeps.acks serial _ w

  rotation_reply-keeps :
      (o : Option Rotation) (d : Desk) → Holds P d → Served P (rotation_reply o d)
  rotation_reply-keeps none d w = w
  rotation_reply-keeps (some turned) d w = keeps.keys.dirties _ w

  set_audit-keeps : (active : Bool) (d : Desk) → Holds P d → Holds P (set_audit active d)
  unfolding audit_set_active
  set_audit-keeps active d w = audit_ui-keeps P keeps active _ w

  set_volume-keeps : (o : Option ℕ) (d : Desk) → Holds P d → Holds P (set_volume o d)
  set_volume-keeps none d w = w
  set_volume-keeps (some pct) d w = keeps.keys.dirties _ (keeps.volume _ _ (clamp_pct_bound pct) w)

  set_brightness-keeps : (o : Option ℕ) (d : Desk) → Holds P d → Holds P (set_brightness o d)
  set_brightness-keeps none d w = w
  set_brightness-keeps (some pct) d w =
      keeps.keys.dirties _ (keeps.brightness _ _ (clamp_pct_bound pct) w)

  show_toast-keeps :
      (o : Option Bytes) (duration : ℕ) (d : Desk) → Holds P d → Holds P (show_toast o duration d)
  show_toast-keeps none duration d w = w
  show_toast-keeps (some message) duration d w = keeps.keys.dirties _ (keeps.keys.typed _ _ w)

  request_screenshot-keeps : (d : Desk) → Holds P d → Served P (request_screenshot d)
  unfolding request_screenshot
  request_screenshot-keeps d w =
      let x = d.shell.ui in
      let a = either_keeps P x.notification_panel_visible (keeps.notification_panel false x w) w in
      let y = dismiss_notifications x in
      let b = either_keeps P y.quick_settings_visible (keeps.quick_settings false y a) a in
      let z = dismiss_quick_settings y in
      either_keeps P z.time_panel_visible (keeps.time_panel false z b) b

  output_set_rotation-keeps :
      (r : Rotation) (d : Desk) → Holds P d → Holds P (output_set_rotation r d)
  unfolding output_set_rotation
  output_set_rotation-keeps r d w = keeps.keys.dirties _ (
      keeps.keys.calls _ _ refl (
        mark_layers_dirty-keeps P keeps _
          (keeps.keys.calls _ _ refl (keeps.keys.calls _ _ refl w))))

  send_close_to-keeps : (o : Option ℕ) (d : Desk) → Holds P d → Holds P (send_close_to o d)
  send_close_to-keeps none d w = w
  send_close_to-keeps (some handle) d w = keeps.keys.calls _ _ refl w

  close_at-keeps : (o : Option Toplevel) (d : Desk) → Holds P d → Served P (close_at o d)
  close_at-keeps none d w = w
  close_at-keeps (some t) d w = send_close_to-keeps (some t.handle) d w

  close_reply-keeps : (o : Option ℕ) (d : Desk) → Holds P d → Served P (close_reply o d)
  close_reply-keeps none d w =
      send_close_to-keeps
        (close_focused_app d.keyboard_focus d.pointer_focus d.shell.ui.toplevels).window d w
  close_reply-keeps (some index) d w = close_at-keeps (get_elem? d.shell.ui.toplevels index) d w

  focus_reply-keeps : (o : Option Closing) (d : Desk) → Holds P d → Served P (focus_reply o d)
  focus_reply-keeps none d w = w
  focus_reply-keeps (some c) d w =
      set_scrim_state-keeps P keeps dimmed _
        (keeps.sidebar false _ (keeps.launcher false _ (show_window-keeps P keeps launched c d w)))

  minimized-keeps : (d : Desk) → Holds P d → Holds P (minimized d)
  minimized-keeps d w = set_scrim_state-keeps P keeps hidden _ (
      keeps.sidebar false _
        (keeps.launcher false _ (keeps.keys.calls _ _ refl (keeps.windows _ _ w))))

  request_minimize-keeps : (d : Desk) → Holds P d → Served P (request_minimize d)
  unfolding request_minimize
  request_minimize-keeps d w = go (any_enabled d.shell.ui.toplevels)
    where
      go : (b : Bool) → Holds P (if b then minimized d else d)
      go true = minimized-keeps d w
      go false = w

  launch_window-keeps :
      (o : Option Bytes) (ui : Ui)
      → ((c : Bytes) → o ≡ some c → is_program c ≡ true)
      → P ui
      → P (launch_window o ui)
  launch_window-keeps none ui known w = w
  launch_window-keeps (some c) ui known w = keeps.sidebar false _ (launched c ui (known c refl) w)

  pub serve-keeps :
      {D : Type 0} (doubles : Doubles D) (r : Request) (f : Frame) (d : Desk)
      → Holds P d
      → Served P (serve doubles r f d)
  unfolding serve request_launcher request_keyboard request_scrim request_threshold request_ack
      request_rotation request_audit request_volume request_brightness request_toast request_reload
      request_cycle request_close request_focus request_new_window request_drawer
  serve-keeps doubles activating f d w = activate_target-keeps P keeps launched f d w
  serve-keeps doubles launcher_request f d w =
      flag_keeps (codes "visible") (frame_get_bool f (codes "visible"))
        (λ v. changed (set_launcher_visible v)) d (λ v h. keeps.launcher v d.shell.ui h) w
  serve-keeps doubles keyboard_request f d w =
      flag_keeps (codes "visible") (frame_get_bool f (codes "visible"))
        (λ v. changed (set_keyboard_visible v)) d (λ v h. keeps.keys.keyboard v d.shell.ui h) w
  serve-keeps doubles scrim_request f d w =
      scrim_reply-keeps (do value ← frame_get f (codes "state"); scrim_state_parse value) d w
  serve-keeps doubles threshold_request f d w =
      threshold_reply-keeps doubles (do text ← frame_get f (codes "threshold"); doubles.parse text)
        (number_or (frame_get_u32 f (codes "timeout_ms")) d.shell.gesture_timeout_ms) d w
  serve-keeps doubles ack_request f d w = ack_reply-keeps (frame_get_u32 f (codes "serial")) d w
  serve-keeps doubles rotation_request f d w =
      rotation_reply-keeps (do value ← frame_get f (codes "rotation"); rotation_parse value) d w
  serve-keeps doubles audit_request f d w =
      flag_keeps (codes "active") (frame_get_bool f (codes "active")) (λ v e. done (set_audit v e))
        d (λ v h. set_audit-keeps v d h) w
  serve-keeps doubles volume_request f d w = set_volume-keeps (frame_get_u32 f (codes "pct")) d w
  serve-keeps doubles brightness_request f d w =
      set_brightness-keeps (frame_get_u32 f (codes "pct")) d w
  serve-keeps doubles toast_request f d w =
      show_toast-keeps (frame_get f (codes "message"))
        (number_or (frame_get_u32 f (codes "duration")) 3000) d w
  serve-keeps doubles screenshot_request f d w = request_screenshot-keeps d w
  serve-keeps doubles ping_request f d w = w
  serve-keeps doubles reload_request f d w = w
  serve-keeps doubles cycle_request f d w =
      output_set_rotation-keeps (next_rotation d.shell.rotation) d w
  serve-keeps doubles close_request f d w = close_reply-keeps (frame_get_u32 f (codes "index")) d w
  serve-keeps doubles focus_request f d w =
      focus_reply-keeps
        (enable_at (number_or (frame_get_u32 f (codes "index")) 0) d.shell.ui.toplevels) d w
  serve-keeps doubles minimize_request f d w = request_minimize-keeps d w
  serve-keeps doubles new_window_request f d w =
      let window = get_elem? d.shell.ui.toplevels (number_or (frame_get_u32 f (codes "index")) 0) in
      launch_window-keeps (new_window_command (id_at window d)) d.shell.ui
        (λ c h. new_window_command-is_program (id_at window d) c h) w
  serve-keeps doubles drawer_request f d w =
      keeps.launcher true (set_sidebar_visible false d.shell.ui) (keeps.sidebar false d.shell.ui w)

  -- Every request keeps it.
  pub handle_request-keeps :
      {D : Type 0} (doubles : Doubles D) (f : Frame) (d : Desk)
      → Holds P d
      → Served P (handle_request doubles f d)
  unfolding handle_request find_request
  handle_request-keeps doubles f d w = go (find_request f.name request_names)
    where
      go : (o : Option Request) → Served P (serve_found doubles o f d)
      go none = w
      go (some r) = serve-keeps doubles r f d w
