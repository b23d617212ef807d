-- ===== src/Remote/Weather.antt =====
-- The touch of the weather in the time panel (compositor/src/shell/shell_input.c) and what the compositor
-- answers (compositor/src/shell/shell_bridge.c).
use lumo_compositor.Base.{
  ℕ, ◌<◌, ◌^◌, Bool, true, false, not, ◌&&◌, ◌||◌, none, some, List, [], ◌∷◌, ◌≡◌, refl, sym, ap,
  ◌∙◌, arith, if◌then◌else◌,
}
use lumo_compositor.CString.{codes, str_eq}
use lumo_compositor.Frame.{
  IsFrame, IsToken, max_key_length, frame_init, frame_add_string, frame_get, find_field, copy_token,
}
use lumo_compositor.Layout.Modes.{ShellMode, launcher, osk, gesture, status, background, sidebar}
use lumo_compositor.Layout.Panels.{time_panel_rect}
use lumo_compositor.Layout.Signed.{pos}
use lumo_compositor.Stream.{fresh, feed}
use lumo_compositor.Bridge.{keep}
use lumo_compositor.Bridge.Answers.{add_known, IsValue-of}
use lumo_compositor.Bridge.Desk.{Doubles, Desk, Reply, fail}
use lumo_compositor.Bridge.Serving.{Connection, chunk, would_block, client_event}
use lumo_compositor.Bridge.Targets.{activate_target}
use lumo_compositor.Bridge.Windows.{handle_request, find_request, serve}
use lumo_compositor.Bridge.Writing.{SendAnswer, Written}
use lumo_compositor.Remote.Asks.{ask_weather, in_lower_half}
use lumo_compositor.Remote.Hand.{
  Hand, is_launcher, is_sidebar, same_touch, set_target, pressed_at, touch_down, start_swipe,
  press_sidebar, note_down, note_target, panel_over_home,
}
use lumo_compositor.Remote.Perform.{perform}
use lumo_compositor.Remote.Points.{Point}
use lumo_compositor.Remote.Release.{
  Released, on_search_bar, touch_up, release_target, after_quick, lifted, sends, release_on,
  ends_swipe, at_home, on_weather, release_swipe, weather_request,
}
use lumo_compositor.Remote.Senders.{send_request, send_weather_command, send_built}
use lumo_compositor.Remote.Sent.{start, one_field, one_field-IsFrame, send_frame-read, sent_request}
use lumo_compositor.Remote.Taps.{either_left, either_right, same_id, quick_none}

launcher-is_sidebar : (m : ShellMode) → is_launcher m ≡ true → is_sidebar m ≡ false
launcher-is_sidebar launcher h = refl
launcher-is_sidebar osk h = refl
launcher-is_sidebar gesture h = refl
launcher-is_sidebar status h = refl
launcher-is_sidebar background h = refl
launcher-is_sidebar sidebar h = cc

-- The tests on the way of the touch.
over_home :
    (m v q t : Bool)
    → m ≡ true
    → v ≡ false
    → t ≡ true
    → ((m && not v && (q || t)) ≡ true) × ((m && not v && t) ≡ true)
over_home m v q t h k e = ground arith

drawer_closed : (m v x : Bool) → v ≡ false → (m && v && x) ≡ false
drawer_closed m v x h = ground arith

module _ {D : Type 0} where
  -- Where a touch at home below an open panel finds the hand.
  abbrev over_panel : ℕ → Point → Hand D → Hand D
  over_panel id p h = record (set_target none (pressed_at id p h)) {
    launcher_page = if h.launcher_snap_active then h.launcher_snap_page else h.launcher_page;
    launcher_snap_active = false;
    launcher_swipe_x = p.x;
    launcher_swipe_offset = pos 0;
    launcher_swiping = false;
  }

  down_over_panel :
      (now surface id : ℕ) (p : Point) (h : Hand D)
      → h.remote.unified ≡ false
      → is_launcher h.remote.mode ≡ true
      → panel_over_home h.remote ≡ true
      → touch_down now surface id p h ≡ over_panel id p h
  unfolding touch_down
  down_over_panel now surface id p h one home over =
      let g = pressed_at id p h in
      ap (λ (x : Hand D). start_swipe (press_sidebar now (note_down x)))
        (either_left h.remote.unified _ g one)
      ∙ ap (λ (x : Hand D). start_swipe (press_sidebar now x))
          (either_right (panel_over_home h.remote) (set_target none g) (note_target p g) over)
      ∙ ap (λ (x : Hand D). start_swipe x)
          (either_left (is_sidebar h.remote.mode) _ (set_target none g)
            (launcher-is_sidebar h.remote.mode home))
      ∙ either_right (is_launcher h.remote.mode) (over_panel id p h) _ home

  up_over_panel :
      (far : ℕ → ℕ → Bool) (now id : ℕ) (p : Point) (h : Hand D)
      → h.remote.quick_settings_visible ≡ false
      → h.remote.launcher_visible ≡ false
      → (at_home h && h.remote.time_panel_visible) ≡ true
      → in_lower_half p (time_panel_rect h.configured_width h.configured_height) ≡ true
      → (touch_up far now id (over_panel id p h)).action ≡ some ask_weather
  unfolding touch_up release_target
  up_over_panel far now id p h quick drawer time low =
      let k = over_panel id p h in
      let g = lifted k in
      let m = is_launcher h.remote.mode in
      let v = h.remote.launcher_visible in
      ap (λ (r : Released D). r.action)
        (either_right (k.touch_pressed && same_touch k.active_touch_id id) _ (sends none k)
            (same_id id)
          ∙ ap (λ o. after_quick far now o g) (quick_none g quick)
          ∙ either_left (on_search_bar g) _ (release_on far now none g) (drawer_closed m v _ drawer)
          ∙ either_left (ends_swipe g) (sends none (release_swipe far now g)) (release_target g)
              (drawer_closed m v _ drawer)
          ∙ either_right (at_home g && g.remote.time_panel_visible)
              (sends (weather_request g) (set_target none g)) _ time)
      ∙ either_right (on_weather g) (some ask_weather) none low

module _ {D : Type 0} (doubles : Doubles D) where
  weather_handled :
      (id : ℕ) (d : Desk)
      → handle_request doubles
          (one_field (codes "activate_target") id (codes "command") (codes "lumo-app:weather"))
          d
        ≡ fail (codes "invalid_kind") (codes "missing_kind") d
  unfolding handle_request find_request serve activate_target frame_get find_field str_eq
  weather_handled id d = refl

-- With the time panel open at home and the quick settings closed, a touch of the panel's lower half, where
-- the weather is, sends a request, and when the write succeeds the compositor, which reads the bytes from a
-- client between two requests, reads them as the request to activate a target with a command and no kind,
-- refuses it with the code invalid_kind and the reason missing_kind, and changes nothing: no program is
-- started.
pub weather_touch-refused :
    {D : Type 0} (doubles : Doubles D) (far : ℕ → ℕ → Bool) (now later surface id : ℕ) (p : Point)
    (h : Hand D) (connected : Bool) (answers : List SendAnswer) (c : Connection)
    → h.remote.unified ≡ false
    → is_launcher h.remote.mode ≡ true
    → h.remote.launcher_visible ≡ false
    → h.remote.quick_settings_visible ≡ false
    → h.remote.time_panel_visible ≡ true
    → in_lower_half p (time_panel_rect h.configured_width h.configured_height) ≡ true
    → h.remote.next_request_id < 2 ^ 32
    → c.stream ≡ fresh
    → (perform connected answers ask_weather h.remote).written.answer ≡ some true
    → let out = (perform connected answers ask_weather h.remote).written.out in
      let f =
        one_field
          (codes "activate_target")
          h.remote.next_request_id
          (codes "command")
          (codes "lumo-app:weather") in
      ((touch_up far later id (touch_down now surface id p h)).action ≡ some ask_weather)
      × (feed fresh out ≡ record { stream = fresh; frames = f ∷ []; accepted = true })
      × (handle_request doubles f c.turn.desk
          ≡ fail (codes "invalid_kind") (codes "missing_kind") c.turn.desk)
      × ((client_event doubles (chunk out ∷ would_block ∷ []) c).turn.desk ≡ c.turn.desk)
unfolding perform send_weather_command send_request frame_init copy_token frame_add_string
weather_touch-refused {D} doubles far now later surface id p h connected answers c one home drawer
      quick time low fits ready done =
    let d = c.turn.desk in
    let n = h.remote.next_request_id in
    let f = one_field (codes "activate_target") n (codes "command") (codes "lumo-app:weather") in
    let over =
      over_home (is_launcher h.remote.mode) h.remote.launcher_visible
        h.remote.quick_settings_visible h.remote.time_panel_visible home drawer time in
    let command : IsToken max_key_length (codes "command") = (refl, λ e. cc, omega arith) in
    let text = IsValue-of (codes "lumo-app:weather") refl in
    let whole : IsFrame f =
      one_field-IsFrame _ _ _ n fits (refl, λ e. cc, omega arith) command text in
    let built =
      ap (λ o. some (keep (start (codes "activate_target") n) o))
        (add_known (start (codes "activate_target") n) _ _ command text (omega arith)) in
    let sent = ap (send_built connected answers) built in
    let handled = weather_handled doubles n d in
    (
      ap (λ (k : Hand D). (touch_up far later id k).action)
            (down_over_panel now surface id p h one home over.0)
          ∙ up_over_panel far later id p h quick drawer over.1 low,
      ap (λ (x : Written). feed fresh x.out) sent
          ∙ send_frame-read connected answers f whole (omega arith)
              (sym (ap (λ (x : Written). x.answer) sent) ∙ done),
      handled,
      sent_request doubles connected answers _ f c built whole (omega arith) refl ready
            (ap (λ (x : Reply). x.ending) handled) done
          ∙ ap (λ (x : Reply). x.desk) handled,
    )
