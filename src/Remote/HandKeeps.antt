-- ===== src/Remote/HandKeeps.antt =====
-- What the calls of compositor/src/shell/shell_input.c keep of a hand: the interface between its handlers and the
-- invariants of it.
use lumo_compositor.Base.{
  ℕ, ltb, not, ◌&&◌, Bool, true, false, Option, none, some, List, [], ◌∷◌, if◌then◌else◌,
}
use lumo_compositor.Layout.Modes.{
  ShellMode, TargetKind, launcher_tile, launcher_close, osk_key, gesture_handle, sidebar_app,
  sidebar_drawer_btn, no_target,
}
use lumo_compositor.Layout.Signed.{ℤ}
use lumo_compositor.Layout.Targets.{Target}
use lumo_compositor.Remote.Points.{Point}
use lumo_compositor.Remote.Hand.{
  Hand, is_launcher, is_sidebar, same_touch, Slot, pressed_at, start_swipe, press_sidebar,
  panel_over_home, note_down, touch_down, minus, swiping_now, moved_to, touch_motion, pointer_enter,
  pointer_leave, pointer_motion, set_target, note_target, enter_slot, enter_surface,
  clear_unless_pointer,
}
use lumo_compositor.Remote.Asks.{Action, activation, ask_keyboard}
use lumo_compositor.Remote.Release.{
  Released, held_for, release_app, release_sidebar, release_swipe, snap_where, release_target,
  swipe_or_target, release_on, after_quick, sends, tap_request, menu_request, menu_icon, close_menu,
  open_menu, at_home, weather_request, ends_swipe, on_search_bar,
}

-- A predicate that the changes of a hand keep, apart from presses and swipes.
pub record KeepsHands {D : Type 0} (P : Hand D → Type 0) : Type 0 where
  pub target : (o : Option Target) (h : Hand D) → P h → P (set_target o h)
  pub menu :
      (visible : Bool) (index : ℕ) (h : Hand D)
      → P h
      → P (record h { sidebar_context_menu_visible = visible; sidebar_context_menu_index = index })
  pub slot :
      (mode : ShellMode) (width height : ℕ) (h : Hand D)
      → P h
      → P (record h {
        remote = record h.remote { mode = mode };
        configured_width = width;
        configured_height = height;
      })
  pub snapping :
      (from : ℤ) (start : ℕ) (h : Hand D)
      → P h
      → P (record h {
        launcher_snap_from = from;
        launcher_snap_start = start;
        launcher_snap_active = true;
        launcher_swiping = false;
      })
  pub press : (now : ℕ) (h : Hand D) → P h → P (record h { sidebar_press_start_msec = now })
  pub swipe : (h : Hand D) → P h → P (start_swipe h)
  pub drag :
      (dx : ℤ) (h : Hand D)
      → P h
      → P (record h { launcher_swiping = true; launcher_swipe_offset = dx })
  pub point :
      (p : Point) (valid : Bool) (h : Hand D)
      → P h
      → P (record h { pointer = p; pointer_position_valid = valid })
  pub snap : (far : ℕ → ℕ → Bool) (h : Hand D) → P h → P (snap_where far h)

module _ {D : Type 0} (P : Hand D → Type 0) where
  pub either_hand : (b : Bool) (g h : Hand D) → P g → P h → P (if b then g else h)
  either_hand true g h x y = x
  either_hand false g h x y = y

  either_released :
      (b : Bool) (g h : Released D) → P g.hand → P h.hand → P (if b then g else h).hand
  either_released true g h x y = x
  either_released false g h x y = y

module _ {D : Type 0} (P : Hand D → Type 0) (keeps : KeepsHands P) where
  pub note_target-keeps : (p : Point) (h : Hand D) → P h → P (note_target p h)
  unfolding note_target
  note_target-keeps p h w = either_hand P _ _ _ w (keeps.target _ h w)

  enter_slot-keeps :
      (surface : ℕ) (slots : List Slot) (h : Hand D) → P h → P (enter_slot surface slots h)
  unfolding enter_slot
  enter_slot-keeps surface [] h w = w
  enter_slot-keeps surface (s ∷ slots) h w =
      either_hand P _ _ _ (keeps.slot s.mode s.width s.height h w)
        (enter_slot-keeps surface slots h w)

  pub enter_surface-keeps : (surface : ℕ) (h : Hand D) → P h → P (enter_surface surface h)
  enter_surface-keeps surface h w =
      either_hand P h.remote.unified _ _ (enter_slot-keeps surface h.slots h w) w

  release_app-keeps : (now index : ℕ) (h : Hand D) → P h → P (release_app now index h).hand
  unfolding release_app
  release_app-keeps now index h w =
      let closed = keeps.target none _ (keeps.menu false h.sidebar_context_menu_index h w) in
      let long = ltb 500 (held_for now h.sidebar_press_start_msec) in
      let tapped = sends (tap_request index h) (close_menu h) in
      let held = sends none (open_menu index h) in
      either_released P h.sidebar_context_menu_visible
        (sends (menu_request h h.sidebar_context_menu_index (menu_icon h)) (close_menu h))
        (if long then held else tapped) closed
        (either_released P long held tapped (keeps.target none _ (keeps.menu true index h w))
          closed)

  release_sidebar-keeps :
      (now : ℕ) (at : Target) (kind : TargetKind) (h : Hand D)
      → P h
      → P (release_sidebar now at kind h).hand
  release_sidebar-keeps now at sidebar_drawer_btn h w = keeps.target none h w
  release_sidebar-keeps now at sidebar_app h w = release_app-keeps now at.index h w
  release_sidebar-keeps now at launcher_tile h w = keeps.target none h w
  release_sidebar-keeps now at launcher_close h w = keeps.target none h w
  release_sidebar-keeps now at osk_key h w = keeps.target none h w
  release_sidebar-keeps now at gesture_handle h w = keeps.target none h w
  release_sidebar-keeps now at no_target h w = keeps.target none h w

  release_swipe-keeps :
      (far : ℕ → ℕ → Bool) (now : ℕ) (h : Hand D) → P h → P (release_swipe far now h)
  unfolding release_swipe
  release_swipe-keeps far now h w =
      keeps.target none _ (keeps.snap far _ (keeps.snapping h.launcher_swipe_offset now h w))

  release_target-keeps : (h : Hand D) → P h → P (release_target h).hand
  unfolding release_target
  release_target-keeps h w =
      let cleared = sends none (set_target none h) in
      let activated = sends (activation h.active_target) (clear_unless_pointer h) in
      let quick = at_home h && h.remote.quick_settings_visible in
      either_released P (at_home h && h.remote.time_panel_visible)
        (sends (weather_request h) (set_target none h)) (if quick then cleared else activated)
        (keeps.target none h w)
        (either_released P quick cleared activated (keeps.target none h w)
          (either_hand P h.pointer_pressed _ _ w (keeps.target none h w)))

  swipe_or_target-keeps :
      (far : ℕ → ℕ → Bool) (now : ℕ) (h : Hand D) → P h → P (swipe_or_target far now h).hand
  swipe_or_target-keeps far now h w =
      either_released P (ends_swipe h) (sends none (release_swipe far now h)) (release_target h)
        (release_swipe-keeps far now h w) (release_target-keeps h w)

  release_on-keeps :
      (far : ℕ → ℕ → Bool) (now : ℕ) (o : Option Target) (h : Hand D)
      → P h
      → P (release_on far now o h).hand
  release_on-keeps far now none h w = swipe_or_target-keeps far now h w
  release_on-keeps far now (some at) h w =
      either_released P (is_sidebar h.remote.mode) (release_sidebar now at at.kind h)
        (swipe_or_target far now h) (release_sidebar-keeps now at at.kind h w)
        (swipe_or_target-keeps far now h w)

  pub after_quick-keeps :
      (far : ℕ → ℕ → Bool) (now : ℕ) (o : Option Action) (h : Hand D)
      → P h
      → P (after_quick far now o h).hand
  after_quick-keeps far now none h w =
      either_released P (on_search_bar h) (sends (some ask_keyboard) h)
        (release_on far now h.active_target h) w (release_on-keeps far now h.active_target h w)
  after_quick-keeps far now (some action) h w = w

  note_down-keeps : (h : Hand D) → P h → P (note_down h)
  note_down-keeps h w =
      either_hand P (panel_over_home h.remote) (set_target none h) (note_target h.pointer h)
        (keeps.target none h w) (note_target-keeps h.pointer h w)

  press_sidebar-keeps : (now : ℕ) (h : Hand D) → P h → P (press_sidebar now h)
  press_sidebar-keeps now h w =
      either_hand P (is_sidebar h.remote.mode) (record h { sidebar_press_start_msec = now }) h
        (keeps.press now h w) w

  pub touch_down-keeps :
      (now surface id : ℕ) (p : Point) (h : Hand D)
      → P (pressed_at id p h)
      → P (touch_down now surface id p h)
  unfolding touch_down
  touch_down-keeps now surface id p h w = keeps.swipe _ (
      press_sidebar-keeps now _
        (note_down-keeps _ (enter_surface-keeps surface (pressed_at id p h) w)))

  moved_to-keeps : (h : Hand D) → P h → P (moved_to h)
  moved_to-keeps h w =
      let dx = minus h.pointer.x h.launcher_swipe_x in
      either_hand P (is_launcher h.remote.mode && h.remote.launcher_visible && swiping_now dx h)
        (record h { launcher_swiping = true; launcher_swipe_offset = dx }) (note_target h.pointer h)
        (keeps.drag dx h w) (note_target-keeps h.pointer h w)

  pub touch_motion-keeps : (id : ℕ) (p : Point) (h : Hand D) → P h → P (touch_motion id p h)
  unfolding touch_motion
  touch_motion-keeps id p h w =
      let there = record h { pointer = p } in
      either_hand P (h.touch_pressed && same_touch h.active_touch_id id) (moved_to there) h
        (moved_to-keeps there (keeps.point p h.pointer_position_valid h w)) w

  pub pointer_enter-keeps :
      (surface : ℕ) (p : Point) (h : Hand D) → P h → P (pointer_enter surface p h)
  unfolding pointer_enter
  pointer_enter-keeps surface p h w =
      keeps.point p true (enter_surface surface h) (enter_surface-keeps surface h w)

  pub pointer_leave-keeps : (h : Hand D) → P h → P (pointer_leave h)
  unfolding pointer_leave
  pointer_leave-keeps h w =
      let left = record h { pointer_position_valid = false } in
      let w' = keeps.point h.pointer false h w in
      either_hand P (not h.pointer_pressed && not h.touch_pressed) (set_target none left) left
        (keeps.target none left w') w'

  pub pointer_motion-keeps : (p : Point) (h : Hand D) → P h → P (pointer_motion p h)
  unfolding pointer_motion
  pointer_motion-keeps p h w =
      let there = record h { pointer = p; pointer_position_valid = true } in
      let w' = keeps.point p true h w in
      either_hand P h.pointer_pressed (note_target p there) there (note_target-keeps p there w') w'
