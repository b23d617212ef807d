-- ===== src/Remote/Release.antt =====
-- The end of a touch or of a press of the pointer, lumo_shell_touch_handle_up and lumo_shell_pointer_handle_button of
-- compositor/src/shell/shell_input.c: the request that is sent for it. Redraws and what is logged are left out.
use lumo_compositor.Base.{
  ℕ, ◌+◌, ◌-◌, ◌%◌, ◌^◌, Bool, true, false, not, ◌&&◌, Option, none, some, ltb, if◌then◌else◌,
}
use lumo_compositor.Layout.Modes.{
  TargetKind, launcher_tile, launcher_close, osk_key, gesture_handle, sidebar_app,
  sidebar_drawer_btn, no_target,
}
use lumo_compositor.Layout.Signed.{SignedRect}
use lumo_compositor.Layout.Panels.{
  quick_settings_panel_rect, search_bar_rect, sidebar_app_rect, time_panel_rect,
}
use lumo_compositor.Layout.Targets.{Target}
use lumo_compositor.Remote.Asks.{
  can_be_many, menu_top, row_of, menu_choice, quick_action, in_some, in_lower_half, last_page,
  to_left, to_right, activation, ask_keyboard, ask_drawer, ask_weather, ask_focus, Action,
}
use lumo_compositor.Remote.Points.{truncated, less_pixels, status_button_hit, slider_pct}
use lumo_compositor.Remote.Hand.{
  Hand, Snap, snap_next, snap_previous, snap_back, is_launcher, is_sidebar, same_touch, set_target,
  note_target, clear_unless_pointer,
}

-- The hand with the request, if one is sent.
pub record Released (D : Type 0) : Type 0 where
  pub hand : Hand D
  pub action : Option Action

-- The uint64_t difference of the time now and that of the press.
abbrev pub held_for : ℕ → ℕ → ℕ
held_for now press = (now + 2 ^ 64 - press) % 2 ^ 64

module _ {D : Type 0} where
  abbrev pub sends : Option Action → Hand D → Released D
  sends action h = record { hand = h; action = action }

  abbrev pub quick_button : Hand D → Option Action
  quick_button h =
      quick_action (quick_settings_panel_rect h.configured_width h.configured_height) h.pointer.x (
        status_button_hit h.remote.quick_settings_visible h.configured_width h.configured_height
          h.pointer)

  abbrev pub on_search_bar : Hand D → Bool
  on_search_bar h =
      is_launcher h.remote.mode
      && h.remote.launcher_visible
      && in_some h.pointer (search_bar_rect h.configured_width h.configured_height)

  abbrev pub menu_request : Hand D → ℕ → Option SignedRect → Option Action
  menu_request h app none = none
  menu_request h app (some icon) =
      let multi = can_be_many (h.remote.running_app_ids app) in
      let menu = menu_top h.configured_height icon multi in
      some (menu_choice multi (row_of (truncated (less_pixels h.pointer.y menu))) app)

  abbrev pub close_menu : Hand D → Hand D
  close_menu h = set_target none (record h { sidebar_context_menu_visible = false })

  abbrev pub open_menu : ℕ → Hand D → Hand D
  open_menu index h =
      set_target none
        (record h { sidebar_context_menu_visible = true; sidebar_context_menu_index = index })

  -- The icon that the menu stands at.
  abbrev pub menu_icon : Hand D → Option SignedRect
  menu_icon h = sidebar_app_rect h.configured_width h.configured_height h.sidebar_context_menu_index

  abbrev pub tap_request : ℕ → Hand D → Option Action
  tap_request index h =
      if ltb index h.remote.running_app_count then some (ask_focus index) else none

  -- A touch of an icon: the menu's choice, a long press, or a tap.
  unfoldable pub release_app : ℕ → ℕ → Hand D → Released D
  release_app now index h =
      let app = h.sidebar_context_menu_index in
      if h.sidebar_context_menu_visible
      then sends (menu_request h app (menu_icon h)) (close_menu h)
      else if ltb 500 (held_for now h.sidebar_press_start_msec)
      then sends none (open_menu index h)
      else sends (tap_request index h) (close_menu h)

  abbrev pub release_sidebar : ℕ → Target → TargetKind → Hand D → Released D
  release_sidebar now t sidebar_drawer_btn h = sends (some ask_drawer) (set_target none h)
  release_sidebar now t sidebar_app h = release_app now t.index h
  release_sidebar now t launcher_tile h = sends none (set_target none h)
  release_sidebar now t launcher_close h = sends none (set_target none h)
  release_sidebar now t osk_key h = sends none (set_target none h)
  release_sidebar now t gesture_handle h = sends none (set_target none h)
  release_sidebar now t no_target h = sends none (set_target none h)

  abbrev pub snap : Snap → ℕ → Hand D → Hand D
  snap to page h = record h { launcher_snap_to = to; launcher_snap_page = page }

  abbrev pub snap_where : (ℕ → ℕ → Bool) → Hand D → Hand D
  snap_where far h =
      let dx = h.launcher_swipe_offset in
      if to_left far h.configured_width dx && ltb h.launcher_page (last_page h.remote)
      then snap snap_next (h.launcher_page + 1) h
      else if to_right far h.configured_width dx && ltb 0 h.launcher_page
      then snap snap_previous (h.launcher_page - 1) h
      else snap snap_back h.launcher_page h

  -- The end of a swipe between pages.
  unfoldable pub release_swipe : (ℕ → ℕ → Bool) → ℕ → Hand D → Hand D
  release_swipe far now h = set_target none (
      snap_where far (record h {
        launcher_snap_from = h.launcher_swipe_offset;
        launcher_snap_start = now;
        launcher_snap_active = true;
        launcher_swiping = false;
      }))

  abbrev pub at_home : Hand D → Bool
  at_home h = is_launcher h.remote.mode && not h.remote.launcher_visible

  abbrev pub on_weather : Hand D → Bool
  on_weather h = in_lower_half h.pointer (time_panel_rect h.configured_width h.configured_height)

  abbrev pub weather_request : Hand D → Option Action
  weather_request h = if on_weather h then some ask_weather else none

  -- What is left: the panels over the home screen, and the active target.
  unfoldable pub release_target : Hand D → Released D
  release_target h =
      if at_home h && h.remote.time_panel_visible
      then sends (weather_request h) (set_target none h)
      else if at_home h && h.remote.quick_settings_visible
      then sends none (set_target none h)
      else sends (activation h.active_target) (clear_unless_pointer h)

  abbrev pub ends_swipe : Hand D → Bool
  ends_swipe h = is_launcher h.remote.mode && h.remote.launcher_visible && h.launcher_swiping

  abbrev pub swipe_or_target : (ℕ → ℕ → Bool) → ℕ → Hand D → Released D
  swipe_or_target far now h =
      if ends_swipe h then sends none (release_swipe far now h) else release_target h

  abbrev pub release_on : (ℕ → ℕ → Bool) → ℕ → Option Target → Hand D → Released D
  release_on far now none h = swipe_or_target far now h
  release_on far now (some t) h =
      if is_sidebar h.remote.mode then release_sidebar now t t.kind h else swipe_or_target far now h

  -- Behind the quick settings.
  abbrev pub release_surface : (ℕ → ℕ → Bool) → ℕ → Hand D → Released D
  release_surface far now h =
      if on_search_bar h then sends (some ask_keyboard) h else release_on far now h.active_target h

  abbrev pub after_quick : (ℕ → ℕ → Bool) → ℕ → Option Action → Hand D → Released D
  after_quick far now none h = release_surface far now h
  after_quick far now (some action) h = sends (some action) h

  abbrev pub lifted : Hand D → Hand D
  lifted h = record h { touch_pressed = false; active_touch_id = none }

  unfoldable pub touch_up : (ℕ → ℕ → Bool) → ℕ → ℕ → Hand D → Released D
  unfolding status_button_hit slider_pct release_app release_swipe release_target
  touch_up far now id h =
      if h.touch_pressed && same_touch h.active_touch_id id
      then after_quick far now (quick_button h) (lifted h)
      else sends none h

  abbrev pub clear_unless_touch : Hand D → Hand D
  clear_unless_touch h = if h.touch_pressed then h else set_target none h

  -- `pressed` is the state WL_POINTER_BUTTON_STATE_PRESSED.
  unfoldable pub pointer_button : Bool → Hand D → Released D
  unfolding note_target
  pointer_button pressed h =
      if not h.pointer_position_valid
      then sends none h
      else if pressed
      then sends none (note_target h.pointer (record h { pointer_pressed = true }))
      else if h.pointer_pressed
      then sends (activation h.active_target)
          (clear_unless_touch (record h { pointer_pressed = false }))
      else sends none h
