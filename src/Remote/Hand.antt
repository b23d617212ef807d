-- ===== src/Remote/Hand.antt =====
-- The touch and the pointer of a shell client, compositor/src/shell/shell_input.c: which target is active, and the
-- swipe between the pages of the launcher. Redraws, what is logged and the ripple that is drawn are left out.
use lumo_compositor.Base.{
  ℕ, ◌+◌, ◌*◌, Bool, true, false, not, ◌&&◌, ◌||◌, Option, none, some, List, [], ◌∷◌, ltb, ◌==◌,
  if◌then◌else◌,
}
use lumo_compositor.Layout.Modes.{ShellMode, launcher, osk, gesture, status, background, sidebar}
use lumo_compositor.Layout.Signed.{ℤ, pos, negsuc, difference}
use lumo_compositor.Layout.Targets.{Target, target_with_query}
use lumo_compositor.CString.{Bytes}
use lumo_compositor.Remote.{Remote}
use lumo_compositor.Remote.Points.{Point, rect_contains}

-- A surface of the one process that draws them all.
pub record Slot : Type 0 where
  pub surface : ℕ
  pub mode : ShellMode
  pub width : ℕ
  pub height : ℕ

-- Where a snap animation goes: a page on, a page back, or back to where it was.
pub data Snap : Type 0 where
  snap_next snap_previous snap_back : Snap

pub record Hand (D : Type 0) : Type 0 where
  pub remote : Remote D
  pub slots : List Slot
  pub configured_width : ℕ
  pub configured_height : ℕ
  pub pointer : Point
  pub pointer_position_valid : Bool
  pub pointer_pressed : Bool
  pub touch_pressed : Bool
  -- none is -1
  pub active_touch_id : Option ℕ
  pub active_target : Option Target
  -- it starts at 0 and is only lowered above 0
  pub launcher_page : ℕ
  pub launcher_swipe_x : ℤ
  pub launcher_swipe_offset : ℤ
  pub launcher_swiping : Bool
  pub launcher_snap_active : Bool
  pub launcher_snap_from : ℤ
  pub launcher_snap_to : Snap
  pub launcher_snap_start : ℕ
  pub launcher_snap_page : ℕ
  pub sidebar_press_start_msec : ℕ
  pub sidebar_context_menu_visible : Bool
  pub sidebar_context_menu_index : ℕ

abbrev pub is_launcher : ShellMode → Bool
is_launcher launcher = true
is_launcher osk = false
is_launcher gesture = false
is_launcher status = false
is_launcher background = false
is_launcher sidebar = false

abbrev pub is_sidebar : ShellMode → Bool
is_sidebar sidebar = true
is_sidebar launcher = false
is_sidebar osk = false
is_sidebar gesture = false
is_sidebar status = false
is_sidebar background = false

abbrev pub same_touch : Option ℕ → ℕ → Bool
same_touch none id = false
same_touch (some active) id = active == id

-- The difference of two coordinates.
abbrev pub minus : ℤ → ℤ → ℤ
minus (pos a) (pos b) = difference a b
minus (pos a) (negsuc b) = pos (a + b + 1)
minus (negsuc a) (pos b) = negsuc (a + b)
minus (negsuc a) (negsuc b) = difference b a

-- dx > 15 or dx < -15
abbrev pub far_enough : ℤ → Bool
far_enough (pos a) = ltb (15 * 256) a
far_enough (negsuc a) = ltb (15 * 256) (a + 1)

module _ {D : Type 0} where
  -- lumo_shell_client_set_active_target and lumo_shell_client_clear_active_target
  abbrev pub set_target : Option Target → Hand D → Hand D
  set_target t h = record h { active_target = t }

  abbrev pub query_of : Remote D → Option Bytes
  query_of r = if is_launcher r.mode then some r.toast_message else none

  abbrev pub target_under : Point → Hand D → Option Target
  target_under p h =
      target_with_query (rect_contains p) h.remote.mode h.configured_width h.configured_height
        (query_of h.remote) (pos h.launcher_page)

  unfoldable pub note_target : Point → Hand D → Hand D
  note_target p h =
      if h.configured_width == 0 || h.configured_height == 0
      then h
      else set_target (target_under p h) h

  -- The slot of the surface, whose mode and size become the client's.
  unfoldable pub enter_slot : ℕ → List Slot → Hand D → Hand D
  enter_slot surface [] h = h
  enter_slot surface (s ∷ slots) h =
      let later = enter_slot surface slots h in
      if s.surface == surface
      then record h {
        remote = record h.remote { mode = s.mode };
        configured_width = s.width;
        configured_height = s.height;
      }
      else later

  abbrev pub enter_surface : ℕ → Hand D → Hand D
  enter_surface surface h = if h.remote.unified then enter_slot surface h.slots h else h

  abbrev pub panel_over_home : Remote D → Bool
  panel_over_home r =
      is_launcher r.mode
      && not r.launcher_visible
      && (r.quick_settings_visible || r.time_panel_visible)

  abbrev pub note_down : Hand D → Hand D
  note_down h = if panel_over_home h.remote then set_target none h else note_target h.pointer h

  abbrev pub press_sidebar : ℕ → Hand D → Hand D
  press_sidebar now h =
      if is_sidebar h.remote.mode then record h { sidebar_press_start_msec = now } else h

  abbrev pub start_swipe : Hand D → Hand D
  start_swipe h =
      if is_launcher h.remote.mode
      then record h {
        launcher_page = if h.launcher_snap_active then h.launcher_snap_page else h.launcher_page;
        launcher_snap_active = false;
        launcher_swipe_x = h.pointer.x;
        launcher_swipe_offset = pos 0;
        launcher_swiping = false;
      }
      else h

  abbrev pub pressed_at : ℕ → Point → Hand D → Hand D
  pressed_at id p h = record h { touch_pressed = true; active_touch_id = some id; pointer = p }

  -- `now` is lumo_now_msec().
  unfoldable pub touch_down : ℕ → ℕ → ℕ → Point → Hand D → Hand D
  unfolding enter_slot note_target
  touch_down now surface id p h =
      start_swipe (press_sidebar now (note_down (enter_surface surface (pressed_at id p h))))

  abbrev pub swiping_now : ℤ → Hand D → Bool
  swiping_now dx h = h.launcher_swiping || far_enough dx

  abbrev pub moved_to : Hand D → Hand D
  moved_to h =
      let dx = minus h.pointer.x h.launcher_swipe_x in
      if is_launcher h.remote.mode && h.remote.launcher_visible && swiping_now dx h
      then record h { launcher_swiping = true; launcher_swipe_offset = dx }
      else note_target h.pointer h

  unfoldable pub touch_motion : ℕ → Point → Hand D → Hand D
  unfolding note_target
  touch_motion id p h =
      if h.touch_pressed && same_touch h.active_touch_id id
      then moved_to (record h { pointer = p })
      else h

  abbrev pub clear_unless_pointer : Hand D → Hand D
  clear_unless_pointer h = if h.pointer_pressed then h else set_target none h

  unfoldable pub touch_cancel : Hand D → Hand D
  touch_cancel h = clear_unless_pointer (record h { touch_pressed = false; active_touch_id = none })

  unfoldable pub pointer_enter : ℕ → Point → Hand D → Hand D
  unfolding enter_slot
  pointer_enter surface p h = record (enter_surface surface h) {
    pointer = p;
    pointer_position_valid = true;
  }

  unfoldable pub pointer_leave : Hand D → Hand D
  pointer_leave h =
      let left = record h { pointer_position_valid = false } in
      if not h.pointer_pressed && not h.touch_pressed then set_target none left else left

  unfoldable pub pointer_motion : Point → Hand D → Hand D
  unfolding note_target
  pointer_motion p h =
      let there = record h { pointer = p; pointer_position_valid = true } in
      if h.pointer_pressed then note_target p there else there
