-- ===== src/Remote/Apply.antt =====
-- A state frame applied to the client's copy, lumo_shell_client_apply_state_frame of
-- compositor/src/shell/shell_protocol_client.c: the parts that show, in its order. What is logged is left out.
use lumo_compositor.Base.{
  ℕ, Bool, true, false, not, ◌&&◌, ◌||◌, Option, none, some, [], ◌++◌, ltb, leb, ◌==◌,
  if◌then◌else◌,
}
use lumo_compositor.CString.{Bytes, codes, decimal, snprintf_text}
use lumo_compositor.Frame.{Frame, frame_get, frame_get_bool, frame_get_u32}
use lumo_compositor.Layout.Modes.{ShellMode, launcher, osk, gesture, status, background, sidebar}
use lumo_compositor.Ui.{same, osk_page_count}
use lumo_compositor.Remote.{Remote, read_or, is_read, differs}

-- The copy, with `changed` and `layout_changed`, and whether the surface was committed.
pub record Applied (D : Type 0) : Type 0 where
  pub remote : Remote D
  pub changed : Bool
  pub layout_changed : Bool
  pub committed : Bool

abbrev pub begin : {D : Type 0} → Remote D → Applied D
begin r = record { remote = r; changed = false; layout_changed = false; committed = false }

abbrev pub flips : Option Bool → Bool → Bool
flips o old = differs same o old

abbrev pub moves : Option ℕ → ℕ → Bool
moves o old = differs (λ a b. a == b) o old

abbrev pub on_bar : ShellMode → Bool
on_bar status = true
on_bar background = true
on_bar launcher = false
on_bar osk = false
on_bar gesture = false
on_bar sidebar = false

abbrev pub on_notes : ShellMode → Bool
on_notes status = true
on_notes launcher = true
on_notes background = false
on_notes osk = false
on_notes gesture = false
on_notes sidebar = false

-- The drawer closes, which clears the search.
abbrev pub closes : Option Bool → Bool → Bool
closes o old = flips o old && not (read_or o old)

-- lumo_shell_osk_set_page, behind the test of the page
abbrev pub page_or : Option ℕ → ℕ → ℕ
page_or none old = old
page_or (some page) old = if ltb page osk_page_count then page else old

-- A count that is at most the number of slots.
abbrev pub at_most : ℕ → Option ℕ → Option ℕ
at_most room none = none
at_most room (some n) = if leb n room then some n else none

-- The slots below the count are filled from the fields that are there.
abbrev pub fill : ℕ → Option ℕ → (ℕ → Option Bytes) → (ℕ → Bytes) → ℕ → Bytes
fill size none field slots i = slots i
fill size (some n) field slots i =
    if ltb i n then snprintf_text size (read_or (field i) (slots i)) else slots i

abbrev pub note_field : Frame → ℕ → Option Bytes
note_field f i = frame_get f (snprintf_text 24 (codes "notif_" ++ decimal i))

abbrev pub app_field : Frame → ℕ → Option Bytes
app_field f i = frame_get f (snprintf_text 32 (codes "running_app_" ++ decimal i))

abbrev pub title_field : Frame → ℕ → Option Bytes
title_field f i = frame_get f (snprintf_text 32 (codes "running_title_" ++ decimal i))

module _ {D : Type 0} where
  unfoldable pub apply_launcher : Frame → Applied D → Applied D
  apply_launcher f a =
      let o = frame_get_bool f (codes "launcher_visible") in
      let r = a.remote in
      record a {
        remote = record r {
          launcher_visible = read_or o r.launcher_visible;
          search_active = if closes o r.launcher_visible then false else r.search_active;
          search_query = if closes o r.launcher_visible then [] else r.search_query;
        };
        changed = a.changed || flips o r.launcher_visible;
      }

  unfoldable pub apply_keyboard : Frame → Applied D → Applied D
  apply_keyboard f a =
      let visible = frame_get_bool f (codes "keyboard_visible") in
      let shift = frame_get_bool f (codes "osk_shift") in
      let page = frame_get_u32 f (codes "osk_page") in
      let r = a.remote in
      record a {
        remote = record r {
          keyboard_visible = read_or visible r.keyboard_visible;
          osk_shift_active = read_or shift r.osk_shift_active;
          osk_page = page_or page r.osk_page;
        };
        changed =
            a.changed
            || flips visible r.keyboard_visible
            || flips shift r.osk_shift_active
            || moves page r.osk_page;
      }

  unfoldable pub apply_panels : Frame → Applied D → Applied D
  apply_panels f a =
      let quick = frame_get_bool f (codes "quick_settings_visible") in
      let time = frame_get_bool f (codes "time_panel_visible") in
      let notes = frame_get_bool f (codes "notification_panel_visible") in
      let r = a.remote in
      record a {
        remote = record r {
          quick_settings_visible = read_or quick r.quick_settings_visible;
          time_panel_visible = read_or time r.time_panel_visible;
          notification_panel_visible = read_or notes r.notification_panel_visible;
        };
        changed =
            a.changed
            || flips quick r.quick_settings_visible
            || flips time r.time_panel_visible
            || flips notes r.notification_panel_visible;
        layout_changed =
            a.layout_changed
            || (flips quick r.quick_settings_visible && on_bar r.mode)
            || (flips time r.time_panel_visible && on_bar r.mode)
            || (flips notes r.notification_panel_visible && on_notes r.mode);
      }

  unfoldable pub apply_notifications : Frame → Applied D → Applied D
  apply_notifications f a =
      let count = at_most 8 (frame_get_u32 f (codes "notification_count")) in
      let r = a.remote in
      record a {
        remote = record r {
          notification_count = read_or count r.notification_count;
          notifications = fill 128 count (note_field f) r.notifications;
        };
        changed = a.changed || is_read count;
      }

  unfoldable pub apply_sidebar : Frame → Applied D → Applied D
  apply_sidebar f a =
      let visible = frame_get_bool f (codes "sidebar_visible") in
      let count = at_most 16 (frame_get_u32 f (codes "running_app_count")) in
      let r = a.remote in
      record a {
        remote = record r {
          sidebar_visible = read_or visible r.sidebar_visible;
          running_app_count = read_or count r.running_app_count;
          running_app_ids = fill 64 count (app_field f) r.running_app_ids;
          running_app_titles = fill 64 count (title_field f) r.running_app_titles;
        };
        changed = a.changed || flips visible r.sidebar_visible || is_read count;
      }
