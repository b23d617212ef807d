-- ===== src/Bridge/Delivery.antt =====
-- What a client reads of the state that compositor/src/shell/shell_bridge.c broadcasts.
use lumo_compositor.Base.{
  Bool, true, false, [], ◌∷◌, none, some, All-append, ◌≡◌, refl, ap, ◌∙◌, arith, ◌>>=◌, >>=-eq-some,
}
use lumo_compositor.CString.{Bytes, codes, str_eq}
use lumo_compositor.Frame.{
  Frame, IsFrame, event, frame_init, frame_get, find_field, frame_get_bool, bool_of_text,
}
use lumo_compositor.Frame.Text.{frame_init-IsFrame}
use lumo_compositor.Frame.Fields.{or_else}
use lumo_compositor.Stream.{feed, fresh}
use lumo_compositor.Stream.RoundTrip.{feed-frame_format}
use lumo_compositor.Ui.{Ui}
use lumo_compositor.Bridge.{
  Shell, add_entries, app_entries, visible_entries, later_entries, state_entries, build_state_frame,
  broadcast_text,
}
use lumo_compositor.Bridge.Entries.{
  IsText, bool_text, find_entry, add_entries-IsFrame, add_entries-keep, add_entries-find_entry,
  add_entries-append,
}
use lumo_compositor.Bridge.Headers.{add_entries-SameHeader}
use lumo_compositor.Bridge.Strings.{
  IsShell, visible_entries-IsText, later_entries-IsText, visible_entries-IsChecked,
  app_entries-IsText,
}

-- What a client reads in a frame of the visible parts of the state, which is an event of that name.
pub record ShowsUi (f : Frame) (ui : Ui) : Type 0 where
  pub kind : f.kind ≡ event
  pub name : f.name ≡ codes "state"
  pub launcher : frame_get_bool f (codes "launcher_visible") ≡ some ui.launcher_visible
  pub keyboard : frame_get_bool f (codes "keyboard_visible") ≡ some ui.keyboard_visible
  pub shift : frame_get_bool f (codes "osk_shift") ≡ some ui.osk_shift_active
  pub quick_settings :
      frame_get_bool f (codes "quick_settings_visible") ≡ some ui.quick_settings_visible
  pub time_panel : frame_get_bool f (codes "time_panel_visible") ≡ some ui.time_panel_visible
  pub notification_panel :
      frame_get_bool f (codes "notification_panel_visible") ≡ some ui.notification_panel_visible
  pub sidebar : frame_get_bool f (codes "sidebar_visible") ≡ some ui.sidebar_visible

flag_read :
    (f : Frame) (key : Bytes) (b : Bool)
    → frame_get f key ≡ some (bool_text b)
    → frame_get_bool f key ≡ some b
unfolding frame_get_bool bool_of_text str_eq
flag_read f key true h = ap (λ o. o >>= bool_of_text) h
flag_read f key false h = ap (λ o. o >>= bool_of_text) h

-- The visible parts as the client of a built frame reads them.
visible_read :
    (s : Shell) (start f : Frame) (key : Bytes) (b : Bool)
    → IsShell s
    → frame_get start key ≡ none
    → find_entry key (visible_entries s.ui) ≡ some (bool_text b)
    → add_entries (state_entries s) start ≡ some f
    → frame_get_bool f key ≡ some b
visible_read s start f key b w free there h =
    let parts = add_entries-append (visible_entries s.ui) _ start f h in
    let got =
      add_entries-find_entry (visible_entries s.ui) start parts.0 key (visible_entries-IsText s.ui)
        (visible_entries-IsChecked s.ui) parts.1 in
    let rest =
      All-append IsText (app_entries 0 16 s.apps) _ (app_entries-IsText 0 16 s.apps w.windows)
        (later_entries-IsText s w) in
    flag_read f key b (
      add_entries-keep _ parts.0 f key (bool_text b) rest
        (got ∙ ap (λ o. or_else o (find_entry key (visible_entries s.ui))) free ∙ there) parts.2)

ShowsUi-of :
    (s : Shell) (start f : Frame)
    → IsShell s
    → (start.kind ≡ event) × (start.name ≡ codes "state")
    → ((key : Bytes) → frame_get start key ≡ none)
    → add_entries (state_entries s) start ≡ some f
    → ShowsUi f s.ui
unfolding find_entry str_eq
ShowsUi-of s start f w titled free h =
    let header = add_entries-SameHeader (state_entries s) start f h in
    let read =
      λ (key : Bytes) (b : Bool) (at : find_entry key (visible_entries s.ui) ≡ some (bool_text b)).
        visible_read s start f key b w (free key) at h in
    record {
      kind = header.0 ∙ titled.0;
      name = header.1 ∙ titled.1;
      launcher = read (codes "launcher_visible") s.ui.launcher_visible refl;
      keyboard = read (codes "keyboard_visible") s.ui.keyboard_visible refl;
      shift = read (codes "osk_shift") s.ui.osk_shift_active refl;
      quick_settings = read (codes "quick_settings_visible") s.ui.quick_settings_visible refl;
      time_panel = read (codes "time_panel_visible") s.ui.time_panel_visible refl;
      notification_panel =
          read (codes "notification_panel_visible") s.ui.notification_panel_visible refl;
      sidebar = read (codes "sidebar_visible") s.ui.sidebar_visible refl;
    }

abbrev state_start : Frame
state_start = record { kind = event; name = codes "state"; id = 0; fields = [] }

no_fields : (key : Bytes) → frame_get state_start key ≡ none
unfolding frame_get find_field
no_fields key = refl

-- The frame that is built is well formed, and shows the state.
pub build_state_frame-ShowsUi :
    (s : Shell) (f : Frame) → IsShell s → build_state_frame s ≡ some f → IsFrame f × ShowsUi f s.ui
unfolding build_state_frame
build_state_frame-ShowsUi s f w h =
    let start = >>=-eq-some (frame_init event (codes "state") 0) _ h in
    let begun = frame_init-IsFrame event (codes "state") 0 (omega arith) start.1 in
    let strings = All-append IsText (visible_entries s.ui) _ (visible_entries-IsText s.ui) (
      All-append IsText (app_entries 0 16 s.apps) (later_entries s)
        (app_entries-IsText 0 16 s.apps w.windows) (later_entries-IsText s w)) in
    (
      add_entries-IsFrame (state_entries s) start.0 f strings begun.0 start.2,
      ShowsUi-of s start.0 f w (ap (λ x. x.kind) begun.1, ap (λ x. x.name) begun.1)
          (λ key. ap (λ x. frame_get x key) begun.1 ∙ no_fields key) start.2,
    )

-- Whatever the compositor broadcasts, a client's fresh stream reads it as one frame, which shows what
-- the compositor shows, and is ready for the next.
pub broadcast_text-delivered :
    (s : Shell) (bytes : Bytes)
    → IsShell s
    → broadcast_text s ≡ some bytes
    → (f : Frame) × (feed fresh bytes ≡ record { stream = fresh; frames = f ∷ []; accepted = true })
      × ShowsUi f s.ui
unfolding broadcast_text
broadcast_text-delivered s bytes w h =
    let built = >>=-eq-some (build_state_frame s) _ h in
    let shown = build_state_frame-ShowsUi s built.0 w built.1 in
    (built.0, feed-frame_format built.0 2048 shown.0 built.2, shown.1)
