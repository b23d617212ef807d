-- ===== src/Bridge/Traffic.antt =====
-- What holds of the shell's state whatever a client sends (compositor/src/shell/shell_bridge.c).
use lumo_compositor.Base.{Bool, true, false, List, [], ◌∷◌, ◌≡◌, refl, if◌then◌else◌}
use lumo_compositor.CString.{Bytes}
use lumo_compositor.Frame.{Frame, FrameKind, event, request, response, error}
use lumo_compositor.Stream.{feed}
use lumo_compositor.Ui.{Ui, emit, launch, capture_screenshot, stop_session}
use lumo_compositor.Ui.Closed.{KeepsSetters}
use lumo_compositor.Ui.Steady.{IsSteady, IsSteady-KeepsSetters}
use lumo_compositor.Bridge.Desk.{Doubles, Ending, no_more, then_capture, then_stop}
use lumo_compositor.Bridge.Keeps.{is_program}
use lumo_compositor.Bridge.Launches.{StartsKnown, StartsKnown-KeepsSetters, emit-StartsKnown}
use lumo_compositor.Bridge.RequestKeeps.{handle_request-keeps}
use lumo_compositor.Bridge.Serving.{
  Turn, Connection, Received, chunk, interrupted, would_block, closed, failed, finish, serve_kind,
  client_handle_frame, handle_frames, fed, client_event,
}

module _ (P : Ui → Type 0) (keeps : KeepsSetters P)
    (launched : (c : Bytes) (ui : Ui) → is_program c ≡ true → P ui → P (emit (launch c) ui))
    {D : Type 0} (doubles : Doubles D) where
  finish-keeps : (e : Ending) (ui : Ui) → P ui → P (finish e ui)
  finish-keeps no_more ui w = w
  finish-keeps then_capture ui w = keeps.keys.calls capture_screenshot ui refl w
  finish-keeps then_stop ui w = keeps.keys.calls stop_session ui refl w

  serve_kind-keeps :
      (k : FrameKind) (f : Frame) (t : Turn)
      → P t.desk.shell.ui
      → P (serve_kind doubles k f t).desk.shell.ui
  serve_kind-keeps request f t w =
      finish-keeps _ _ (handle_request-keeps P keeps launched doubles f t.desk w)
  serve_kind-keeps event f t w = w
  serve_kind-keeps response f t w = w
  serve_kind-keeps error f t w = w

  handle_frames-keeps :
      (fs : List Frame) (t : Turn)
      → P t.desk.shell.ui
      → P (handle_frames doubles fs t).desk.shell.ui
  unfolding handle_frames client_handle_frame
  handle_frames-keeps [] t w = w
  handle_frames-keeps (f ∷ fs) t w =
      handle_frames-keeps fs (serve_kind doubles f.kind f t) (serve_kind-keeps f.kind f t w)

  pub client_event-keeps :
      (answers : List Received) (c : Connection)
      → P c.turn.desk.shell.ui
      → P (client_event doubles answers c).turn.desk.shell.ui
  unfolding client_event
  client_event-keeps [] c w = w
  client_event-keeps (interrupted ∷ rest) c w = client_event-keeps rest c w
  client_event-keeps (would_block ∷ rest) c w = w
  client_event-keeps (failed ∷ rest) c w = w
  client_event-keeps (closed ∷ rest) c w = w
  client_event-keeps (chunk bytes ∷ rest) c w =
      let r = feed c.stream bytes in
      let now = handle_frames-keeps r.frames c.turn w in
      go r.accepted now (client_event-keeps rest (fed doubles r c) now)
    where
      go :
          (b : Bool)
          → P (fed doubles (feed c.stream bytes) c).turn.desk.shell.ui
          → P (client_event doubles rest (fed doubles (feed c.stream bytes) c)).turn.desk.shell.ui
          → P
              (if b
                then client_event doubles rest (fed doubles (feed c.stream bytes) c)
                else fed doubles (feed c.stream bytes) c).turn.desk.shell.ui
      go true now later = later
      go false now later = now

-- Whatever bytes a client sends, and whatever its socket answers, the keyboard's resize handshake, its
-- page and serial, the auto-hide timer of the sidebar and the room for notifications stay as the
-- setters keep them, and no request sets the auto-shown flag of a hidden keyboard.
pub client_event-IsSteady :
    {D : Type 0} (doubles : Doubles D) (answers : List Received) (c : Connection)
    → IsSteady c.turn.desk.shell.ui
    → IsSteady (client_event doubles answers c).turn.desk.shell.ui
client_event-IsSteady doubles answers c w =
    client_event-keeps IsSteady IsSteady-KeepsSetters
      (λ p ui known h. record {
        keyboard = h.keyboard;
        timer_visible = h.timer_visible;
        notification_room = h.notification_room;
      })
      doubles answers c w

-- Whatever bytes a client sends, and whatever its socket answers, the only programs that are started
-- are those of the launcher's tiles and the terminal, the fixed helper that takes screenshots, and the
-- helpers that set the volume and the brightness, with a level of at most 100.
pub client_event-StartsKnown :
    {D : Type 0} (doubles : Doubles D) (answers : List Received) (c : Connection)
    → StartsKnown c.turn.desk.shell.ui
    → StartsKnown (client_event doubles answers c).turn.desk.shell.ui
client_event-StartsKnown doubles answers c w =
    client_event-keeps StartsKnown StartsKnown-KeepsSetters
      (λ p ui known h. emit-StartsKnown (launch p) ui known h) doubles answers c w
