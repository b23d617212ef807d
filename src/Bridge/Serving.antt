-- ===== src/Bridge/Serving.antt =====
-- A client's connection to the bridge: its frames and its bytes, lumo_shell_bridge_client_handle_frame,
-- lumo_shell_bridge_client_event, lumo_shell_bridge_accept_event and lumo_shell_bridge_remove_client of
-- compositor/src/shell/shell_bridge.c. What the calls of recv answer is an explicit list.
use lumo_compositor.Base.{
  Bool, true, false, Option, none, some, List, [], ◌∷◌, if◌then◌else◌, ◌>>=◌,
}
use lumo_compositor.CString.{Bytes, codes}
use lumo_compositor.Frame.{
  Frame, FrameKind, event, request, response, error, frame_init, frame_add_u32, frame_add_string,
  frame_add_bool,
}
use lumo_compositor.Stream.{Stream, Fed, feed, fresh}
use lumo_compositor.Ui.{Ui, emit, capture_screenshot, stop_session}
use lumo_compositor.Bridge.{keep}
use lumo_compositor.Bridge.Clients.{Client, after_write, send_state_snapshot}
use lumo_compositor.Bridge.Desk.{
  Ending, no_more, then_capture, then_stop, Doubles, Desk, Reply, with_ui, result_frame, sent_text,
}
use lumo_compositor.Bridge.Windows.{handle_request}

pub record Turn : Type 0 where
  pub desk : Desk
  pub client : Client

abbrev pub send_text : Option Bytes → Client → Client
send_text none c = c
send_text (some bytes) c = after_write bytes c

abbrev pub finish : Ending → Ui → Ui
finish no_more ui = ui
finish then_capture ui = emit capture_screenshot ui
finish then_stop ui = emit stop_session ui

-- The answer goes out, then the calls behind it are made.
abbrev pub answered : Frame → Reply → Client → Turn
answered f r c = record {
  desk = with_ui (finish r.ending r.desk.shell.ui) r.desk;
  client = send_text (sent_text (result_frame f r.result)) c;
}

module _ {D : Type 0} (doubles : Doubles D) where
  abbrev pub serve_kind : FrameKind → Frame → Turn → Turn
  serve_kind request f t = answered f (handle_request doubles f t.desk) t.client
  serve_kind event f t = t
  serve_kind response f t = t
  serve_kind error f t = t

  -- Only requests are looked at.
  unfoldable pub client_handle_frame : Frame → Turn → Turn
  client_handle_frame f t = serve_kind f.kind f t

  unfoldable pub handle_frames : List Frame → Turn → Turn
  unfolding client_handle_frame
  handle_frames [] t = t
  handle_frames (f ∷ fs) t = handle_frames fs (client_handle_frame f t)

-- recv: bytes, an interrupt, nothing there yet, the end of the stream, or another error.
pub data Received : Type 0 where
  chunk : Bytes → Received
  interrupted would_block closed failed : Received

-- A connection with its stream; `removed` once lumo_shell_bridge_remove_client closed and freed it.
pub record Connection : Type 0 where
  pub turn : Turn
  pub stream : Stream
  pub removed : Bool

abbrev pub remove_client : Connection → Connection
remove_client c = record c { removed = true }

module _ {D : Type 0} (doubles : Doubles D) where
  -- What one chunk does: the frames it completes are handled, and the client is removed when the
  -- stream refuses it.
  abbrev pub fed : Fed → Connection → Connection
  fed r c = record {
    turn = handle_frames doubles r.frames c.turn;
    stream = r.stream;
    removed = if r.accepted then c.removed else true;
  }

  -- The loop over recv, as long as it answers.
  unfoldable pub client_event : List Received → Connection → Connection
  unfolding handle_frames
  client_event [] c = c
  client_event (interrupted ∷ rest) c = client_event rest c
  client_event (would_block ∷ rest) c = c
  client_event (failed ∷ rest) c = remove_client c
  client_event (closed ∷ rest) c = remove_client c
  client_event (chunk bytes ∷ rest) c =
      let r = feed c.stream bytes in
      let later = client_event rest (fed r c) in if r.accepted then later else fed r c

-- The frame that greets a client; a field that is refused would leave the frame as it was.
abbrev hello_fields : Frame → Frame
hello_fields f =
    let a = keep f (frame_add_u32 f (codes "version") 1) in
    let b = keep a (frame_add_string a (codes "compositor") (codes "lumo")) in
    let c = keep b (frame_add_bool b (codes "sidebar_support") true) in
    keep c (frame_add_bool c (codes "wave_background") true)

unfoldable pub hello_frame : Option Frame
hello_frame = do f ← frame_init event (codes "hello") 0; some (hello_fields f)

-- A new client: its greeting, then the state.
unfoldable pub accept_client : Desk → Client → Connection
unfolding hello_frame sent_text
accept_client d c = record {
  turn = record {
    desk = d;
    client = send_state_snapshot d.shell (send_text (sent_text hello_frame) c);
  };
  stream = fresh;
  removed = false;
}
