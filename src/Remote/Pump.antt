-- ===== src/Remote/Pump.antt =====
-- What the client reads from its socket: lumo_shell_client_handle_protocol_frame and
-- lumo_shell_client_pump_protocol of compositor/src/shell/shell_protocol_client.c. What the calls of recv answer is an
-- explicit list. What is logged is left out.
use lumo_compositor.Base.{Bool, true, false, Option, some, List, [], ◌∷◌, if◌then◌else◌}
use lumo_compositor.CString.{codes, str_eq}
use lumo_compositor.Frame.{Frame, FrameKind, event, request, response, error}
use lumo_compositor.Stream.{Stream, Fed, feed}
use lumo_compositor.Bridge.Desk.{Doubles}
use lumo_compositor.Bridge.Serving.{Received, chunk, interrupted, would_block, closed, failed}
use lumo_compositor.Remote.{Remote}
use lumo_compositor.Remote.State.{apply_state_frame}

-- The copy and the stream, and the answer once there is one.
pub record Pumped (D : Type 0) : Type 0 where
  pub remote : Remote D
  pub stream : Stream
  pub answer : Option Bool

module _ {D : Type 0} (doubles : Doubles D) where
  abbrev pub handle_kind : FrameKind → Frame → Remote D → Remote D
  handle_kind event f r =
      if str_eq f.name (codes "state") then (apply_state_frame doubles f r).remote else r
  handle_kind response f r = r
  handle_kind error f r = r
  handle_kind request f r = r

  unfoldable pub handle_protocol_frame : Frame → Remote D → Remote D
  handle_protocol_frame f r = handle_kind f.kind f r

  unfoldable pub handle_protocol_frames : List Frame → Remote D → Remote D
  unfolding handle_protocol_frame
  handle_protocol_frames [] r = r
  handle_protocol_frames (f ∷ fs) r = handle_protocol_frames fs (handle_protocol_frame f r)

  abbrev pub read_in : Fed → Pumped D → Pumped D
  read_in q p = record p {
    remote = handle_protocol_frames q.frames p.remote;
    stream = q.stream;
    answer = if q.accepted then p.answer else some false;
  }

  abbrev pub stop : Bool → Pumped D → Pumped D
  stop answer p = record p { answer = some answer }

  -- The loop over recv, as long as it answers.
  unfoldable pub pump_protocol : List Received → Pumped D → Pumped D
  unfolding handle_protocol_frames
  pump_protocol [] p = p
  pump_protocol (interrupted ∷ rest) p = pump_protocol rest p
  pump_protocol (would_block ∷ rest) p = stop true p
  pump_protocol (failed ∷ rest) p = stop false p
  pump_protocol (closed ∷ rest) p = stop false p
  pump_protocol (chunk bytes ∷ rest) p =
      let q = feed p.stream bytes in
      let later = pump_protocol rest (read_in q p) in if q.accepted then later else read_in q p
