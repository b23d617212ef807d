-- ===== src/Bridge/Reads.antt =====
-- How a client's bytes are cut into reads (lumo_shell_bridge_client_event of compositor/src/shell/shell_bridge.c).
use lumo_compositor.Base.{
  Bool, true, false, List, [], ◌∷◌, ◌++◌, ◌≡◌, refl, sym, ap, ◌∙◌, if◌then◌else◌,
}
use lumo_compositor.CString.{Bytes}
use lumo_compositor.Frame.{Frame}
use lumo_compositor.Stream.{Fed, feed}
use lumo_compositor.Stream.Chunks.{feed-append, feed_then, continue_if}
use lumo_compositor.Bridge.Desk.{Doubles}
use lumo_compositor.Bridge.Serving.{
  Turn, Connection, Received, chunk, client_handle_frame, handle_frames, fed, client_event,
}

module _ {D : Type 0} (doubles : Doubles D) where
  handle_frames-append :
      (fs gs : List Frame) (t : Turn)
      → handle_frames doubles (fs ++ gs) t ≡ handle_frames doubles gs (handle_frames doubles fs t)
  unfolding handle_frames
  handle_frames-append [] gs t = refl
  handle_frames-append (f ∷ fs) gs t = handle_frames-append fs gs (client_handle_frame doubles f t)

  abbrev read_then : List Received → Fed → Connection → Connection
  read_then rest r c =
      if r.accepted then client_event doubles rest (fed doubles r c) else fed doubles r c

  fed-append :
      (q : Fed) (c : Connection) (r : Fed)
      → r.accepted ≡ true
      → fed doubles (record q { frames = r.frames ++ q.frames }) c ≡ fed doubles q (fed doubles r c)
  fed-append q c r ok =
      ap
        (λ (t : Turn). record {
          turn = t;
          stream = q.stream;
          removed = if q.accepted then c.removed else true;
        })
        (handle_frames-append r.frames q.frames c.turn)
      ∙ ap
          (λ (b : Bool). record {
            turn = handle_frames doubles q.frames (handle_frames doubles r.frames c.turn);
            stream = q.stream;
            removed = if q.accepted then (if b then c.removed else true) else true;
          })
          (sym ok)

  read_both :
      (rest : List Received) (b : Bytes) (r : Fed) (c : Connection)
      → (if r.accepted then read_then rest (feed r.stream b) (fed doubles r c) else fed doubles r c)
        ≡ read_then rest (feed_then r b) c
  read_both rest b r c = go r.accepted refl
    where
      go :
          (x : Bool)
          → r.accepted ≡ x
          → (if x then read_then rest (feed r.stream b) (fed doubles r c) else fed doubles r c)
            ≡ read_then rest (continue_if x r (feed r.stream b)) c
      go true e =
          ap
            (λ (d : Connection).
              if (feed r.stream b).accepted then client_event doubles rest d else d)
            (sym (fed-append (feed r.stream b) c r e))
      go false e =
          ap
            (λ (z : Bool).
              if z then client_event doubles rest (fed doubles r c) else fed doubles r c)
            (sym e)

  -- Two reads one after the other do what one read of all their bytes does: the same requests are
  -- handled, the same bytes go out, and the client is kept or removed alike.
  pub client_event-chunks :
      (a b : Bytes) (rest : List Received) (c : Connection)
      → client_event doubles (chunk a ∷ chunk b ∷ rest) c
        ≡ client_event doubles (chunk (a ++ b) ∷ rest) c
  unfolding client_event
  client_event-chunks a b rest c =
      read_both rest b (feed c.stream a) c
      ∙ ap (λ r. read_then rest r c) (sym (feed-append c.stream a b))
