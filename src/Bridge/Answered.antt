-- ===== src/Bridge/Answered.antt =====
-- What a client reads after its requests (compositor/src/shell/shell_bridge.c).
use mathlib.Core.Path.{subst}
use lumo_compositor.Base.{ℕ, ◌≤◌, true, List, [], ◌∷◌, ◌++◌, ◌≡◌, sym, ap, ◌∙◌, arith, length, drop}
use lumo_compositor.CString.{Bytes}
use lumo_compositor.Frame.{Frame, request, IsFrame}
use lumo_compositor.Frame.Size.{frame_text}
use lumo_compositor.Stream.{Fed, feed, fresh}
use lumo_compositor.Stream.Chunks.{feed-append, feed_then}
use lumo_compositor.Stream.RoundTrip.{feed-frame_text}
use lumo_compositor.Bridge.Clients.{Client}
use lumo_compositor.Bridge.Desk.{Doubles, Result, result_frame, sent_text}
use lumo_compositor.Bridge.Writing.{sends, write_all-sends}
use lumo_compositor.Bridge.Answers.{
  IsResult, answer_frame, answer_frame-IsFrame, sent_text-answer, length-answer_text,
}
use lumo_compositor.Bridge.Results.{handle_request-IsReply}
use lumo_compositor.Bridge.Windows.{handle_request}
use lumo_compositor.Bridge.Serving.{Turn, send_text, serve_kind, client_handle_frame}

-- What a client has read so far, ready for more.
abbrev pub HasRead : List Frame → Client → Type 0
HasRead fs c = feed fresh c.received ≡ record { stream = fresh; frames = fs; accepted = true }

read_one :
    (f : Frame)
    → IsFrame f
    → feed fresh (frame_text f []) ≡ record { stream = fresh; frames = f ∷ []; accepted = true }
unfolding feed
read_one f w = feed-frame_text f [] w

read_more :
    (fs : List Frame) (f : Frame) (before : Bytes)
    → IsFrame f
    → feed fresh before ≡ record { stream = fresh; frames = fs; accepted = true }
    → feed fresh (before ++ frame_text f [])
      ≡ record { stream = fresh; frames = fs ++ f ∷ []; accepted = true }
read_more fs f before w h =
    feed-append fresh before (frame_text f [])
    ∙ ap (λ r. feed_then r (frame_text f [])) h
    ∙ ap (λ (q : Fed). record q { frames = fs ++ q.frames }) (read_one f w)

-- The answer as the client reads it behind what it had read.
answer_read :
    (f : Frame) (r : Result) (c : Client) (ns : List ℕ) (fs : List Frame)
    → IsFrame f
    → IsResult r
    → c.answers ≡ sends ns
    → 1024 ≤ length ns
    → HasRead fs c
    → HasRead (fs ++ answer_frame f r ∷ []) (send_text (sent_text (result_frame f r)) c)
answer_read f r c ns fs w h takes room had =
    let text = frame_text (answer_frame f r) [] in
    let fits : length text ≤ length ns = omega (arith, length-answer_text f r w h) in
    rw (sent_text-answer f r w h) (
      rw takes (
        rw ((write_all-sends ns b'L' (drop 1 text) fits).1)
          (read_more fs (answer_frame f r) c.received (answer_frame-IsFrame f r w h) had)))

-- A request, of a client whose socket takes at least one byte whenever it is asked, is answered by
-- exactly one frame behind those that the client had read: a response with the status ok, or an error
-- with its code and reason, under the request's name and id.
pub request-answered :
    {D : Type 0} (doubles : Doubles D) (f : Frame) (t : Turn) (ns : List ℕ) (fs : List Frame)
    → f.kind ≡ request
    → IsFrame f
    → t.client.answers ≡ sends ns
    → 1024 ≤ length ns
    → HasRead fs t.client
    → HasRead
        (fs ++ answer_frame f (handle_request doubles f t.desk).result ∷ [])
        (client_handle_frame doubles f t).client
unfolding client_handle_frame
request-answered doubles f t ns fs asked w takes room had =
    let r = (handle_request doubles f t.desk).result in
    subst (λ k. HasRead (fs ++ answer_frame f r ∷ []) (serve_kind doubles k f t).client) (sym asked)
      (answer_read f r t.client ns fs w (handle_request-IsReply doubles f t.desk).0 takes room had)
