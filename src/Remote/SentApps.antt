-- ===== src/Remote/SentApps.antt =====
-- The shell client's requests about the windows (compositor/src/shell/shell_protocol_client.c), as the
-- compositor takes them.
use lumo_compositor.Base.{
  ℕ, ◌<◌, ◌^◌, Bool, true, Option, none, some, List, [], ◌∷◌, ◌≡◌, refl, ap, ◌∙◌, arith, get_elem?,
}
use lumo_compositor.CString.{codes, str_eq, decimal}
use lumo_compositor.Frame.{
  IsToken, max_key_length, frame_init, frame_get, find_field, frame_get_u32, copy_token,
}
use lumo_compositor.Frame.Fields.{uint32_of_text-decimal}
use lumo_compositor.Stream.{fresh}
use lumo_compositor.Ui.{Toplevel}
use lumo_compositor.Ui.Edges.{Closing}
use lumo_compositor.Bridge.Desk.{no_more, Doubles, Desk, Reply}
use lumo_compositor.Bridge.Serving.{Connection, chunk, would_block, client_event}
use lumo_compositor.Bridge.Windows.{
  handle_request, find_request, serve, close_at, focus_reply, enable_at, request_close,
  request_focus,
}
use lumo_compositor.Bridge.Writing.{SendAnswer}
use lumo_compositor.Remote.{Remote}
use lumo_compositor.Remote.Sent.{
  decimal-IsValue, one_field, one_field-IsFrame, one_added, sent_request,
}
use lumo_compositor.Remote.Senders.{send_request, send_focus_app, send_close_app}

index-IsToken : IsToken max_key_length (codes "index")
index-IsToken = (refl, λ e. cc, omega arith)

focus_quiet : (o : Option Closing) (d : Desk) → (focus_reply o d).ending ≡ no_more
focus_quiet none d = refl
focus_quiet (some c) d = refl

close_quiet : (o : Option Toplevel) (d : Desk) → (close_at o d).ending ≡ no_more
close_quiet none d = refl
close_quiet (some t) d = refl

module _ {D : Type 0} (doubles : Doubles D) where
  focus_handled :
      (index id : ℕ) (d : Desk)
      → index < 2 ^ 32
      → handle_request doubles (one_field (codes "focus_app") id (codes "index") (decimal index)) d
        ≡ focus_reply (enable_at index d.shell.ui.toplevels) d
  unfolding handle_request find_request serve request_focus frame_get find_field frame_get_u32
      str_eq
  focus_handled index id d h = rw (uint32_of_text-decimal index h) refl

  close_handled :
      (index id : ℕ) (d : Desk)
      → index < 2 ^ 32
      → handle_request doubles (one_field (codes "close_app") id (codes "index") (decimal index)) d
        ≡ close_at (get_elem? d.shell.ui.toplevels index) d
  unfolding handle_request find_request serve request_close frame_get find_field frame_get_u32
      str_eq
  close_handled index id d h = rw (uint32_of_text-decimal index h) refl

-- When the write succeeds, the compositor, which reads the bytes from a client between two requests,
-- does for focus_app what it does to show the window at that index, and for close_app what it does to
-- close it: nothing when there is no such window.
pub send_app-reaches :
    {D : Type 0} (doubles : Doubles D) (connected : Bool) (answers : List SendAnswer) (r : Remote D)
    (index : ℕ) (c : Connection)
    → r.next_request_id < 2 ^ 32
    → index < 2 ^ 32
    → c.stream ≡ fresh
    → (send_focus_app connected answers index r).written.answer ≡ some true
    → (send_close_app connected answers index r).written.answer ≡ some true
    → let focus = (send_focus_app connected answers index r).written.out in
      let close = (send_close_app connected answers index r).written.out in
      let windows = c.turn.desk.shell.ui.toplevels in
      ((client_event doubles (chunk focus ∷ would_block ∷ []) c).turn.desk
        ≡ (focus_reply (enable_at index windows) c.turn.desk).desk)
      × ((client_event doubles (chunk close ∷ would_block ∷ []) c).turn.desk
          ≡ (close_at (get_elem? windows index) c.turn.desk).desk)
unfolding send_focus_app send_close_app send_request frame_init copy_token
send_app-reaches doubles connected answers r index c id h ready sent asked =
    let d = c.turn.desk in
    let n = r.next_request_id in
    let focused = focus_handled doubles index n d h in
    let closed = close_handled doubles index n d h in
    (
      sent_request doubles connected answers _
            (one_field (codes "focus_app") n (codes "index") (decimal index)) c
            (one_added (codes "focus_app") (codes "index") n index index-IsToken h)
            (one_field-IsFrame _ _ _ n id (refl, λ e. cc, omega arith) index-IsToken
              (decimal-IsValue index h))
            (omega arith) refl ready (ap (λ (x : Reply). x.ending) focused ∙ focus_quiet _ d) sent
          ∙ ap (λ (x : Reply). x.desk) focused,
      sent_request doubles connected answers _
            (one_field (codes "close_app") n (codes "index") (decimal index)) c
            (one_added (codes "close_app") (codes "index") n index index-IsToken h)
            (one_field-IsFrame _ _ _ n id (refl, λ e. cc, omega arith) index-IsToken
              (decimal-IsValue index h))
            (omega arith) refl ready (ap (λ (x : Reply). x.ending) closed ∙ close_quiet _ d) asked
          ∙ ap (λ (x : Reply). x.desk) closed,
    )
