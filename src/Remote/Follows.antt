-- ===== src/Remote/Follows.antt =====
-- The client's copy follows the compositor: compositor/src/shell/shell_bridge.c on the one side and
-- compositor/src/shell/shell_protocol_client.c on the other.
use mathlib.Core.Path.{subst}
use lumo_compositor.Base.{
  Bool, true, false, none, some, List, [], ◌∷◌, ◌++◌, ◌≡◌, refl, sym, ap, ◌∙◌, if◌then◌else◌,
}
use lumo_compositor.CString.{Bytes, codes, str_eq}
use lumo_compositor.CString.Equality.{str_eq_refl}
use lumo_compositor.Frame.{Frame, event}
use lumo_compositor.Stream.{Fed, feed, fresh}
use lumo_compositor.Stream.Chunks.{feed-append, continue_if}
use lumo_compositor.Ui.{Ui}
use lumo_compositor.Bridge.{Shell, broadcast_text}
use lumo_compositor.Bridge.Delivery.{ShowsUi, broadcast_text-delivered}
use lumo_compositor.Bridge.Strings.{IsShell}
use lumo_compositor.Bridge.Serving.{Received, chunk, would_block}
use lumo_compositor.Bridge.Desk.{Doubles}
use lumo_compositor.Remote.{Remote, read_or}
use lumo_compositor.Remote.Apply.{
  apply_launcher, apply_keyboard, apply_panels, apply_notifications, apply_sidebar,
}
use lumo_compositor.Remote.Pump.{
  Pumped, handle_kind, handle_protocol_frame, handle_protocol_frames, read_in, pump_protocol,
}
use lumo_compositor.Remote.State.{apply_state_frame}

-- The copy shows what the compositor shows.
pub record Mirrors {D : Type 0} (r : Remote D) (ui : Ui) : Type 0 where
  pub launcher : r.launcher_visible ≡ ui.launcher_visible
  pub keyboard : r.keyboard_visible ≡ ui.keyboard_visible
  pub shift : r.osk_shift_active ≡ ui.osk_shift_active
  pub quick_settings : r.quick_settings_visible ≡ ui.quick_settings_visible
  pub time_panel : r.time_panel_visible ≡ ui.time_panel_visible
  pub notification_panel : r.notification_panel_visible ≡ ui.notification_panel_visible
  pub sidebar : r.sidebar_visible ≡ ui.sidebar_visible

-- A frame that shows the state brings the copy to it, whatever the copy was.
pub apply_state_frame-Mirrors :
    {D : Type 0} (doubles : Doubles D) (f : Frame) (r : Remote D) (ui : Ui)
    → ShowsUi f ui
    → Mirrors (apply_state_frame doubles f r).remote ui
unfolding apply_state_frame apply_launcher apply_keyboard apply_panels apply_notifications
    apply_sidebar
apply_state_frame-Mirrors doubles f r ui shows = record {
  launcher = ap (λ o. read_or o r.launcher_visible) shows.launcher;
  keyboard = ap (λ o. read_or o r.keyboard_visible) shows.keyboard;
  shift = ap (λ o. read_or o r.osk_shift_active) shows.shift;
  quick_settings = ap (λ o. read_or o r.quick_settings_visible) shows.quick_settings;
  time_panel = ap (λ o. read_or o r.time_panel_visible) shows.time_panel;
  notification_panel = ap (λ o. read_or o r.notification_panel_visible) shows.notification_panel;
  sidebar = ap (λ o. read_or o r.sidebar_visible) shows.sidebar;
}

-- The bytes of reads one after the other.
abbrev pub join : List Bytes → Bytes
join [] = []
join (c ∷ cs) = c ++ join cs

-- The reads that find the bytes in these pieces, and then nothing.
abbrev pub in_pieces : List Bytes → List Received
in_pieces [] = would_block ∷ []
in_pieces (c ∷ cs) = chunk c ∷ in_pieces cs

module _ {D : Type 0} (doubles : Doubles D) where
  frames-append :
      (fs gs : List Frame) (r : Remote D)
      → handle_protocol_frames doubles (fs ++ gs) r
        ≡ handle_protocol_frames doubles gs (handle_protocol_frames doubles fs r)
  unfolding handle_protocol_frames
  frames-append [] gs r = refl
  frames-append (f ∷ fs) gs r = frames-append fs gs (handle_protocol_frame doubles f r)

  -- The end of a pump whose bytes were all accepted.
  abbrev ended : Fed → Pumped D → Pumped D
  ended q p = record {
    remote = handle_protocol_frames doubles q.frames p.remote;
    stream = q.stream;
    answer = some true;
  }

  pump_pieces :
      (cs : List Bytes) (p : Pumped D)
      → (feed p.stream (join cs)).accepted ≡ true
      → pump_protocol doubles (in_pieces cs) p ≡ ended (feed p.stream (join cs)) p
  unfolding pump_protocol feed
  pump_pieces [] p h = refl
  pump_pieces (c ∷ cs) p h =
      go (feed p.stream c).accepted refl
        (sym (ap (λ (q : Fed). q.accepted) (feed-append p.stream c (join cs))) ∙ h)
        (λ k. pump_pieces cs (read_in doubles (feed p.stream c) p) k)
      ∙ ap (λ (q : Fed). ended q p) (sym (feed-append p.stream c (join cs)))
    where
      go :
          (x : Bool)
          → (feed p.stream c).accepted ≡ x
          → (continue_if x (feed p.stream c) (feed (feed p.stream c).stream (join cs))).accepted
            ≡ true
          → ((feed (feed p.stream c).stream (join cs)).accepted ≡ true
              → pump_protocol doubles (in_pieces cs) (read_in doubles (feed p.stream c) p)
                ≡ ended
                    (feed (feed p.stream c).stream (join cs))
                    (read_in doubles (feed p.stream c) p))
          → (if x
              then pump_protocol doubles (in_pieces cs) (read_in doubles (feed p.stream c) p)
              else read_in doubles (feed p.stream c) p)
            ≡ ended (continue_if x (feed p.stream c) (feed (feed p.stream c).stream (join cs))) p
      go true e k ih =
          ih k
          ∙ ap
              (λ (r : Remote D). record {
                remote = r;
                stream = (feed (feed p.stream c).stream (join cs)).stream;
                answer = some true;
              })
              (sym (frames-append (feed p.stream c).frames _ p.remote))
      go false e k ih = cc

  handle_state :
      (f : Frame) (r : Remote D)
      → (f.kind ≡ event) × (f.name ≡ codes "state")
      → handle_protocol_frames doubles (f ∷ []) r ≡ (apply_state_frame doubles f r).remote
  unfolding handle_protocol_frames
  handle_state f r h =
      ap (λ k. handle_kind doubles k f r) h.0
      ∙ ap (λ n. if str_eq n (codes "state") then (apply_state_frame doubles f r).remote else r) h.1
      ∙ rw (str_eq_refl (codes "state")) refl

  abbrev pub connected : Remote D → Pumped D
  connected r = record { remote = r; stream = fresh; answer = none }

-- However the text of a broadcast is cut into reads, a client that reads it comes to show what the
-- compositor shows: launcher, keyboard and shift, panels and sidebar. Its stream is ready for the next
-- frame, and it stays connected.
pub pump_protocol-Mirrors :
    {D : Type 0} (doubles : Doubles D) (s : Shell) (cs : List Bytes) (r : Remote D)
    → IsShell s
    → broadcast_text s ≡ some (join cs)
    → let p = pump_protocol doubles (in_pieces cs) (connected doubles r) in
      Mirrors p.remote s.ui × (p.stream ≡ fresh) × (p.answer ≡ some true)
pump_protocol-Mirrors {D} doubles s cs r w h =
    let sent = broadcast_text-delivered s (join cs) w h in
    let f = sent.0 in
    let done =
      pump_pieces doubles cs (connected doubles r) (ap (λ (q : Fed). q.accepted) sent.1)
      ∙ ap (λ (q : Fed). ended doubles q (connected doubles r)) sent.1 in
    (
      subst (λ (x : Remote D). Mirrors x s.ui)
          (sym (
            ap (λ (p : Pumped D). p.remote) done
            ∙ handle_state doubles f r (sent.2.kind, sent.2.name)))
          (apply_state_frame-Mirrors doubles f r s.ui sent.2),
      ap (λ (p : Pumped D). p.stream) done,
      ap (λ (p : Pumped D). p.answer) done,
    )
