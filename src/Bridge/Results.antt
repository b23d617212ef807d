-- ===== src/Bridge/Results.antt =====
-- The results of the requests (compositor/src/shell/shell_bridge.c): each one is sent whole, and a refusal leaves
-- everything as it was, but for the shift of a key that finds no window.
use lumo_compositor.Base.{
  ◌⊎◌, ◌≢◌, ap, ◌>>=◌, ℕ, Bool, true, false, Option, none, some, List, [], ◌∷◌, ◌≡◌, refl, ◌∙◌,
  get_elem?, inl, inr,
}
use lumo_compositor.CString.{Bytes, codes}
use lumo_compositor.Frame.{Frame, frame_get, frame_get_bool, frame_get_u32}
use lumo_compositor.Ui.{Ui, Scrim, Toplevel, set_launcher_visible, set_keyboard_visible}
use lumo_compositor.Ui.Edges.{Closing}
use lumo_compositor.Bridge.{Rotation}
use lumo_compositor.Bridge.Desk.{Doubles, Desk, Reply, done}
use lumo_compositor.Bridge.Names.{target_kind_parse, rotation_parse, scrim_state_parse}
use lumo_compositor.Bridge.Targets.{number_or}
use lumo_compositor.Bridge.Requests.{
  with_flag, changed, request_launcher, request_keyboard, request_scrim, scrim_reply,
  request_threshold, threshold_reply, request_ack, ack_reply, request_rotation, rotation_reply,
  set_audit, request_audit, request_volume, request_brightness, request_toast, request_screenshot,
  request_reload, request_cycle,
}
use lumo_compositor.Bridge.Windows.{
  Asked, Request, activating, launcher_request, keyboard_request, scrim_request, threshold_request,
  ack_request, rotation_request, audit_request, volume_request, brightness_request, toast_request,
  screenshot_request, ping_request, reload_request, cycle_request, close_request, focus_request,
  minimize_request, new_window_request, drawer_request, close_focused_app, send_close_to,
  close_asked, close_at, close_reply, request_close, enable_at, focus_reply, request_focus,
  request_minimize, request_new_window, request_drawer, serve, serve_found, handle_request,
  find_request, request_names,
}
use lumo_compositor.Layout.Modes.{
  TargetKind, launcher_tile, launcher_close, osk_key, gesture_handle, sidebar_app,
  sidebar_drawer_btn, no_target,
}
use lumo_compositor.Ui.{broadcast}
use lumo_compositor.Ui.OskRefusals.{commit_osk_text-IsPressed}
use lumo_compositor.Ui.Osk.{Answer, accepted, invalid_index, no_text_input_focus, commit_osk_text}
use lumo_compositor.Bridge.Desk.{Surface, window_surface, other_surface, with_ui}
use lumo_compositor.Bridge.Windows.{close_surface_app}
use lumo_compositor.Bridge.Targets.{
  activate_tile, activate_key, activate, activate_parsed, activate_target, key_reply,
}
use lumo_compositor.Bridge.Answers.{IsResult, is_value}

-- A result that can be sent, of a request that has done nothing if it is refused, but that has used up the
-- shift where `Touched` holds and there was nothing to type into.
abbrev pub IsReplyOf : Type 0 → Desk → Reply → Type 0
IsReplyOf Touched d r =
    IsResult r.result
    × (r.result.success ≡ false
        → (r.desk ≡ d)
          ⊎ (Touched
              × (r.result.code ≡ some (codes "no_text_input_focus"))
              × (d.shell.ui.osk_shift_active ≡ true)
              × (r.desk ≡ with_ui (broadcast (record d.shell.ui { osk_shift_active = false })) d)))

surface-asked :
    (s : Surface) → (close_surface_app s).closed ≡ false → (close_surface_app s).window ≡ none
surface-asked (window_surface handle) h = cc
surface-asked (other_surface closed) h = refl

close_focused_app-asked :
    (k p : Option Surface) (ts : List Toplevel)
    → (close_focused_app k p ts).closed ≡ false
    → (close_focused_app k p ts).window ≡ none
unfolding close_focused_app
close_focused_app-asked (some s) p ts h = surface-asked s h
close_focused_app-asked none (some s) ts h = surface-asked s h
close_focused_app-asked none none [] h = refl
close_focused_app-asked none none (t ∷ ts) h = cc

other_answer : invalid_index ≢ no_text_input_focus
other_answer h = cc

module _ (Touched : Type 0) where
  done-IsReply : (d e : Desk) → IsReplyOf Touched d (done e)
  done-IsReply d e = ((refl, refl), λ h. cc)

  flag-IsReply :
      (key : Bytes) (o : Option Bool) (set : Bool → Desk → Reply) (d : Desk)
      → is_value key ≡ true
      → ((v : Bool) → IsReplyOf Touched d (set v d))
      → IsReplyOf Touched d (with_flag key o set d)
  flag-IsReply key none set d k h = ((refl, k), λ e. inl refl)
  flag-IsReply key (some v) set d k h = h v

  scrim_reply-IsReply : (o : Option Scrim) (d : Desk) → IsReplyOf Touched d (scrim_reply o d)
  scrim_reply-IsReply none d = ((refl, refl), λ h. inl refl)
  scrim_reply-IsReply (some state) d = done-IsReply d _

  threshold_reply-IsReply :
      {D : Type 0} (doubles : Doubles D) (o : Option D) (timeout_ms : ℕ) (d : Desk)
      → IsReplyOf Touched d (threshold_reply doubles o timeout_ms d)
  threshold_reply-IsReply doubles none timeout_ms d = ((refl, refl), λ h. inl refl)
  threshold_reply-IsReply doubles (some value) timeout_ms d = done-IsReply d _

  ack_reply-IsReply : (o : Option ℕ) (d : Desk) → IsReplyOf Touched d (ack_reply o d)
  ack_reply-IsReply none d = ((refl, refl), λ h. inl refl)
  ack_reply-IsReply (some serial) d = done-IsReply d _

  rotation_reply-IsReply :
      (o : Option Rotation) (d : Desk) → IsReplyOf Touched d (rotation_reply o d)
  rotation_reply-IsReply none d = ((refl, refl), λ h. inl refl)
  rotation_reply-IsReply (some turned) d = done-IsReply d _

  close_at-IsReply : (o : Option Toplevel) (d : Desk) → IsReplyOf Touched d (close_at o d)
  close_at-IsReply none d = ((refl, refl), λ h. inl refl)
  close_at-IsReply (some t) d = done-IsReply d _

  -- A window is asked to close only by a call that succeeds.
  close_asked-IsReply :
      (a : Asked) (d : Desk)
      → (a.closed ≡ false → a.window ≡ none)
      → IsReplyOf Touched d (close_asked a d)
  close_asked-IsReply a d h = go a.closed a.window h
    where
      go :
          (closed : Bool) (window : Option ℕ)
          → (closed ≡ false → window ≡ none)
          → IsReplyOf Touched d (close_asked (record { window = window; closed = closed }) d)
      go true window e = done-IsReply d _
      go false window e = ((refl, refl), λ _. inl (ap (λ w. send_close_to w d) (e refl)))

  close_reply-IsReply : (o : Option ℕ) (d : Desk) → IsReplyOf Touched d (close_reply o d)
  close_reply-IsReply none d =
      close_asked-IsReply (close_focused_app d.keyboard_focus d.pointer_focus d.shell.ui.toplevels)
        d (close_focused_app-asked d.keyboard_focus d.pointer_focus d.shell.ui.toplevels)
  close_reply-IsReply (some index) d = close_at-IsReply (get_elem? d.shell.ui.toplevels index) d

  focus_reply-IsReply : (o : Option Closing) (d : Desk) → IsReplyOf Touched d (focus_reply o d)
  focus_reply-IsReply none d = ((refl, refl), λ h. inl refl)
  focus_reply-IsReply (some c) d = done-IsReply d _

  key_reply-IsReply :
      (a : Answer) (u : Ui) (d : Desk)
      → Touched
      → (a ≢ accepted
          → (u ≡ d.shell.ui)
            ⊎ ((a ≡ no_text_input_focus)
                × (d.shell.ui.osk_shift_active ≡ true)
                × (u ≡ broadcast (record d.shell.ui { osk_shift_active = false }))))
      → IsReplyOf Touched d (key_reply a (with_ui u d))
  key_reply-IsReply accepted u d touched h = done-IsReply d _
  key_reply-IsReply invalid_index u d touched h = ((refl, refl), λ _. as_it_was (h (λ q. cc)))
    where
      as_it_was :
          (u ≡ d.shell.ui)
            ⊎ ((invalid_index ≡ no_text_input_focus)
                × (d.shell.ui.osk_shift_active ≡ true)
                × (u ≡ broadcast (record d.shell.ui { osk_shift_active = false })))
          → (with_ui u d ≡ d)
            ⊎ (Touched
                × (some (codes "invalid_index") ≡ some (codes "no_text_input_focus"))
                × (d.shell.ui.osk_shift_active ≡ true)
                × (with_ui u d
                    ≡ with_ui (broadcast (record d.shell.ui { osk_shift_active = false })) d))
      as_it_was (inl e) = inl (ap (λ x. with_ui x d) e)
      as_it_was (inr e) = absurd (other_answer e.0)
  key_reply-IsReply no_text_input_focus u d touched h =
      ((refl, refl), λ _. shift_used (h (λ q. cc)))
    where
      shift_used :
          (u ≡ d.shell.ui)
            ⊎ ((no_text_input_focus ≡ no_text_input_focus)
                × (d.shell.ui.osk_shift_active ≡ true)
                × (u ≡ broadcast (record d.shell.ui { osk_shift_active = false })))
          → (with_ui u d ≡ d)
            ⊎ (Touched
                × (some (codes "no_text_input_focus") ≡ some (codes "no_text_input_focus"))
                × (d.shell.ui.osk_shift_active ≡ true)
                × (with_ui u d
                    ≡ with_ui (broadcast (record d.shell.ui { osk_shift_active = false })) d))
      shift_used (inl e) = inl (ap (λ x. with_ui x d) e)
      shift_used (inr e) = inr (touched, refl, e.1, ap (λ x. with_ui x d) e.2)

  activate_key-IsReply :
      (index : ℕ) (d : Desk) → Touched → IsReplyOf Touched d (activate_key index d)
  unfolding activate_key
  activate_key-IsReply index d touched =
      let p = commit_osk_text d.has_text_input d.has_keyboard index d.shell.ui in
      key_reply-IsReply p.answer p.ui d touched
        (commit_osk_text-IsPressed d.has_text_input d.has_keyboard index d.shell.ui)

  activate-IsReply :
      (kind : TargetKind) (index : ℕ) (d : Desk)
      → (kind ≡ osk_key → Touched)
      → IsReplyOf Touched d (activate kind index d)
  unfolding activate activate_tile
  activate-IsReply launcher_tile index d t = done-IsReply d _
  activate-IsReply launcher_close index d t = done-IsReply d _
  activate-IsReply gesture_handle index d t = done-IsReply d _
  activate-IsReply osk_key index d t = activate_key-IsReply index d (t refl)
  activate-IsReply sidebar_app index d t = ((refl, refl), λ h. inl refl)
  activate-IsReply sidebar_drawer_btn index d t = ((refl, refl), λ h. inl refl)
  activate-IsReply no_target index d t = ((refl, refl), λ h. inl refl)

  activate_parsed-IsReply :
      (o : Option TargetKind) (index : ℕ) (d : Desk)
      → (o ≡ some osk_key → Touched)
      → IsReplyOf Touched d (activate_parsed o index d)
  activate_parsed-IsReply none index d t = ((refl, refl), λ h. inl refl)
  activate_parsed-IsReply (some kind) index d t = activate-IsReply kind index d (λ e. t (ap some e))

-- The kind of target that a request names.
abbrev pub kind_of : Frame → Option TargetKind
kind_of f = do value ← frame_get f (codes "kind"); target_kind_parse value

serve-IsReply :
    {D : Type 0} (Touched : Type 0) (doubles : Doubles D) (r : Request) (f : Frame) (d : Desk)
    → (r ≡ activating → kind_of f ≡ some osk_key → Touched)
    → IsReplyOf Touched d (serve doubles r f d)
unfolding serve activate_target request_launcher request_keyboard request_scrim request_threshold
    request_ack request_rotation request_audit request_volume request_brightness request_toast
    request_screenshot request_reload request_cycle request_close request_focus request_minimize
    request_new_window request_drawer
serve-IsReply T doubles activating f d t =
    activate_parsed-IsReply T (kind_of f) (number_or (frame_get_u32 f (codes "index")) 0) d (t refl)
serve-IsReply T doubles launcher_request f d t =
    flag-IsReply T (codes "visible") (frame_get_bool f (codes "visible"))
      (λ v. changed (set_launcher_visible v)) d refl (λ v. done-IsReply T d _)
serve-IsReply T doubles keyboard_request f d t =
    flag-IsReply T (codes "visible") (frame_get_bool f (codes "visible"))
      (λ v. changed (set_keyboard_visible v)) d refl (λ v. done-IsReply T d _)
serve-IsReply T doubles scrim_request f d t =
    scrim_reply-IsReply T (do value ← frame_get f (codes "state"); scrim_state_parse value) d
serve-IsReply T doubles threshold_request f d t =
    threshold_reply-IsReply T doubles
      (do text ← frame_get f (codes "threshold"); doubles.parse text)
      (number_or (frame_get_u32 f (codes "timeout_ms")) d.shell.gesture_timeout_ms) d
serve-IsReply T doubles ack_request f d t = ack_reply-IsReply T (frame_get_u32 f (codes "serial")) d
serve-IsReply T doubles rotation_request f d t =
    rotation_reply-IsReply T (do value ← frame_get f (codes "rotation"); rotation_parse value) d
serve-IsReply T doubles audit_request f d t =
    flag-IsReply T (codes "active") (frame_get_bool f (codes "active"))
      (λ v e. done (set_audit v e)) d refl (λ v. done-IsReply T d _)
serve-IsReply T doubles volume_request f d t = done-IsReply T d _
serve-IsReply T doubles brightness_request f d t = done-IsReply T d _
serve-IsReply T doubles toast_request f d t = done-IsReply T d _
serve-IsReply T doubles screenshot_request f d t = ((refl, refl), λ h. cc)
serve-IsReply T doubles ping_request f d t = done-IsReply T d _
serve-IsReply T doubles reload_request f d t = ((refl, refl), λ h. cc)
serve-IsReply T doubles cycle_request f d t = done-IsReply T d _
serve-IsReply T doubles close_request f d t =
    close_reply-IsReply T (frame_get_u32 f (codes "index")) d
serve-IsReply T doubles focus_request f d t =
    focus_reply-IsReply T
      (enable_at (number_or (frame_get_u32 f (codes "index")) 0) d.shell.ui.toplevels) d
serve-IsReply T doubles minimize_request f d t = done-IsReply T d _
serve-IsReply T doubles new_window_request f d t = done-IsReply T d _
serve-IsReply T doubles drawer_request f d t = done-IsReply T d _

-- A touch of a key of the on-screen keyboard.
abbrev pub IsKeyTouch : Frame → Type 0
IsKeyTouch f = (find_request f.name request_names ≡ some activating) × (kind_of f ≡ some osk_key)

abbrev pub IsReply : Frame → Desk → Reply → Type 0
IsReply f d r = IsReplyOf (IsKeyTouch f) d r

-- Every request has a code and a reason that fit their fields. One that is refused leaves the compositor as
-- it was, but for a touch of a key of the on-screen keyboard that is refused with no_text_input_focus: that
-- may have used up the shift, where it was on.
pub handle_request-IsReply :
    {D : Type 0} (doubles : Doubles D) (f : Frame) (d : Desk)
    → IsReply f d (handle_request doubles f d)
unfolding handle_request find_request
handle_request-IsReply doubles f d = go (find_request f.name request_names) refl
  where
    go :
        (o : Option Request)
        → find_request f.name request_names ≡ o
        → IsReply f d (serve_found doubles o f d)
    go none e = ((refl, refl), λ h. inl refl)
    go (some r) e = serve-IsReply (IsKeyTouch f) doubles r f d (λ h k. (e ∙ ap some h, k))
