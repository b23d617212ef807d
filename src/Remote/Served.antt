-- ===== src/Remote/Served.antt =====
-- What the compositor does behind a request of its shell client: the senders of
-- compositor/src/shell/shell_protocol_client.c and compositor/src/shell/shell_input.c on the one side,
-- lumo_shell_bridge_client_event of compositor/src/shell/shell_bridge.c on the other.
use lumo_compositor.Base.{
  ℕ, ◌<◌, ◌^◌, Bool, true, some, List, [], ◌∷◌, ◌≡◌, refl, ap, ◌∙◌, arith, ◌>>=◌,
}
use lumo_compositor.CString.{codes, str_eq, decimal}
use lumo_compositor.Frame.{
  Frame, request, IsFrame, IsValue, max_value_length, frame_init, frame_add_string, frame_get,
  find_field, frame_get_u32, copy_token,
}
use lumo_compositor.Frame.Fields.{uint32_of_text-decimal}
use lumo_compositor.Stream.{fresh}
use lumo_compositor.Layout.Modes.{
  ShellMode, launcher, osk, gesture, status, background, sidebar, TargetKind, launcher_tile,
  launcher_close, osk_key, gesture_handle, sidebar_app, sidebar_drawer_btn, no_target, mode_name,
  target_kind_name,
}
use lumo_compositor.Bridge.Answers.{field, add_known, IsValue-of}
use lumo_compositor.Bridge.Names.{target_kind_parse-target_kind_name}
use lumo_compositor.Bridge.Desk.{no_more, Doubles, Desk, Reply}
use lumo_compositor.Ui.Osk.{Answer, accepted, invalid_index, no_text_input_focus}
use lumo_compositor.Bridge.Serving.{Connection, chunk, would_block, client_event}
use lumo_compositor.Bridge.Targets.{
  key_reply, activate_tile, activate_key, activate, activate_target,
}
use lumo_compositor.Bridge.Writing.{SendAnswer}
use lumo_compositor.Bridge.Windows.{handle_request, find_request, serve}
use lumo_compositor.Remote.{Remote}
use lumo_compositor.Remote.Sent.{start, decimal-IsValue, add_u32_known, sent_request}
use lumo_compositor.Remote.Senders.{target_request, send_request, send_activate_target}

abbrev activate_frame : TargetKind → ℕ → ShellMode → ℕ → Frame
activate_frame kind index mode id = record (start (codes "activate_target") id) {
  fields =
      field (codes "kind") (target_kind_name kind)
      ∷ field (codes "index") (decimal index)
      ∷ field (codes "mode") (mode_name mode)
      ∷ [];
}

kind-IsValue : (kind : TargetKind) → IsValue max_value_length (target_kind_name kind)
unfolding target_kind_name
kind-IsValue no_target = IsValue-of (codes "none") refl
kind-IsValue launcher_tile = IsValue-of (codes "launcher-tile") refl
kind-IsValue launcher_close = IsValue-of (codes "launcher-close") refl
kind-IsValue osk_key = IsValue-of (codes "osk-key") refl
kind-IsValue gesture_handle = IsValue-of (codes "gesture-handle") refl
kind-IsValue sidebar_app = IsValue-of (codes "sidebar-app") refl
kind-IsValue sidebar_drawer_btn = IsValue-of (codes "sidebar-drawer-btn") refl

mode-IsValue : (mode : ShellMode) → IsValue max_value_length (mode_name mode)
unfolding mode_name
mode-IsValue launcher = IsValue-of (codes "launcher") refl
mode-IsValue osk = IsValue-of (codes "osk") refl
mode-IsValue gesture = IsValue-of (codes "gesture") refl
mode-IsValue status = IsValue-of (codes "status") refl
mode-IsValue background = IsValue-of (codes "background") refl
mode-IsValue sidebar = IsValue-of (codes "sidebar") refl

-- The request is always built.
activate_built :
    (kind : TargetKind) (index : ℕ) (mode : ShellMode) (id : ℕ)
    → index < 2 ^ 32
    → (frame_init request (codes "activate_target") id >>= target_request kind index mode)
      ≡ some (activate_frame kind index mode id)
unfolding frame_init copy_token frame_add_string
activate_built kind index mode id h =
    let f = start (codes "activate_target") id in
    let kinded = record f { fields = field (codes "kind") (target_kind_name kind) ∷ [] } in
    let a =
      add_known f (codes "kind") (target_kind_name kind) (refl, λ e. cc, omega arith)
        (kind-IsValue kind) (omega arith) in
    let b =
      add_u32_known kinded (codes "index") index h (refl, λ e. cc, omega arith) (omega arith) in
    rw a (
      rw b (
        add_known _ (codes "mode") (mode_name mode) (refl, λ e. cc, omega arith) (mode-IsValue mode)
          (omega arith)))

activate_frame-IsFrame :
    (kind : TargetKind) (index : ℕ) (mode : ShellMode) (id : ℕ)
    → index < 2 ^ 32
    → id < 2 ^ 32
    → IsFrame (activate_frame kind index mode id)
activate_frame-IsFrame kind index mode id h k = record {
  name_token = (refl, λ e. cc, omega arith);
  id_range = k;
  field_room = omega arith;
  each_field = (
    record { key_token = (refl, λ e. cc, omega arith); value_text = kind-IsValue kind },
    (
      record { key_token = (refl, λ e. cc, omega arith); value_text = decimal-IsValue index h },
      (record { key_token = (refl, λ e. cc, omega arith); value_text = mode-IsValue mode }, tt),
    ),
  );
}

activate_frame-handled :
    {D : Type 0} (doubles : Doubles D) (kind : TargetKind) (index : ℕ) (mode : ShellMode) (id : ℕ)
    (d : Desk)
    → index < 2 ^ 32
    → handle_request doubles (activate_frame kind index mode id) d ≡ activate kind index d
unfolding handle_request find_request serve activate_target frame_get find_field frame_get_u32
    str_eq
activate_frame-handled doubles kind index mode id d h =
    rw (target_kind_parse-target_kind_name kind) (rw (uint32_of_text-decimal index h) refl)

key-quiet : (a : Answer) (d : Desk) → (key_reply a d).ending ≡ no_more
key-quiet accepted d = refl
key-quiet invalid_index d = refl
key-quiet no_text_input_focus d = refl

-- Nothing is left to do behind the answer.
activate-quiet :
    (kind : TargetKind) (index : ℕ) (d : Desk) → (activate kind index d).ending ≡ no_more
unfolding activate activate_tile activate_key
activate-quiet launcher_tile index d = refl
activate-quiet launcher_close index d = refl
activate-quiet gesture_handle index d = refl
activate-quiet osk_key index d = key-quiet _ _
activate-quiet sidebar_app index d = refl
activate-quiet sidebar_drawer_btn index d = refl
activate-quiet no_target index d = refl

-- When the write of an activated target succeeds, the compositor, which reads its bytes from a client
-- between two requests, does what it does for that kind of target and that index.
pub send_activate_target-activates :
    {D : Type 0} (doubles : Doubles D) (connected : Bool) (answers : List SendAnswer) (r : Remote D)
    (kind : TargetKind) (index : ℕ) (c : Connection)
    → r.next_request_id < 2 ^ 32
    → index < 2 ^ 32
    → c.stream ≡ fresh
    → (send_activate_target connected answers (some (kind, index)) r).written.answer ≡ some true
    → let out = (send_activate_target connected answers (some (kind, index)) r).written.out in
      (client_event doubles (chunk out ∷ would_block ∷ []) c).turn.desk
      ≡ (activate kind index c.turn.desk).desk
unfolding send_activate_target send_request
send_activate_target-activates doubles connected answers r kind index c id h ready done =
    let f = activate_frame kind index r.mode r.next_request_id in
    let handled =
      activate_frame-handled doubles kind index r.mode r.next_request_id c.turn.desk h in
    sent_request doubles connected answers _ f c
      (activate_built kind index r.mode r.next_request_id h)
      (activate_frame-IsFrame kind index r.mode r.next_request_id h id) (omega arith) refl ready
      (ap (λ (x : Reply). x.ending) handled ∙ activate-quiet kind index c.turn.desk) done
    ∙ ap (λ (x : Reply). x.desk) handled
