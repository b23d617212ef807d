-- ===== src/Remote/Sent.antt =====
-- From a request that the shell client writes to what the compositor does: lumo_shell_client_send_frame of
-- compositor/src/shell/shell_protocol_client.c and lumo_shell_bridge_client_event of
-- compositor/src/shell/shell_bridge.c.
use lumo_compositor.Base.{
  ℕ, ◌<◌, ◌≤◌, ◌^◌, Bool, true, false, Option, some, List, [], ◌∷◌, ◌++◌, ◌≡◌, refl, sym, ap, ◌∙◌,
  arith, length, all, map,
}
use lumo_compositor.CString.{Bytes, decimal, is_digit}
use lumo_compositor.CString.Decimal.{all-is_digit-decimal, decimal-ne-nil, length-decimal}
use lumo_compositor.Frame.{
  Frame, request, IsFrame, IsValue, IsToken, is_text_char, max_value_length, max_name_length,
  max_key_length, frame_add_u32,
}
use lumo_compositor.Frame.Size.{frame_format_six_fields, frame_text}
use lumo_compositor.Stream.{feed, fresh}
use lumo_compositor.Stream.RoundTrip.{feed-frame_text}
use lumo_compositor.Bridge.Answers.{field, add_known}
use lumo_compositor.Bridge.Desk.{no_more, Doubles, with_ui}
use lumo_compositor.Bridge.Serving.{
  Connection, chunk, would_block, client_event, serve_kind, finish, handle_frames,
  client_handle_frame,
}
use lumo_compositor.Bridge.Writing.{SendAnswer, Written, write_all-prefix}
use lumo_compositor.Bridge.Windows.{handle_request}
use lumo_compositor.Bridge.{keep}
use lumo_compositor.Remote.Senders.{with_u32, no_wait, send_built, send_bytes, send_frame}

digits_text : (s : Bytes) → all is_digit s ≡ true → all is_text_char s ≡ true
digits_text [] h = refl
digits_text (c ∷ cs) h = ground (arith, digits_text cs)

pub decimal-IsValue : (n : ℕ) → n < 2 ^ 32 → IsValue max_value_length (decimal n)
decimal-IsValue n h = (
  digits_text (decimal n) (all-is_digit-decimal n),
  decimal-ne-nil n,
  omega (arith, length-decimal n h),
)

read_one :
    (f : Frame)
    → IsFrame f
    → feed fresh (frame_text f []) ≡ record { stream = fresh; frames = f ∷ []; accepted = true }
unfolding feed
read_one f w = feed-frame_text f [] w

-- A frame that went out whole is what a fresh stream reads of it.
pub send_frame-read :
    (connected : Bool) (answers : List SendAnswer) (f : Frame)
    → IsFrame f
    → length f.fields ≤ 6
    → (send_frame connected answers f).answer ≡ some true
    → feed fresh (send_frame connected answers f).out
      ≡ record { stream = fresh; frames = f ∷ []; accepted = true }
unfolding send_frame
send_frame-read false answers f w h done = cc
send_frame-read true answers f w h done =
    let e = frame_format_six_fields f w h in
    let whole = (write_all-prefix (map no_wait answers) (frame_text f [])).1 in
    ap (feed fresh) (
      ap (λ o. (send_bytes answers o).out) e
      ∙ whole (sym (ap (λ o. (send_bytes answers o).answer) e) ∙ done))
    ∙ read_one f w

abbrev pub start : Bytes → ℕ → Frame
start name id = record { kind = request; name = name; id = id; fields = [] }

pub add_u32_known :
    (f : Frame) (key : Bytes) (n : ℕ)
    → n < 2 ^ 32
    → IsToken max_key_length key
    → length f.fields < 80
    → frame_add_u32 f key n ≡ some (record f { fields = f.fields ++ field key (decimal n) ∷ [] })
unfolding frame_add_u32
add_u32_known f key n h k room =
    let added = add_known f key (decimal n) k (decimal-IsValue n h) room in
    ground (arith, length-decimal n h)

-- A connection whose stream reads these bytes as one request.
read_request :
    {D : Type 0} (doubles : Doubles D) (bytes : Bytes) (f : Frame) (c : Connection)
    → c.stream ≡ fresh
    → feed fresh bytes ≡ record { stream = fresh; frames = f ∷ []; accepted = true }
    → f.kind ≡ request
    → (handle_request doubles f c.turn.desk).ending ≡ no_more
    → (client_event doubles (chunk bytes ∷ would_block ∷ []) c).turn.desk
      ≡ (handle_request doubles f c.turn.desk).desk
unfolding client_event handle_frames client_handle_frame
read_request doubles bytes f c ready reads asked quiet =
    let r = handle_request doubles f c.turn.desk in
    rw ready (
      rw reads (
        ap (λ k. (serve_kind doubles k f c.turn).desk) asked
        ∙ ap (λ e. with_ui (finish e r.desk.shell.ui) r.desk) quiet))

-- A request that went out whole is handled.
pub sent_request :
    {D : Type 0} (doubles : Doubles D) (connected : Bool) (answers : List SendAnswer)
    (o : Option Frame) (f : Frame) (c : Connection)
    → o ≡ some f
    → IsFrame f
    → length f.fields ≤ 6
    → f.kind ≡ request
    → c.stream ≡ fresh
    → (handle_request doubles f c.turn.desk).ending ≡ no_more
    → (send_built connected answers o).answer ≡ some true
    → (client_event doubles
        (chunk (send_built connected answers o).out ∷ would_block ∷ [])
        c).turn.desk
      ≡ (handle_request doubles f c.turn.desk).desk
sent_request doubles connected answers o f c built w room asked ready quiet done =
    let sent = ap (send_built connected answers) built in
    read_request doubles _ f c ready
      (ap (λ (x : Written). feed fresh x.out) sent
        ∙ send_frame-read connected answers f w room
            (sym (ap (λ (x : Written). x.answer) sent) ∙ done))
      asked quiet

-- A request with one field.
abbrev pub one_field : Bytes → ℕ → Bytes → Bytes → Frame
one_field name id key value = record (start name id) { fields = field key value ∷ [] }

pub one_field-IsFrame :
    (name key value : Bytes) (id : ℕ)
    → id < 2 ^ 32
    → IsToken max_name_length name
    → IsToken max_key_length key
    → IsValue max_value_length value
    → IsFrame (one_field name id key value)
one_field-IsFrame name key value id h n k v = record {
  name_token = n;
  id_range = h;
  field_room = omega arith;
  each_field = (record { key_token = k; value_text = v }, tt);
}

pub one_added :
    (name key : Bytes) (id n : ℕ)
    → IsToken max_key_length key
    → n < 2 ^ 32
    → with_u32 key n (start name id) ≡ some (one_field name id key (decimal n))
one_added name key id n k h =
    ap (λ o. some (keep (start name id) o)) (add_u32_known (start name id) key n h k (omega arith))
