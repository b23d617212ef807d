-- ===== src/Bridge/Answers.antt =====
-- Every request is answered once (compositor/src/shell/shell_bridge.c).
use lumo_compositor.Base.{
  ℕ, ◌≤◌, ◌<◌, Bool, true, false, ◌&&◌, some, List, [], ◌∷◌, ◌++◌, ◌≡◌, refl, arith, length, all,
  All, ltb, ◌>>=◌,
}
use lumo_compositor.CString.{Bytes, codes}
use lumo_compositor.Frame.{
  Frame, FrameKind, Field, response, error, frame_init, frame_add_field, is_text_char, IsToken,
  IsValue, IsFrame, IsField, max_value_length, max_key_length, max_name_length,
}
use lumo_compositor.Frame.Text.{copy_token-IsToken, copy_value-IsValue}
use lumo_compositor.Frame.Size.{frame_text, frame_format_six_fields, length-frame_text}
use lumo_compositor.Bridge.{string_or}
use lumo_compositor.Bridge.Desk.{Result, add_result, result_frame, sent_text}

abbrev pub is_value : Bytes → Bool
is_value [] = false
is_value (c ∷ cs) = all is_text_char (c ∷ cs) && ltb (length (c ∷ cs)) 128

pub IsValue-of : (t : Bytes) → is_value t ≡ true → IsValue max_value_length t
IsValue-of [] h = cc
IsValue-of (c ∷ cs) h = ground arith

-- The code and the reason fit a field.
abbrev pub IsResult : Result → Type 0
IsResult r =
    (is_value (string_or r.code (codes "error")) ≡ true)
    × (is_value (string_or r.reason (codes "unknown")) ≡ true)

abbrev pub answer_kind : Bool → FrameKind
answer_kind true = response
answer_kind false = error

abbrev pub field : Bytes → Bytes → Field
field key value = record { key = key; value = value }

abbrev pub answer_fields : Bool → Result → List Field
answer_fields true r = field (codes "status") (codes "ok") ∷ []
answer_fields false r =
    field (codes "status") (codes "error")
    ∷ field (codes "code") (string_or r.code (codes "error"))
    ∷ field (codes "reason") (string_or r.reason (codes "unknown"))
    ∷ []

-- The answer to a request: its name and id, and the status, with code and reason behind an error.
abbrev pub answer_frame : Frame → Result → Frame
answer_frame f r = record {
  kind = answer_kind r.success;
  name = f.name;
  id = f.id;
  fields = answer_fields r.success r;
}

pub add_known :
    (f : Frame) (key value : Bytes)
    → IsToken max_key_length key
    → IsValue max_value_length value
    → length f.fields < 80
    → frame_add_field f key value ≡ some (record f { fields = f.fields ++ field key value ∷ [] })
unfolding frame_add_field
add_known f key value k v room =
    ground
      (arith, copy_token-IsToken max_key_length key k, copy_value-IsValue max_value_length value v)

init_known :
    (kind : FrameKind) (f : Frame)
    → IsFrame f
    → frame_init kind f.name f.id
      ≡ some (record { kind = kind; name = f.name; id = f.id; fields = [] })
unfolding frame_init
init_known kind f w = ground (arith, copy_token-IsToken max_name_length f.name w.name_token)

add_result_known :
    (b : Bool) (r : Result) (kind : FrameKind) (name : Bytes) (id : ℕ)
    → IsResult r
    → add_result b r (record { kind = kind; name = name; id = id; fields = [] })
      ≡ some (record { kind = kind; name = name; id = id; fields = answer_fields b r })
add_result_known true r kind name id w =
    add_known _ (codes "status") (codes "ok") (refl, λ h. cc, omega arith)
      (IsValue-of (codes "ok") refl) (omega arith)
add_result_known false r kind name id w =
    let status =
      add_known (record { kind = kind; name = name; id = id; fields = [] }) (codes "status")
        (codes "error") (refl, λ h. cc, omega arith) (IsValue-of (codes "error") refl)
        (omega arith) in
    let coded =
      add_known
        (record {
          kind = kind;
          name = name;
          id = id;
          fields = field (codes "status") (codes "error") ∷ [];
        })
        (codes "code") (string_or r.code (codes "error")) (refl, λ h. cc, omega arith)
        (IsValue-of _ w.0) (omega arith) in
    rw status (
      rw coded (
        add_known _ (codes "reason") (string_or r.reason (codes "unknown"))
          (refl, λ h. cc, omega arith) (IsValue-of _ w.1) (omega arith)))

pub result_frame-answer_frame :
    (f : Frame) (r : Result) → IsFrame f → IsResult r → result_frame f r ≡ some (answer_frame f r)
unfolding result_frame
result_frame-answer_frame f r w h = go r.success
  where
    go :
        (b : Bool)
        → (frame_init (elim b [ true ↦ response | false ↦ error ]) f.name f.id >>= add_result b r)
          ≡ some (record {
            kind = answer_kind b;
            name = f.name;
            id = f.id;
            fields = answer_fields b r;
          })
    go true = rw (init_known response f w) (add_result_known true r response f.name f.id h)
    go false = rw (init_known error f w) (add_result_known false r error f.name f.id h)

fields-IsField : (b : Bool) (r : Result) → IsResult r → All IsField (answer_fields b r)
fields-IsField true r h = (
  record { key_token = (refl, λ e. cc, omega arith); value_text = IsValue-of (codes "ok") refl },
  tt,
)
fields-IsField false r h =
    let status : IsField (field (codes "status") (codes "error")) = record {
      key_token = (refl, λ e. cc, omega arith);
      value_text = IsValue-of (codes "error") refl;
    } in
    let code : IsField (field (codes "code") (string_or r.code (codes "error"))) = record {
      key_token = (refl, λ e. cc, omega arith);
      value_text = IsValue-of _ h.0;
    } in
    let reason : IsField (field (codes "reason") (string_or r.reason (codes "unknown"))) = record {
      key_token = (refl, λ e. cc, omega arith);
      value_text = IsValue-of _ h.1;
    } in
    (status, (code, (reason, tt)))

length-answer_fields : (b : Bool) (r : Result) → length (answer_fields b r) ≤ 3
length-answer_fields true r = omega arith
length-answer_fields false r = omega arith

pub answer_frame-IsFrame :
    (f : Frame) (r : Result) → IsFrame f → IsResult r → IsFrame (answer_frame f r)
answer_frame-IsFrame f r w h = record {
  name_token = w.name_token;
  id_range = w.id_range;
  field_room = omega (arith, length-answer_fields r.success r);
  each_field = fields-IsField r.success r h;
}

-- The bytes of an answer.
pub sent_text-answer :
    (f : Frame) (r : Result)
    → IsFrame f
    → IsResult r
    → sent_text (result_frame f r) ≡ some (frame_text (answer_frame f r) [])
unfolding sent_text
sent_text-answer f r w h = rw (result_frame-answer_frame f r w h) (
    frame_format_six_fields (answer_frame f r) (answer_frame-IsFrame f r w h)
      (omega (arith, length-answer_fields r.success r)))

pub length-answer_text :
    (f : Frame) (r : Result)
    → IsFrame f
    → IsResult r
    → length (frame_text (answer_frame f r) []) < 1024
length-answer_text f r w h = omega (
  arith,
  length-frame_text (answer_frame f r) (answer_frame-IsFrame f r w h),
  length-answer_fields r.success r,
)
