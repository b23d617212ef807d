-- ===== src/Frame/Text.antt =====
-- What the copies into a frame's buffers accept, and the names of the frame kinds.
use lumo_compositor.Base.{
  ℕ, true, ◌≡◌, refl, ◌↔◌, ◌<◌, ◌^◌, ◌++◌, some, [], ◌∷◌, arith, length, all, All-concat,
  length-append, leb, >>=-eq-some, Bool-cases, inl, inr,
}
use lumo_compositor.CString.{Bytes}
use lumo_compositor.CString.Equality.{not_nul}
use lumo_compositor.Frame.{
  FrameKind, event, request, response, error, Field, Frame, copy_token, copy_value, is_value_char,
  is_text_char, IsToken, IsValue, IsField, IsFrame, frame_kind_name, frame_kind_parse, frame_init,
  frame_add_field, max_fields, max_key_length, max_value_length, max_name_length,
}

pub copy_token-eq-some :
    (size : ℕ) (text : Bytes) {copied : Bytes}
    → copy_token size text ≡ some copied
    → (copied ≡ text) × IsToken size text
unfolding copy_token
copy_token-eq-some size [] h = ground arith
copy_token-eq-some size (c ∷ cs) h = ground arith

pub copy_token-IsToken :
    (size : ℕ) (text : Bytes) → IsToken size text → copy_token size text ≡ some text
unfolding copy_token
copy_token-IsToken size [] h = ground arith
copy_token-IsToken size (c ∷ cs) h = ground arith

all-is_text_char :
    (s : Bytes)
    → (all is_text_char s ≡ true) ↔ ((all not_nul s ≡ true) × (all is_value_char s ≡ true))
all-is_text_char [] = ground arith
all-is_text_char (c ∷ cs) = ground (arith, all-is_text_char cs)

pub copy_value-eq-some :
    (size : ℕ) (text : Bytes) {copied : Bytes}
    → all not_nul text ≡ true
    → copy_value size text ≡ some copied
    → (copied ≡ text) × IsValue size text
unfolding copy_value
copy_value-eq-some size [] n h = ground arith
copy_value-eq-some size (c ∷ cs) n h = ground (arith, all-is_text_char (c ∷ cs))

pub copy_value-IsValue :
    (size : ℕ) (text : Bytes) → IsValue size text → copy_value size text ≡ some text
unfolding copy_value
copy_value-IsValue size [] h = ground arith
copy_value-IsValue size (c ∷ cs) h = ground (arith, all-is_text_char (c ∷ cs))

-- The printed name of a frame kind is read back as that kind.
pub frame_kind_parse-frame_kind_name :
    (kind : FrameKind) → frame_kind_parse (frame_kind_name kind) ≡ some kind
unfolding frame_kind_parse frame_kind_name
frame_kind_parse-frame_kind_name event = refl
frame_kind_parse-frame_kind_name request = refl
frame_kind_parse-frame_kind_name response = refl
frame_kind_parse-frame_kind_name error = refl

pub frame_init-IsFrame :
    (kind : FrameKind) (name : Bytes) (id : ℕ) {f : Frame}
    → id < 2 ^ 32
    → frame_init kind name id ≡ some f
    → IsFrame f × (f ≡ record { kind = kind; name = name; id = id; fields = [] })
unfolding frame_init
frame_init-IsFrame kind name id r h =
    let (copied, c, e) = >>=-eq-some (copy_token max_name_length name) _ h in
    ground (arith, copy_token-eq-some max_name_length name c)

pub frame_add_field-eq-some :
    (f : Frame) (key value : Bytes) {g : Frame}
    → all not_nul value ≡ true
    → frame_add_field f key value ≡ some g
    → IsField (record { key = key; value = value })
      × (length f.fields < max_fields)
      × (g ≡ record f { fields = f.fields ++ record { key = key; value = value } ∷ [] })
unfolding frame_add_field
frame_add_field-eq-some f key value n h = elim (Bool-cases (leb max_fields (length f.fields))) [
  | inl full ↦ let none_some = rw full at h in cc
  | inr room ↦
      let (k, ck, rest) = >>=-eq-some (copy_token max_key_length key) _ (rw room at h) in
      let (v, cv, made) = >>=-eq-some (copy_value max_value_length value) _ rest in
      let (k_eq, k_token) = copy_token-eq-some max_key_length key ck in
      let (v_eq, v_value) = copy_value-eq-some max_value_length value n cv in
      (record { key_token = k_token; value_text = v_value }, ground arith, ground arith)
]

concat-IsFrame :
    (f : Frame) (x : Field)
    → IsFrame f
    → IsField x
    → length f.fields < max_fields
    → IsFrame (record f { fields = f.fields ++ x ∷ [] })
concat-IsFrame f x w i room = record {
  name_token = w.name_token;
  id_range = w.id_range;
  field_room = omega (arith, length-append f.fields (x ∷ []));
  each_field = All-concat IsField f.fields x w.each_field i;
}

-- A frame that is built field by field stays well formed.
pub frame_add_field-IsFrame :
    (f : Frame) (key value : Bytes) {g : Frame}
    → all not_nul value ≡ true
    → IsFrame f
    → frame_add_field f key value ≡ some g
    → IsFrame g
frame_add_field-IsFrame f key value n w h =
    let (i, room, e) = frame_add_field-eq-some f key value n h in
    rw e (concat-IsFrame f (record { key = key; value = value }) w i room)
