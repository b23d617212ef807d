-- ===== src/Stream/Header.antt =====
-- What the line parsers make of a printed header and a printed field.
use lumo_compositor.Base.{
  ℕ, ◌<◌, ◌^◌, Bool, true, false, not, ◌≡◌, ◌≢◌, refl, some, [], ◌∷◌, ◌++◌, arith, all, length,
  ◌==◌,
}
use lumo_compositor.CString.{Bytes, codes, str_eq, decimal, is_digit}
use lumo_compositor.CString.Decimal.{all-is_digit-decimal}
use lumo_compositor.Frame.{
  FrameKind, event, request, response, error, Field, Frame, IsFrame, IsField, is_token_char,
  frame_init, frame_add_field, frame_kind_name, max_fields, max_key_length, max_value_length,
  max_name_length,
}
use lumo_compositor.Frame.Text.{
  frame_kind_parse-frame_kind_name, copy_token-IsToken, copy_value-IsValue,
}
use lumo_compositor.Frame.Fields.{uint32_of_text-decimal}
use lumo_compositor.Stream.{
  Stream, skip_spaces, token, after_token, strip_id, parse_options, options_fuel, parse_header_line,
  parse_field_line, split_at_equals, magic_at, kind_at, name_at, options_at,
}

-- A word has bytes, none of them a space.
abbrev not_blank : ℕ → Bool
not_blank c = not (c == b' ')

abbrev IsWord : Bytes → Type 0
IsWord w = (all not_blank w ≡ true) × (w ≢ [])

skip_spaces-IsWord : (w rest : Bytes) → IsWord w → skip_spaces (w ++ rest) ≡ w ++ rest
unfolding skip_spaces
skip_spaces-IsWord [] rest h = absurd (h.1 refl)
skip_spaces-IsWord (c ∷ w) rest h = ground arith

token-append : (w rest : Bytes) → all not_blank w ≡ true → token (w ++ (b' ' ∷ rest)) ≡ w
unfolding token
token-append [] rest h = refl
token-append (c ∷ w) rest h = ground (arith, token-append w rest)

after_token-append :
    (w rest : Bytes) → all not_blank w ≡ true → after_token (w ++ (b' ' ∷ rest)) ≡ rest
unfolding after_token
after_token-append [] rest h = refl
after_token-append (c ∷ w) rest h = ground (arith, after_token-append w rest)

token_last : (w : Bytes) → all not_blank w ≡ true → token w ≡ w
unfolding token
token_last [] h = refl
token_last (c ∷ w) h = ground (arith, token_last w)

after_token_last : (w : Bytes) → all not_blank w ≡ true → after_token w ≡ []
unfolding after_token
after_token_last [] h = refl
after_token_last (c ∷ w) h = ground (arith, after_token_last w)

all-not_blank_of_token : (w : Bytes) → all is_token_char w ≡ true → all not_blank w ≡ true
all-not_blank_of_token [] h = refl
all-not_blank_of_token (c ∷ w) h = ground (arith, all-not_blank_of_token w)

all-not_blank_of_digits : (w : Bytes) → all is_digit w ≡ true → all not_blank w ≡ true
all-not_blank_of_digits [] h = refl
all-not_blank_of_digits (c ∷ w) h = ground (arith, all-not_blank_of_digits w)

frame_kind_name-IsWord : (kind : FrameKind) → IsWord (frame_kind_name kind)
unfolding frame_kind_name
frame_kind_name-IsWord event = ground arith
frame_kind_name-IsWord request = ground arith
frame_kind_name-IsWord response = ground arith
frame_kind_name-IsWord error = ground arith

parse_options-id :
    (id : ℕ)
    → id < 2 ^ 32
    → parse_options (options_fuel (codes "id=" ++ decimal id)) (codes "id=" ++ decimal id) 0
      ≡ some id
unfolding parse_options strip_id skip_spaces str_eq
parse_options-id id h =
    let w = all-not_blank_of_digits (decimal id) (all-is_digit-decimal id) in
    let word = codes "id=" ++ decimal id in
    rw (token_last word w, after_token_last word w) (rw (uint32_of_text-decimal id h))

str_eq-nil : (w : Bytes) → w ≢ [] → str_eq w [] ≡ false
unfolding str_eq
str_eq-nil [] h = absurd (h refl)
str_eq-nil (c ∷ w) h = refl

-- The header line of a frame.
abbrev pub header_line : Frame → Bytes
header_line f =
    codes "LUMO/1 "
    ++ (frame_kind_name f.kind ++ (b' ' ∷ (f.name ++ (b' ' ∷ (codes "id=" ++ decimal f.id)))))

pub parse_header_line-header_line :
    (s : Stream) (f : Frame)
    → IsFrame f
    → parse_header_line s (header_line f)
      ≡ some (record s { active = true; frame = record f { fields = [] } })
unfolding parse_header_line frame_init
parse_header_line-header_line s f w =
    rw
      (magic, kind, frame_kind_parse-frame_kind_name f.kind, name, str_eq-nil f.name w.name_token.1)
      (rw (
        copy_token-IsToken max_name_length f.name w.name_token,
        options_e,
        parse_options-id f.id w.id_range,
      ))
  where
    options : Bytes
    options = codes "id=" ++ decimal f.id

    kind_word : IsWord (frame_kind_name f.kind)
    kind_word = frame_kind_name-IsWord f.kind

    name_word : IsWord f.name
    name_word = (all-not_blank_of_token f.name w.name_token.0, w.name_token.1)

    line : Bytes
    line = header_line f

    kind_e : kind_at line ≡ frame_kind_name f.kind ++ (b' ' ∷ (f.name ++ (b' ' ∷ options)))
    kind_e =
        unfold skip_spaces after_token in skip_spaces-IsWord (frame_kind_name f.kind) _ kind_word

    name_e : name_at line ≡ f.name ++ (b' ' ∷ options)
    name_e =
        rw
          (
            kind_e,
            after_token-append (frame_kind_name f.kind) (f.name ++ (b' ' ∷ options)) kind_word.0,
          )
          (skip_spaces-IsWord f.name (b' ' ∷ options) name_word)

    options_e : options_at line ≡ options
    options_e =
        rw (name_e, after_token-append f.name options name_word.0) (unfold skip_spaces in refl)

    magic : str_eq (token (magic_at line)) (codes "LUMO/1") ≡ true
    magic = unfold skip_spaces token str_eq in refl

    kind : token (kind_at line) ≡ frame_kind_name f.kind
    kind = rw kind_e (token-append (frame_kind_name f.kind) _ kind_word.0)

    name : token (name_at line) ≡ f.name
    name = rw name_e (token-append f.name options name_word.0)

split_at_equals-append :
    (key value : Bytes)
    → all is_token_char key ≡ true
    → split_at_equals (key ++ (b'=' ∷ value)) ≡ some (record { before = key; behind = value })
unfolding split_at_equals
split_at_equals-append [] value h = refl
split_at_equals-append (c ∷ key) value h = ground (arith, split_at_equals-append key value)

abbrev pub field_line : Field → Bytes
field_line x = x.key ++ (b'=' ∷ x.value)

pub parse_field_line-field_line :
    (s : Stream) (x : Field)
    → s.active ≡ true
    → IsField x
    → length s.frame.fields < max_fields
    → parse_field_line s (field_line x)
      ≡ some (record s { frame = record s.frame { fields = s.frame.fields ++ x ∷ [] } })
unfolding parse_field_line frame_add_field
parse_field_line-field_line s x a w room = ground (
  arith,
  split_at_equals-append x.key x.value w.key_token.0,
  str_eq-nil x.key w.key_token.1,
  str_eq-nil x.value w.value_text.1,
  copy_token-IsToken max_key_length x.key w.key_token,
  copy_value-IsValue max_value_length x.value w.value_text,
)
