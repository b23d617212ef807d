-- ===== src/Frame/Size.antt =====
-- frame_format against a description of the text: it succeeds exactly when the text and its NUL fit.
use mathlib.Core.Path.{fun_ext}
use lumo_compositor.Base.{
  ℕ, ◌+◌, ◌*◌, ◌≤◌, ◌<◌, false, ◌≡◌, refl, ap, ◌∙◌, Option, none, some, List, [], ◌∷◌, ◌++◌, arith,
  All, length, length-append, ◌>>=◌, if◌then◌else◌, ◌==◌, ltb, lt→ltb, Bool-cases, inl, inr,
  append_assoc,
}
use lumo_compositor.CString.{Bytes, codes, decimal}
use lumo_compositor.CString.Decimal.{length-decimal}
use lumo_compositor.Frame.{
  FrameKind, event, request, response, error, Field, Frame, IsFrame, IsField, header_text,
  field_text, append, append_fields, frame_format, frame_kind_name,
}

-- The fields' lines and the empty line behind them, in front of `rest`.
abbrev pub fields_text : List Field → Bytes → Bytes
fields_text [] rest = b'\n' ∷ rest
fields_text (f ∷ fs) rest = f.key ++ (b'=' ∷ (f.value ++ (b'\n' ∷ fields_text fs rest)))

-- The whole frame in front of `rest`.
abbrev pub frame_text : Frame → Bytes → Bytes
frame_text f rest =
    codes "LUMO/1 "
    ++ (frame_kind_name f.kind
        ++ (b' '
            ∷ (f.name ++ (codes " id=" ++ (decimal f.id ++ (b'\n' ∷ fields_text f.fields rest))))))

-- A text that fits a buffer of `size` bytes with its NUL.
abbrev pub fits : ℕ → Bytes → Option Bytes
fits size text = if ltb (length text) size then some text else none

append-fits :
    (size : ℕ) (used written : Bytes) → append size used written ≡ fits size (used ++ written)
unfolding append
append-fits size used written = ground (arith, length-append used written)

-- What fits at the end fits on the way.
fits_then :
    (size : ℕ) (text rest : Bytes)
    → (fits size text >>= λ more. fits size (more ++ rest)) ≡ fits size (text ++ rest)
fits_then size text rest = ground (arith, length-append text rest)

>>=_assoc :
    {A B C : Type 0} (m : Option A) (f : A → Option B) (g : B → Option C)
    → (m >>= f >>= g) ≡ (m >>= λ a. f a >>= g)
>>=_assoc none f g = refl
>>=_assoc (some a) f g = refl

-- The tail of frame_format: the fields and the empty line.
close : ℕ → List Field → Bytes → Option Bytes
close size fs used = append_fields size used fs >>= λ more. append size more (codes "\n")

field_text-append :
    (used : Bytes) (f : Field) (fs : List Field)
    → (used ++ field_text f) ++ fields_text fs [] ≡ used ++ fields_text (f ∷ fs) []
field_text-append used f fs = simp append_assoc

close-fits :
    (size : ℕ) (fs : List Field) (used : Bytes)
    → close size fs used ≡ fits size (used ++ fields_text fs [])
unfolding close append_fields
close-fits size [] used = append-fits size used (codes "\n")
close-fits size (f ∷ fs) used =
    >>=_assoc (append size used (field_text f)) (λ more. append_fields size more fs) _
    ∙ rw (append-fits size used (field_text f), fun_ext (close-fits size fs))
        (fits_then size (used ++ field_text f) (fields_text fs [])
          ∙ ap (fits size) (field_text-append used f fs))

frame_text-split : (f : Frame) → header_text f ++ fields_text f.fields [] ≡ frame_text f []
frame_text-split f = simp append_assoc

frame_format-close :
    (f : Frame) (size : ℕ)
    → (size == 0) ≡ false
    → frame_format f size ≡ (append size [] (header_text f) >>= close size f.fields)
unfolding frame_format close
frame_format-close f size room = rw room

-- frame_format writes the described text exactly when it fits the buffer with a NUL behind it, and
-- returns 0 otherwise.
pub frame_format-fits : (f : Frame) (size : ℕ) → frame_format f size ≡ fits size (frame_text f [])
frame_format-fits f size = elim (Bool-cases (size == 0)) [
  | inl zero_size ↦ unfold frame_format in ground arith
  | inr room ↦
      frame_format-close f size room
      ∙ rw (append-fits size [] (header_text f), fun_ext (close-fits size f.fields))
          (fits_then size (header_text f) (fields_text f.fields [])
            ∙ ap (fits size) (frame_text-split f))
]

length-fields_text :
    (fs : List Field) → All IsField fs → length (fields_text fs []) ≤ 160 * length fs + 1
length-fields_text [] h = omega arith
length-fields_text (f ∷ fs) h = omega (
  arith,
  length-fields_text fs h.1,
  length-append f.key (b'=' ∷ (f.value ++ (b'\n' ∷ fields_text fs []))),
  length-append f.value (b'\n' ∷ fields_text fs []),
  h.0.key_token.2,
  h.0.value_text.2,
)

pub length-frame_kind_name : (kind : FrameKind) → length (frame_kind_name kind) ≤ 8
unfolding frame_kind_name
length-frame_kind_name event = omega arith
length-frame_kind_name request = omega arith
length-frame_kind_name response = omega arith
length-frame_kind_name error = omega arith

-- The text of a well-formed frame takes at most 160 bytes a field and 63 more.
pub length-frame_text :
    (f : Frame) → IsFrame f → length (frame_text f []) ≤ 160 * length f.fields + 63
length-frame_text f w = omega (
  arith,
  w.name_token.2,
  length-frame_kind_name f.kind,
  length-decimal f.id w.id_range,
  length-fields_text f.fields w.each_field,
  length-append (frame_kind_name f.kind)
      (b' ' ∷ (f.name ++ (codes " id=" ++ (decimal f.id ++ (b'\n' ∷ fields_text f.fields []))))),
  length-append f.name (codes " id=" ++ (decimal f.id ++ (b'\n' ∷ fields_text f.fields []))),
  length-append (decimal f.id) (b'\n' ∷ fields_text f.fields []),
)

-- A well-formed frame of at most six fields always fits the 1024 bytes that the bridge formats into.
pub frame_format_six_fields :
    (f : Frame) → IsFrame f → length f.fields ≤ 6 → frame_format f 1024 ≡ some (frame_text f [])
frame_format_six_fields f w h =
    let room : length (frame_text f []) < 1024 = omega (arith, length-frame_text f w) in
    frame_format-fits f 1024 ∙ rw (lt→ltb _ _ room)
