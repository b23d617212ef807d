-- ===== src/Stream/RoundTrip.antt =====
-- The parser reads back what frame_format writes.
use lumo_compositor.Base.{
  ℕ, ◌+◌, ◌<◌, ◌≤◌, Bool, true, false, not, ◌≡◌, ◌≢◌, refl, sym, ap, ◌∙◌, some, List, [], ◌∷◌, ◌++◌,
  arith, all, all-append, All, length, if◌then◌else◌, ◌==◌, append_assoc, append-nil, length-append,
}
use lumo_compositor.CString.{Bytes, codes, decimal, is_digit}
use lumo_compositor.CString.Equality.{not_nul, c_str-of_not_nul}
use lumo_compositor.CString.Decimal.{all-is_digit-decimal, length-decimal}
use lumo_compositor.Frame.{
  Field, Frame, IsFrame, IsField, is_token_char, is_text_char, frame_format, frame_kind_name,
  max_fields,
}
use lumo_compositor.Frame.Size.{fields_text, frame_text, frame_format-fits, length-frame_kind_name}
use lumo_compositor.Stream.{
  Stream, Outcome, also, carry_on, feed, step, push, end_line, end_parse, reset, fresh,
  line_buffer_size, parse_header_line, parse_field_line,
}
use lumo_compositor.Stream.Header.{
  header_line, field_line, parse_header_line-header_line, parse_field_line-field_line,
}

-- A byte that a line may hold: no NUL, no line end.
abbrev is_line_char : ℕ → Bool
is_line_char c = is_text_char c

step_text :
    (s : Stream) (c : ℕ) (rest : Bytes)
    → is_line_char c ≡ true
    → length s.line + 1 < line_buffer_size
    → feed s (c ∷ rest) ≡ feed (record s { line = s.line ++ c ∷ [] }) rest
unfolding feed step push
step_text s c rest h room = ground arith

feed_text :
    (s : Stream) (text rest : Bytes)
    → all is_line_char text ≡ true
    → length s.line + length text < line_buffer_size
    → feed s (text ++ rest) ≡ feed (record s { line = s.line ++ text }) rest
feed_text s [] rest h room = rw append-nil
feed_text s (c ∷ text) rest h room =
    let t = record s { line = s.line ++ c ∷ [] } in
    let grown = length-append s.line (c ∷ []) in
    step_text s c (text ++ rest) (ground arith) (omega arith)
    ∙ feed_text t text rest (ground arith) (omega arith)
    ∙ rw (append_assoc s.line (c ∷ []) text)

all-not_nul_of_line : (text : Bytes) → all is_line_char text ≡ true → all not_nul text ≡ true
all-not_nul_of_line [] h = refl
all-not_nul_of_line (c ∷ text) h = ground (arith, all-not_nul_of_line text)

all-is_line_char_of_token :
    (text : Bytes) → all is_token_char text ≡ true → all is_line_char text ≡ true
all-is_line_char_of_token [] h = refl
all-is_line_char_of_token (c ∷ text) h = ground (arith, all-is_line_char_of_token text)

all-is_line_char_of_digits :
    (text : Bytes) → all is_digit text ≡ true → all is_line_char text ≡ true
all-is_line_char_of_digits [] h = refl
all-is_line_char_of_digits (c ∷ text) h = ground (arith, all-is_line_char_of_digits text)

append-ne-nil : (xs ys : Bytes) → xs ≢ [] → xs ++ ys ≢ []
append-ne-nil [] ys h = absurd (h refl)
append-ne-nil (x ∷ xs) ys h = λ e. cc

-- What the end of a line does to the text in the buffer.
line_outcome : Stream → Bytes → Outcome
line_outcome s text =
    if not s.active
    then end_parse s (parse_header_line s text)
    else end_parse s (parse_field_line s text)

end_line-line_outcome :
    (s : Stream) → s.line ≢ [] → all is_line_char s.line ≡ true → end_line s ≡ line_outcome s s.line
unfolding end_line line_outcome
end_line-line_outcome s ne h =
    let text : (length s.line == 0) ≡ false = ground arith in
    rw (text, c_str-of_not_nul s.line (all-not_nul_of_line s.line h))

-- A whole line of text, from an empty line buffer.
feed_line :
    (active : Bool) (g : Frame) (text rest : Bytes)
    → all is_line_char text ≡ true
    → text ≢ []
    → length text < line_buffer_size
    → feed (record { active = active; line = []; frame = g }) (text ++ (b'\n' ∷ rest))
      ≡ carry_on
          (line_outcome (record { active = active; line = text; frame = g }) text)
          (λ t. feed t rest)
unfolding feed step
feed_line active g text rest h ne room =
    feed_text (record { active = active; line = []; frame = g }) text (b'\n' ∷ rest) h (omega arith)
    ∙ ap (λ (o : Outcome). carry_on o (λ t. feed t rest))
        (end_line-line_outcome (record { active = active; line = text; frame = g }) ne h)

all-is_line_char-header_line : (f : Frame) → IsFrame f → all is_line_char (header_line f) ≡ true
unfolding frame_kind_name
all-is_line_char-header_line f w = ground (
  arith,
  all-append is_line_char (frame_kind_name f.kind)
      (b' ' ∷ (f.name ++ (b' ' ∷ (codes "id=" ++ decimal f.id)))),
  all-append is_line_char f.name (b' ' ∷ (codes "id=" ++ decimal f.id)),
  all-is_line_char_of_token f.name w.name_token.0,
  all-is_line_char_of_digits (decimal f.id) (all-is_digit-decimal f.id),
)

length-header_line : (f : Frame) → IsFrame f → length (header_line f) < line_buffer_size
length-header_line f w = omega (
  arith,
  length-append (frame_kind_name f.kind)
      (b' ' ∷ (f.name ++ (b' ' ∷ (codes "id=" ++ decimal f.id)))),
  length-append f.name (b' ' ∷ (codes "id=" ++ decimal f.id)),
  w.name_token.2,
  length-frame_kind_name f.kind,
  length-decimal f.id w.id_range,
)

feed_header :
    (f : Frame) (rest : Bytes)
    → IsFrame f
    → feed fresh (header_line f ++ (b'\n' ∷ rest))
      ≡ feed (record { active = true; line = []; frame = record f { fields = [] } }) rest
unfolding line_outcome
feed_header f rest w =
    let s = record fresh { line = header_line f } in
    feed_line false fresh.frame (header_line f) rest (all-is_line_char-header_line f w) (λ e. cc)
      (length-header_line f w)
    ∙ rw (parse_header_line-header_line s f w)

feed_field :
    (g : Frame) (x : Field) (rest : Bytes)
    → IsField x
    → length g.fields < max_fields
    → feed (record { active = true; line = []; frame = g }) (field_line x ++ (b'\n' ∷ rest))
      ≡ feed
          (record { active = true; line = []; frame = record g { fields = g.fields ++ x ∷ [] } })
          rest
unfolding line_outcome
feed_field g x rest w room =
    let chars : all is_line_char (field_line x) ≡ true = ground (
      arith,
      all-append is_line_char x.key (b'=' ∷ x.value),
      all-is_line_char_of_token x.key w.key_token.0,
    ) in
    let some_text : field_line x ≢ [] = append-ne-nil x.key (b'=' ∷ x.value) w.key_token.1 in
    let short : length (field_line x) < line_buffer_size =
      omega (arith, length-append x.key (b'=' ∷ x.value), w.key_token.2, w.value_text.2) in
    let s : Stream = record { active = true; line = field_line x; frame = g } in
    feed_line true g (field_line x) rest chars some_text short
    ∙ rw (parse_field_line-field_line s x refl w room)

feed_blank :
    (g : Frame) (rest : Bytes)
    → feed (record { active = true; line = []; frame = g }) (b'\n' ∷ rest)
      ≡ also g (feed fresh rest)
unfolding feed step end_line reset
feed_blank g rest = refl

feed-fields_text :
    (g : Frame) (xs : List Field) (rest : Bytes)
    → All IsField xs
    → length g.fields + length xs ≤ max_fields
    → feed (record { active = true; line = []; frame = g }) (fields_text xs rest)
      ≡ also (record g { fields = g.fields ++ xs }) (feed fresh rest)
feed-fields_text g [] rest h room = feed_blank g rest ∙ rw append-nil
feed-fields_text g (x ∷ xs) rest h room =
    let line = append_assoc x.key (b'=' ∷ x.value) (b'\n' ∷ fields_text xs rest) in
    let grown = length-append g.fields (x ∷ []) in
    ap (feed _) (sym line)
    ∙ feed_field g x (fields_text xs rest) h.0 (omega arith)
    ∙ feed-fields_text (record g { fields = g.fields ++ x ∷ [] }) xs rest h.1 (omega arith)
    ∙ rw (append_assoc g.fields (x ∷ []) xs)

frame_text-split :
    (f : Frame) (rest : Bytes)
    → frame_text f rest ≡ header_line f ++ (b'\n' ∷ fields_text f.fields rest)
frame_text-split f rest = simp append_assoc

-- A well-formed frame's text, with any bytes behind it, is read as that frame and nothing else.
pub feed-frame_text :
    (f : Frame) (rest : Bytes)
    → IsFrame f
    → feed fresh (frame_text f rest) ≡ also f (feed fresh rest)
feed-frame_text f rest w =
    ap (feed fresh) (frame_text-split f rest)
    ∙ feed_header f (fields_text f.fields rest) w
    ∙ feed-fields_text (record f { fields = [] }) f.fields rest w.each_field
        (ground (arith, w.field_room))

-- What frame_format writes, whatever the buffer's size, comes out of the parser as the same frame.
pub feed-frame_format :
    (f : Frame) (size : ℕ) {text : Bytes}
    → IsFrame f
    → frame_format f size ≡ some text
    → feed fresh text ≡ record { stream = fresh; frames = f ∷ []; accepted = true }
unfolding feed
feed-frame_format f size {text} w h =
    let e : text ≡ frame_text f [] = ground (arith, frame_format-fits f size) in
    rw e (feed-frame_text f [] w)

abbrev pub frames_text : List Frame → Bytes
frames_text [] = []
frames_text (f ∷ fs) = frame_text f (frames_text fs)

-- Well-formed frames written one after the other come out in order, each once.
pub feed-frames_text :
    (fs : List Frame)
    → All IsFrame fs
    → feed fresh (frames_text fs) ≡ record { stream = fresh; frames = fs; accepted = true }
unfolding feed
feed-frames_text [] h = refl
feed-frames_text (f ∷ fs) h =
    feed-frame_text f (frames_text fs) h.0 ∙ ap (also f) (feed-frames_text fs h.1)
