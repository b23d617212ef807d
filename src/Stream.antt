-- ===== src/Stream.antt =====
-- The parser of the shell protocol's byte stream, compositor/src/protocol/shell_protocol.c. A frame
-- handed to the callback is an item of the list that `feed` returns; the callback does not touch the
-- stream. `line` holds the first `line_used` bytes of the line buffer.
pub mod Invariant
pub mod Chunks
pub mod Header
pub mod Fuel
pub mod RoundTrip
use lumo_compositor.Base.{
  ℕ, zero, suc, ◌+◌, ◌<◌, Bool, true, false, not, ◌&&◌, ◌||◌, ◌≡◌, Option, none, some, List, [],
  ◌∷◌, ◌++◌, leb, ltb, ◌==◌, if◌then◌else◌, length, ◌>>=◌, ◌>>◌, require,
}
use lumo_compositor.CString.{Bytes, codes, c_str, str_eq, strtoul}
use lumo_compositor.Frame.{
  FrameKind, Frame, zero_frame, frame_kind_parse, frame_init, frame_add_field, max_key_length,
  uint32_of_text, IsFrame,
}

abbrev pub line_buffer_size : ℕ
line_buffer_size = 512

pub record Stream : Type 0 where
  pub active : Bool
  pub line : Bytes
  pub frame : Frame

unfoldable pub reset : Stream → Stream
reset s = record { active = false; line = []; frame = zero_frame }

-- What stream_init leaves.
abbrev pub fresh : Stream
fresh = record { active = false; line = []; frame = zero_frame }

-- while (*cursor == ' ') cursor++;
unfoldable pub skip_spaces : Bytes → Bytes
skip_spaces [] = []
skip_spaces (c ∷ cs) = if c == b' ' then skip_spaces cs else c ∷ cs

-- The bytes up to the next space or the end.
unfoldable pub token : Bytes → Bytes
token [] = []
token (c ∷ cs) = if c == b' ' then [] else c ∷ token cs

-- The cursor behind the token and the one space that ends it.
unfoldable pub after_token : Bytes → Bytes
after_token [] = []
after_token (c ∷ cs) = if c == b' ' then cs else after_token cs

-- strncmp(token, "id=", 3) == 0, and token + 3
unfoldable pub strip_id : Bytes → Option Bytes
strip_id (a ∷ b ∷ c ∷ rest) = if a == b'i' && b == b'd' && c == b'=' then some rest else none
strip_id _ = none

-- The loop over what follows the name, on fuel above the bytes left: the last id given, 0 if none.
unfoldable pub parse_options : ℕ → Bytes → ℕ → Option ℕ
parse_options zero cursor id = none
parse_options (suc f) [] id = some id
parse_options (suc f) (c ∷ cs) id =
    let word = token (c ∷ cs) in
    let next = skip_spaces (after_token (c ∷ cs)) in
    let skipped = parse_options f next id in
    let reading = (do
      text ← strip_id word
      value ← uint32_of_text text
      parse_options f next value) in
    if str_eq word [] then skipped else reading

abbrev pub options_fuel : Bytes → ℕ
options_fuel cursor = suc (length cursor)

-- Where the cursor stands at the magic word, the kind, the name and the options.
abbrev pub next_word : Bytes → Bytes
next_word cursor = skip_spaces (after_token cursor)

abbrev pub magic_at : Bytes → Bytes
magic_at line = skip_spaces line

abbrev pub kind_at : Bytes → Bytes
kind_at line = next_word (magic_at line)

abbrev pub name_at : Bytes → Bytes
name_at line = next_word (kind_at line)

abbrev pub options_at : Bytes → Bytes
options_at line = next_word (name_at line)

unfoldable pub parse_header_line : Stream → Bytes → Option Stream
parse_header_line s line = do
  require (str_eq (token (magic_at line)) (codes "LUMO/1"))
  kind ← frame_kind_parse (token (kind_at line))
  require (not (str_eq (token (name_at line)) []))
  frame ← frame_init kind (token (name_at line)) 0
  id ← parse_options (options_fuel (options_at line)) (options_at line) 0
  some (record s { active = true; frame = record frame { id = id } })

-- strchr(line, '='): the key in front of the first '=' and the value behind it.
pub record Split : Type 0 where
  pub before : Bytes
  pub behind : Bytes

abbrev before_cons : ℕ → Split → Split
before_cons c s = record s { before = c ∷ s.before }

unfoldable pub split_at_equals : Bytes → Option Split
split_at_equals [] = none
split_at_equals (c ∷ cs) =
    let later = (do s ← split_at_equals cs; some (before_cons c s)) in
    if c == b'=' then some (record { before = []; behind = cs }) else later

unfoldable pub parse_field_line : Stream → Bytes → Option Stream
unfolding split_at_equals
parse_field_line s line = do
  require s.active
  parts ← split_at_equals line
  require (not (str_eq parts.before []) && not (str_eq parts.behind []))
  require (ltb (length parts.before) max_key_length)
  frame ← frame_add_field s.frame parts.before parts.behind
  some (record s { frame = frame })

-- What one byte does: the stream goes on, it hands a frame over, or it is refused.
pub data Outcome : Type 0 where
  go_on : Stream → Outcome
  deliver : Frame → Stream → Outcome
  reject : Stream → Outcome

-- On a parsed line the line buffer is cleared, on a bad one the stream is reset.
abbrev pub end_parse : Stream → Option Stream → Outcome
end_parse s none = reject (reset s)
end_parse s (some t) = go_on (record t { line = [] })

unfoldable pub end_line : Stream → Outcome
end_line s =
    if length s.line == 0
    then (if s.active then deliver s.frame (reset s) else go_on s)
    else if not s.active
    then end_parse s (parse_header_line s (c_str s.line))
    else end_parse s (parse_field_line s (c_str s.line))

unfoldable pub push : Stream → ℕ → Outcome
push s ch =
    if leb line_buffer_size (length s.line + 1)
    then reject (reset s)
    else go_on (record s { line = s.line ++ ch ∷ [] })

unfoldable pub step : Stream → ℕ → Outcome
step s ch = if ch == b'\r' then go_on s else if not (ch == b'\n') then push s ch else end_line s

pub record Fed : Type 0 where
  pub stream : Stream
  pub frames : List Frame
  pub accepted : Bool

abbrev pub also : Frame → Fed → Fed
also f r = record r { frames = f ∷ r.frames }

abbrev pub carry_on : Outcome → (Stream → Fed) → Fed
carry_on (go_on t) k = k t
carry_on (deliver f t) k = also f (k t)
carry_on (reject t) k = record { stream = t; frames = []; accepted = false }

-- stream_feed
unfoldable pub feed : Stream → Bytes → Fed
feed s [] = record { stream = s; frames = []; accepted = true }
feed s (c ∷ cs) = carry_on (step s c) (λ t. feed t cs)

-- Between two bytes the line fits the buffer, and an open frame is well formed.
pub record IsStream (s : Stream) : Type 0 where
  pub line_room : length s.line < line_buffer_size
  pub open_frame : s.active ≡ true → IsFrame s.frame
