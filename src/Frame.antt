-- ===== src/Frame.antt =====
-- Frames of the shell protocol, compositor/src/protocol/shell_protocol.c: building a frame, reading
-- its fields and writing it as text. Strings are given, never NULL. `fields` holds the first
-- `field_count` slots of the array; what a refused call leaves in the next slot is never read.
pub mod Text
pub mod Fields
pub mod Size
use lumo_compositor.Base.{
  ℕ, ◌+◌, ◌-◌, ◌≤◌, ◌<◌, Bool, true, false, not, ◌&&◌, ◌||◌, ◌≡◌, ◌≢◌, Option, none, some, List, [],
  ◌∷◌, ◌++◌, ltb, leb, ◌==◌, if◌then◌else◌, length, all, All, ◌>>=◌,
}
use lumo_compositor.CString.{Bytes, codes, str_eq, decimal, Strtoul, strtoul, uint32_mod}

pub data FrameKind : Type 0 where
  event request response error : FrameKind

pub record Field : Type 0 where
  pub key : Bytes
  pub value : Bytes

pub record Frame : Type 0 where
  pub kind : FrameKind
  pub name : Bytes
  pub id : ℕ
  pub fields : List Field

abbrev pub max_name_length : ℕ
max_name_length = 32

abbrev pub max_key_length : ℕ
max_key_length = 32

abbrev pub max_value_length : ℕ
max_value_length = 128

abbrev pub max_fields : ℕ
max_fields = 80

abbrev pub is_token_char : ℕ → Bool
is_token_char c = not (c == 0 || c == b' ' || c == b'\t' || c == b'\n' || c == b'\r' || c == b'=')

-- The test in the loop of copy_value.
abbrev pub is_value_char : ℕ → Bool
is_value_char c = not (c == b'\n' || c == b'\r')

-- What copy_token and copy_value share: not empty, every byte passes, and it fits with its NUL.
copy_text : (ℕ → Bool) → ℕ → Bytes → Option Bytes
copy_text ok size [] = none
copy_text ok size (c ∷ cs) =
    if not (all ok (c ∷ cs))
    then none
    else if ltb size (length (c ∷ cs) + 1)
    then none
    else some (c ∷ cs)

unfoldable pub copy_token : ℕ → Bytes → Option Bytes
unfolding copy_text
copy_token size value = copy_text is_token_char size value

unfoldable pub copy_value : ℕ → Bytes → Option Bytes
unfolding copy_text
copy_value size value = copy_text is_value_char size value

unfoldable pub frame_kind_name : FrameKind → Bytes
frame_kind_name request = codes "request"
frame_kind_name response = codes "response"
frame_kind_name error = codes "error"
frame_kind_name event = codes "event"

unfoldable pub frame_kind_parse : Bytes → Option FrameKind
unfolding str_eq
frame_kind_parse value =
    if str_eq value (codes "event")
    then some event
    else if str_eq value (codes "request")
    then some request
    else if str_eq value (codes "response")
    then some response
    else if str_eq value (codes "error")
    then some error
    else none

-- memset to zero.
abbrev pub zero_frame : Frame
zero_frame = record { kind = event; name = []; id = 0; fields = [] }

unfoldable pub frame_init : FrameKind → Bytes → ℕ → Option Frame
frame_init kind name id = do
  copied ← copy_token max_name_length name
  some (record zero_frame { kind = kind; id = id; name = copied })

unfoldable pub frame_add_field : Frame → Bytes → Bytes → Option Frame
frame_add_field frame key value = if leb max_fields (length frame.fields) then none else do
  k ← copy_token max_key_length key
  v ← copy_value max_value_length value
  some (record frame { fields = frame.fields ++ record { key = k; value = v } ∷ [] })

unfoldable pub frame_add_bool : Frame → Bytes → Bool → Option Frame
frame_add_bool frame key value = frame_add_field frame key (if value then codes "1" else codes "0")

-- snprintf into 32 bytes: a uint32_t has at most ten digits.
unfoldable pub frame_add_u32 : Frame → Bytes → ℕ → Option Frame
frame_add_u32 frame key value =
    if leb 32 (length (decimal value)) then none else frame_add_field frame key (decimal value)

unfoldable pub frame_add_string : Frame → Bytes → Bytes → Option Frame
frame_add_string frame key value = frame_add_field frame key value

unfoldable pub find_field : Bytes → List Field → Option Bytes
find_field key [] = none
find_field key (f ∷ fs) = if str_eq f.key key then some f.value else find_field key fs

unfoldable pub frame_get : Frame → Bytes → Option Bytes
unfolding find_field
frame_get frame key = find_field key frame.fields

unfoldable pub bool_of_text : Bytes → Option Bool
unfolding str_eq
bool_of_text value =
    if str_eq value (codes "1") || str_eq value (codes "true")
    then some true
    else if str_eq value (codes "0") || str_eq value (codes "false")
    then some false
    else none

unfoldable pub frame_get_bool : Frame → Bytes → Option Bool
frame_get_bool frame key = do value ← frame_get frame key; bool_of_text value

-- errno == 0 && end != start && *end == '\0' && parsed <= UINT32_MAX
unfoldable pub uint32_of_strtoul : Strtoul → Option ℕ
uint32_of_strtoul r =
    if r.out_of_range || not r.consumed || not (str_eq r.rest []) || leb uint32_mod r.value
    then none
    else some r.value

unfoldable pub uint32_of_text : Bytes → Option ℕ
unfolding uint32_of_strtoul
uint32_of_text text = uint32_of_strtoul (strtoul text)

unfoldable pub frame_get_u32 : Frame → Bytes → Option ℕ
frame_get_u32 frame key = do value ← frame_get frame key; uint32_of_text value

-- One vsnprintf into what is left of the buffer, behind the bytes used so far.
unfoldable pub append : ℕ → Bytes → Bytes → Option Bytes
append size used written =
    if leb size (length used)
    then none
    else if leb (size - length used) (length written)
    then none
    else some (used ++ written)

abbrev pub header_text : Frame → Bytes
header_text frame =
    codes "LUMO/1 "
    ++ (frame_kind_name frame.kind
        ++ (b' ' ∷ (frame.name ++ (codes " id=" ++ (decimal frame.id ++ b'\n' ∷ [])))))

abbrev pub field_text : Field → Bytes
field_text f = f.key ++ (b'=' ∷ (f.value ++ b'\n' ∷ []))

unfoldable pub append_fields : ℕ → Bytes → List Field → Option Bytes
append_fields size used [] = some used
append_fields size used (f ∷ fs) = do
  more ← append size used (field_text f)
  append_fields size more fs

-- The bytes written; `none` where the source returns 0.
unfoldable pub frame_format : Frame → ℕ → Option Bytes
frame_format frame size = if size == 0 then none else do
  headed ← append size [] (header_text frame)
  listed ← append_fields size headed frame.fields
  append size listed (codes "\n")

-- What the parser and the builders promise of a frame, and what the printer needs.
abbrev pub IsToken : ℕ → Bytes → Type 0
IsToken size text = (all is_token_char text ≡ true) × (text ≢ []) × (length text < size)

abbrev pub is_text_char : ℕ → Bool
is_text_char c = not (c == 0) && is_value_char c

abbrev pub IsValue : ℕ → Bytes → Type 0
IsValue size text = (all is_text_char text ≡ true) × (text ≢ []) × (length text < size)

pub record IsField (f : Field) : Type 0 where
  pub key_token : IsToken max_key_length f.key
  pub value_text : IsValue max_value_length f.value

pub record IsFrame (f : Frame) : Type 0 where
  pub name_token : IsToken max_name_length f.name
  pub id_range : f.id < uint32_mod
  pub field_room : length f.fields ≤ max_fields
  pub each_field : All IsField f.fields
