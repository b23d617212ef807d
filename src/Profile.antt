-- ===== src/Profile.antt =====
-- The name of the file that a touch audit is saved in: lumo_touch_audit_sanitize_name and
-- lumo_touch_audit_profile_basename of compositor/src/core/touch_audit.c.
pub mod Names
use lumo_compositor.Base.{
  ℕ, zero, suc, ◌+◌, ◌-◌, ◌/◌, ◌%◌, ◌^◌, Bool, true, false, ◌&&◌, ◌||◌, Option, none, some, List,
  [], ◌∷◌, ◌++◌, ltb, leb, ◌==◌, length, if◌then◌else◌,
}
use lumo_compositor.CString.{Bytes, codes, is_digit, snprintf_text}
use lumo_compositor.Bridge.{Rotation, rotation_name}

abbrev pub is_lower : ℕ → Bool
is_lower c = leb b'a' c && leb c b'z'

abbrev pub is_upper : ℕ → Bool
is_upper c = leb b'A' c && leb c b'Z'

-- A dash, unless the buffer is empty or ends in one. The buffer stands with its last byte first.
abbrev pub add_dash : Bytes → Bytes
add_dash [] = []
add_dash (last ∷ rest) = if last == b'-' then last ∷ rest else b'-' ∷ last ∷ rest

unfoldable pub sanitize_char : ℕ → Bytes → Bytes
sanitize_char c buffer =
    if is_lower c || is_digit c
    then c ∷ buffer
    else if is_upper c
    then (c - b'A' + b'a') ∷ buffer
    else add_dash buffer

-- The loop, as long as the buffer has room for a byte and the NUL.
unfoldable pub sanitize_chars : ℕ → Bytes → Bytes → Bytes
unfolding sanitize_char
sanitize_chars size [] buffer = buffer
sanitize_chars size (c ∷ cs) buffer =
    let rest = sanitize_chars size cs (sanitize_char c buffer) in
    if ltb (length buffer + 1) size then rest else buffer

-- The dashes at the end go.
unfoldable pub trim_dashes : Bytes → Bytes
trim_dashes [] = []
trim_dashes (last ∷ rest) =
    let trimmed = trim_dashes rest in if last == b'-' then trimmed else last ∷ rest

-- The buffer in its order, in front of `text`.
abbrev pub in_order : Bytes → Bytes → Bytes
in_order [] text = text
in_order (last ∷ rest) text = in_order rest (last ∷ text)

abbrev pub or_touchscreen : ℕ → Bytes → Bytes
or_touchscreen size [] = snprintf_text size (codes "touchscreen")
or_touchscreen size (c ∷ cs) = in_order (c ∷ cs) []

unfoldable pub sanitize_name : ℕ → Bytes → Bytes
unfolding sanitize_chars trim_dashes
sanitize_name size [] = snprintf_text size (codes "touchscreen")
sanitize_name size (c ∷ cs) = or_touchscreen size (trim_dashes (sanitize_chars size (c ∷ cs) []))

abbrev pub hex_digit : ℕ → ℕ
hex_digit n = if ltb n 10 then b'0' + n else b'a' + (n - 10)

-- "%04x" of the low 16 bits
abbrev pub hex4 : ℕ → Bytes
hex4 n =
    hex_digit (n / 4096 % 16)
    ∷ hex_digit (n / 256 % 16)
    ∷ hex_digit (n / 16 % 16)
    ∷ hex_digit (n % 16)
    ∷ []

abbrev pub basename_text : Bytes → ℕ → ℕ → Rotation → Bytes
basename_text slug vendor product turned =
    let tail = rotation_name turned ++ codes ".json" in
    slug ++ (b'-' ∷ (hex4 vendor ++ (b'-' ∷ (hex4 product ++ (b'-' ∷ tail)))))

unfoldable pub profile_basename : ℕ → Bytes → ℕ → ℕ → Rotation → Option Bytes
unfolding sanitize_name rotation_name
profile_basename size device vendor product turned =
    let text = basename_text (sanitize_name 96 device) vendor product turned in
    if ltb (length text) size then some text else none
