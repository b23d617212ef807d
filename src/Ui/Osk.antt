-- ===== src/Ui/Osk.antt =====
-- Pressing a key of the on-screen keyboard, lumo_shell_bridge_commit_osk_text of compositor/src/shell/shell_bridge.c.
-- Whether a text input is focused, and whether the seat has a keyboard, is an argument.
use lumo_compositor.Base.{
  ℕ, ◌+◌, ◌-◌, Bool, true, false, not, ◌&&◌, ◌||◌, List, [], ◌∷◌, ◌++◌, Option, none, some, ltb,
  leb, ◌==◌, if◌then◌else◌, length,
}
use lumo_compositor.CString.{Bytes, codes, str_eq}
use lumo_compositor.Layout.Keys.{osk_key_text}
use lumo_compositor.Ui.{
  Ui, Toplevel, emit, broadcast, osk_toggle_page, set_keyboard_visible, send_delete_surrounding,
  send_commit_string, send_done, notify_key,
}

-- NULL, or the code that the caller answers with.
pub data Answer : Type 0 where
  accepted invalid_index no_text_input_focus : Answer

pub record Pressed : Type 0 where
  pub ui : Ui
  pub answer : Answer

abbrev pub accept : Ui → Pressed
accept ui = record { ui = ui; answer = accepted }

abbrev pub toast_size : ℕ
toast_size = 128

abbrev pub drop_last : Bytes → Bytes
drop_last [] = []
drop_last (c ∷ []) = []
drop_last (c ∷ d ∷ cs) = c ∷ drop_last (d ∷ cs)

-- The launcher's search text stands in toast_message.
unfoldable pub search_key : ℕ → Bytes → Bytes
search_key c query =
    if c == 8
    then drop_last query
    else if not (c == b'\n') && ltb (length query + 1) (toast_size - 1)
    then query ++ c ∷ []
    else query

-- A row of the tables `map` and `ext_map`.
pub record KeyCode : Type 0 where
  pub ch : ℕ
  pub code : ℕ
  pub shift : Bool

abbrev plain : ℕ → ℕ → KeyCode
plain ch code = record { ch = ch; code = code; shift = false }

abbrev shifted : ℕ → ℕ → KeyCode
shifted ch code = record { ch = ch; code = code; shift = true }

abbrev letter_map : List KeyCode
letter_map =
    plain b'a' 30
    ∷ plain b'b' 48
    ∷ plain b'c' 46
    ∷ plain b'd' 32
    ∷ plain b'e' 18
    ∷ plain b'f' 33
    ∷ plain b'g' 34
    ∷ plain b'h' 35
    ∷ plain b'i' 23
    ∷ plain b'j' 36
    ∷ plain b'k' 37
    ∷ plain b'l' 38
    ∷ plain b'm' 50
    ∷ plain b'n' 49
    ∷ plain b'o' 24
    ∷ plain b'p' 25
    ∷ plain b'q' 16
    ∷ plain b'r' 19
    ∷ plain b's' 31
    ∷ plain b't' 20
    ∷ plain b'u' 22
    ∷ plain b'v' 47
    ∷ plain b'w' 17
    ∷ plain b'x' 45
    ∷ plain b'y' 21
    ∷ plain b'z' 44
    ∷ plain b' ' 57
    ∷ []

abbrev sign_map : List KeyCode
sign_map =
    plain b'\n' 28
    ∷ plain b',' 51
    ∷ plain b'.' 52
    ∷ plain b'/' 53
    ∷ plain b'1' 2
    ∷ plain b'2' 3
    ∷ plain b'3' 4
    ∷ plain b'4' 5
    ∷ plain b'5' 6
    ∷ plain b'6' 7
    ∷ plain b'7' 8
    ∷ plain b'8' 9
    ∷ plain b'9' 10
    ∷ plain b'0' 11
    ∷ plain b'-' 12
    ∷ plain b'=' 13
    ∷ shifted b'!' 2
    ∷ shifted b'@' 3
    ∷ shifted b'#' 4
    ∷ shifted b'$' 5
    ∷ shifted b'%' 6
    ∷ shifted b'^' 7
    ∷ shifted b'&' 8
    ∷ shifted b'(' 10
    ∷ shifted b')' 11
    ∷ shifted b'+' 13
    ∷ shifted b'?' 53
    ∷ plain b';' 39
    ∷ plain 39 40
    ∷ shifted b':' 39
    ∷ []

abbrev ext_map : List KeyCode
ext_map =
    shifted b'|' 43
    ∷ shifted b'~' 41
    ∷ plain 96 41
    ∷ shifted b'_' 12
    ∷ plain 92 43
    ∷ plain b'[' 26
    ∷ plain b']' 27
    ∷ shifted b'{' 26
    ∷ shifted b'}' 27
    ∷ shifted 34 40
    ∷ shifted b'<' 51
    ∷ shifted b'>' 52
    ∷ []

abbrev pub no_code : KeyCode
no_code = plain 0 0

-- The first row for a character, or for its lower case.
unfoldable pub find_code : List KeyCode → ℕ → ℕ → KeyCode
find_code [] lower ch = no_code
find_code (e ∷ es) lower ch =
    let later = find_code es lower ch in if e.ch == lower || e.ch == ch then e else later

abbrev pub is_upper : ℕ → Bool
is_upper c = leb b'A' c && leb c b'Z'

abbrev lower_ch : ℕ → ℕ
lower_ch c = if is_upper c then c + 32 else c

-- The key of a single character; a control character has none.
unfoldable pub basic_code : ℕ → KeyCode
unfolding find_code
basic_code c =
    if c == 8
    then plain c 14
    else if c == 9
    then plain c 15
    else if c == 27
    then plain c 1
    else if leb 1 c && leb c 26 && not (c == b'\n')
    then no_code
    else find_code (letter_map ++ sign_map) (lower_ch c) c

unfoldable pub key_code : ℕ → KeyCode
unfolding basic_code find_code
key_code c = if (basic_code c).code == 0 && ltb 32 c then find_code ext_map c c else basic_code c

-- The code of a cursor key's sequence, behind its ESC.
unfoldable pub csi_code : Bytes → ℕ
csi_code text =
    if str_eq text (codes "[A")
    then 103
    else if str_eq text (codes "[B")
    then 108
    else if str_eq text (codes "[D")
    then 105
    else if str_eq text (codes "[C")
    then 106
    else if str_eq text (codes "[5~")
    then 104
    else if str_eq text (codes "[6~")
    then 109
    else if str_eq text (codes "[H")
    then 102
    else 0

abbrev pub tap : ℕ → Ui → Ui
tap code ui = emit (notify_key 1 code false) (emit (notify_key 0 code true) ui)

abbrev left_shift : ℕ
left_shift = 42

abbrev pub tap_key : Bool → ℕ → Ui → Ui
tap_key need_shift code ui =
    if need_shift
    then emit (notify_key 1 left_shift false) (tap code (emit (notify_key 0 left_shift true) ui))
    else tap code ui

abbrev pub refuse : Ui → Pressed
refuse ui = record { ui = ui; answer = no_text_input_focus }

-- The key as presses of the seat's keyboard.
unfoldable pub send_keys : ℕ → Bytes → Ui → Pressed
unfolding key_code csi_code
send_keys c cs ui =
    if c == 27 && not (csi_code cs == 0)
    then accept (tap (csi_code cs) ui)
    else if (key_code c).code == 0
    then refuse ui
    else accept (tap_key (is_upper c || (key_code c).shift) (key_code c).code ui)

abbrev pub no_windows : List Toplevel → Bool
no_windows [] = true
no_windows (t ∷ ts) = false

-- A key without a focused text input goes to the launcher's search or to the focused window.
unfoldable pub without_input : Bool → ℕ → Bytes → Ui → Pressed
unfolding send_keys search_key
without_input seat_keyboard c cs ui =
    if ui.launcher_visible
    then accept (broadcast (record ui { toast_message = search_key c ui.toast_message }))
    else if seat_keyboard && not (no_windows ui.toplevels)
    then send_keys c cs ui
    else refuse ui

abbrev pub with_input : ℕ → Bytes → Ui → Pressed
with_input c cs ui =
    if c == 8
    then accept (emit send_done (emit (send_commit_string []) (emit send_delete_surrounding ui)))
    else accept (emit send_done (emit (send_commit_string (c ∷ cs)) ui))

abbrev pub type_text : Bool → Bool → ℕ → Bytes → Ui → Pressed
type_text text_input seat_keyboard c cs ui =
    if text_input then with_input c cs ui else without_input seat_keyboard c cs ui

abbrev pub is_lower : ℕ → Bool
is_lower c = leb b'a' c && leb c b'z'

-- A text that is not empty, from its first byte.
unfoldable pub press_text : Bool → Bool → ℕ → Bytes → Ui → Pressed
unfolding without_input
press_text text_input seat_keyboard c cs ui =
    if c == 27
    then accept (set_keyboard_visible false ui)
    else if c == 1
    then accept (broadcast (osk_toggle_page ui))
    else if ui.osk_shift_active && is_lower c
    then type_text text_input seat_keyboard (c - 32) []
        (broadcast (record ui { osk_shift_active = false }))
    else type_text text_input seat_keyboard c cs ui

abbrev pub press : Bool → Bool → Option Bytes → Ui → Pressed
press text_input seat_keyboard none ui = record { ui = ui; answer = invalid_index }
press text_input seat_keyboard (some []) ui =
    accept (broadcast (record ui { osk_shift_active = not ui.osk_shift_active }))
press text_input seat_keyboard (some (c ∷ cs)) ui = press_text text_input seat_keyboard c cs ui

unfoldable pub commit_osk_text : Bool → Bool → ℕ → Ui → Pressed
unfolding press_text
commit_osk_text text_input seat_keyboard index ui =
    press text_input seat_keyboard (osk_key_text ui.osk_page index) ui
