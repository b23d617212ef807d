-- ===== src/Ui/TextInput.antt =====
-- The keyboard follows the text inputs of the seat: lumo_protocol_refresh_keyboard_visibility and the
-- text-input listeners of compositor/src/protocol/protocol.c; and the terminal's auto-show of
-- compositor/src/core/input_touch.c.
use lumo_compositor.Base.{
  Bool, true, false, not, ◌&&◌, ◌||◌, ◌≡◌, Option, none, some, List, [], ◌∷◌, if◌then◌else◌, arith,
}
use lumo_compositor.CString.{Bytes, codes, strstr}
use lumo_compositor.Ui.{Ui, set_keyboard_visible}

-- What the loops read of a text input: that it belongs to the compositor's seat, and its flags.
pub record TextInput : Type 0 where
  pub same_seat : Bool
  pub current_enabled : Bool
  pub pending_enabled : Bool
  pub has_focus : Bool

unfoldable pub any_enabled : List TextInput → Bool
any_enabled [] = false
any_enabled (t ∷ ts) = t.same_seat && (t.current_enabled || t.pending_enabled) || any_enabled ts

unfoldable pub any_disabled : List TextInput → Bool
any_disabled [] = false
any_disabled (t ∷ ts) =
    t.same_seat && not t.current_enabled && not t.pending_enabled && t.has_focus || any_disabled ts

-- With no manager the list is empty.
unfoldable pub refresh_keyboard_visibility : Bool → List TextInput → Ui → Ui
refresh_keyboard_visibility seat inputs ui =
    if not seat
    then set_keyboard_visible false ui
    else if not (any_enabled inputs) && ui.keyboard_auto_shown && not (any_disabled inputs)
    then ui
    else set_keyboard_visible (any_enabled inputs) ui

unfoldable pub text_input_enable : Ui → Ui
text_input_enable ui = if not ui.keyboard_visible then set_keyboard_visible true ui else ui

-- `enabled` is the committed current_enabled.
unfoldable pub text_input_commit : Bool → Ui → Ui
text_input_commit enabled ui =
    if enabled && not ui.keyboard_visible
    then set_keyboard_visible true ui
    else if not enabled && ui.keyboard_visible && not ui.keyboard_auto_shown
    then set_keyboard_visible false ui
    else ui

-- The auto-show for the terminal at the end of lumo_input_focus_surface (compositor/src/core/input_touch.c): the app id of the
-- window whose surface is focused, none without such a window or without an id.
unfoldable pub focus_surface : Option Bytes → Ui → Ui
unfolding strstr
focus_surface none ui = ui
focus_surface (some app_id) ui =
    let shown = set_keyboard_visible true (record ui { keyboard_auto_shown = true }) in
    if not ui.launcher_visible && not ui.keyboard_visible && strstr app_id (codes "messages")
    then shown
    else ui

set_keyboard_visible-visible :
    (v : Bool) (ui : Ui) → (set_keyboard_visible v ui).keyboard_visible ≡ v
unfolding set_keyboard_visible
set_keyboard_visible-visible v ui = ground arith

-- With a seat, the keyboard shows after a refresh exactly when a text input of the seat is enabled,
-- or when it was auto-shown and visible and no focused text input was disabled.
pub refresh_keyboard_visibility-visible :
    (inputs : List TextInput) (ui : Ui)
    → (refresh_keyboard_visibility true inputs ui).keyboard_visible ≡ (
        any_enabled inputs
        || ui.keyboard_visible && ui.keyboard_auto_shown && not (any_disabled inputs))
unfolding refresh_keyboard_visibility
refresh_keyboard_visibility-visible inputs ui =
    ground (arith, set_keyboard_visible-visible (any_enabled inputs) ui)
