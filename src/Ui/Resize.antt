-- ===== src/Ui/Resize.antt =====
-- The resize handshake of the keyboard.
use lumo_compositor.Base.{ℕ, ◌+◌, ◌%◌, ◌<◌, Bool, true, false, not, ◌&&◌, ◌≡◌, arith, ◌==◌}
use lumo_compositor.CString.{uint32_mod}
use lumo_compositor.Ui.{Ui, set_keyboard_visible, ack_keyboard_resize}

set_keyboard_visible_changes :
    (v : Bool) (ui : Ui)
    → ui.keyboard_visible ≡ not v
    → let t = set_keyboard_visible v ui in
      (t.keyboard_visible ≡ v)
      × (t.keyboard_resize_serial ≡ (ui.keyboard_resize_serial + 1) % uint32_mod)
      × (t.keyboard_resize_pending ≡ v)
unfolding set_keyboard_visible
set_keyboard_visible_changes true ui h = ground arith
set_keyboard_visible_changes false ui h = ground arith

-- The keyboard is shown, hidden and shown again before the client answers: an answer to the first
-- resize changes nothing, and an answer to the last one completes the handshake.
pub stale_ack_ignored :
    (ui : Ui)
    → ui.keyboard_visible ≡ false
    → ui.keyboard_resize_serial < uint32_mod
    → let first = set_keyboard_visible true ui in
      let last = set_keyboard_visible true (set_keyboard_visible false first) in
      (ack_keyboard_resize first.keyboard_resize_serial last ≡ last)
      × ((ack_keyboard_resize last.keyboard_resize_serial last).keyboard_resize_pending ≡ false)
      × ((ack_keyboard_resize last.keyboard_resize_serial last).keyboard_resize_acked ≡ true)
unfolding ack_keyboard_resize
stale_ack_ignored ui h r =
    let first = set_keyboard_visible true ui in
    let gone = set_keyboard_visible false first in
    let shown = set_keyboard_visible_changes true ui h in
    let hid = set_keyboard_visible_changes false first shown.0 in
    let again = set_keyboard_visible_changes true gone hid.0 in ground arith

-- An acknowledgement does something only if a resize is pending with that very serial.
pub ack_needs_serial :
    (serial : ℕ) (ui : Ui)
    → (ui.keyboard_resize_pending && ui.keyboard_resize_serial == serial) ≡ false
    → ack_keyboard_resize serial ui ≡ ui
unfolding ack_keyboard_resize
ack_needs_serial serial ui h = ground arith
