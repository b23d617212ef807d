-- ===== src/Ui/Invariant.antt =====
-- What every operation keeps of the shell's state.
use lumo_compositor.Base.{ℕ, ◌≤◌, ◌<◌, Bool, true, false, ◌||◌, ◌≡◌, ◌≢◌, arith, length}
use lumo_compositor.CString.{uint32_mod}
use lumo_compositor.Ui.{
  Ui, Scrim, hidden, set_launcher_visible, set_keyboard_visible, set_sidebar_visible,
  sidebar_timeout, ack_keyboard_resize, osk_toggle_page, osk_set_page, osk_page_count,
}

-- The scrim is up exactly as far as the launcher, the keyboard and the audit ask for it.
pub record IsScrim (launcher keyboard audit : Bool) (scrim : Scrim) : Type 0 where
  pub covered : (launcher || keyboard) ≡ true → scrim ≢ hidden
  pub idle : (launcher || keyboard || audit) ≡ false → scrim ≡ hidden

-- The keyboard's resize handshake, its auto-show flag, its page and its serial.
pub record IsKeyboard (visible auto pending acked : Bool) (page serial : ℕ) : Type 0 where
  pub pending_visible : pending ≡ true → (visible ≡ true) × (acked ≡ false)
  pub auto_visible : auto ≡ true → visible ≡ true
  pub page_range : page < osk_page_count
  pub serial_range : serial < uint32_mod

pub record IsUi (ui : Ui) : Type 0 where
  pub scrim : IsScrim ui.launcher_visible ui.keyboard_visible ui.touch_audit_active ui.scrim_state
  pub keyboard :
      IsKeyboard ui.keyboard_visible ui.keyboard_auto_shown ui.keyboard_resize_pending
        ui.keyboard_resize_acked ui.osk_page ui.keyboard_resize_serial
  -- the auto-hide timer runs only for a visible sidebar
  pub timer_visible : ui.sidebar_timer ≡ true → ui.sidebar_visible ≡ true
  pub notification_room : length ui.notifications ≤ 8

pub set_keyboard_visible-IsUi : (v : Bool) (ui : Ui) → IsUi ui → IsUi (set_keyboard_visible v ui)
unfolding set_keyboard_visible
set_keyboard_visible-IsUi true ui w = ground arith
set_keyboard_visible-IsUi false ui w = ground arith

pub set_launcher_visible-IsUi : (v : Bool) (ui : Ui) → IsUi ui → IsUi (set_launcher_visible v ui)
unfolding set_launcher_visible set_keyboard_visible
set_launcher_visible-IsUi true ui w = ground arith
set_launcher_visible-IsUi false ui w = ground arith

pub set_sidebar_visible-IsUi : (v : Bool) (ui : Ui) → IsUi ui → IsUi (set_sidebar_visible v ui)
unfolding set_sidebar_visible
set_sidebar_visible-IsUi true ui w = ground arith
set_sidebar_visible-IsUi false ui w = ground arith

pub sidebar_timeout-IsUi : (ui : Ui) → IsUi ui → IsUi (sidebar_timeout ui)
unfolding sidebar_timeout set_sidebar_visible
sidebar_timeout-IsUi ui w = ground arith

pub ack_keyboard_resize-IsUi : (n : ℕ) (ui : Ui) → IsUi ui → IsUi (ack_keyboard_resize n ui)
unfolding ack_keyboard_resize
ack_keyboard_resize-IsUi n ui w = ground arith

pub osk_toggle_page-IsUi : (ui : Ui) → IsUi ui → IsUi (osk_toggle_page ui)
unfolding osk_toggle_page
osk_toggle_page-IsUi ui w = ground arith

pub osk_set_page-IsUi : (n : ℕ) (ui : Ui) → IsUi ui → IsUi (osk_set_page n ui)
unfolding osk_set_page
osk_set_page-IsUi n ui w = ground arith
