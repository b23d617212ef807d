-- ===== src/Ui/OskKeeps.antt =====
-- What the keys of the on-screen keyboard keep (lumo_shell_bridge_commit_osk_text of
-- compositor/src/shell/shell_bridge.c), for every predicate that their small steps keep.
use lumo_compositor.Base.{
  ℕ, ◌-◌, Bool, true, false, not, ◌||◌, [], ◌∷◌, Option, none, some, refl, if◌then◌else◌,
}
use lumo_compositor.CString.{Bytes}
use lumo_compositor.Layout.Keys.{osk_key_text}
use lumo_compositor.Ui.{
  notify_key, send_done, send_commit_string, send_delete_surrounding, Ui, broadcast,
  osk_toggle_page,
}
use lumo_compositor.Ui.Closed.{KeepsKeys}
use lumo_compositor.Ui.Osk.{
  Pressed, tap, tap_key, send_keys, without_input, with_input, type_text, press_text, press,
  commit_osk_text, search_key, csi_code, key_code, is_upper,
}

module _ (P : Ui → Type 0) (keeps : KeepsKeys P) where
  either_pressed : (b : Bool) (p q : Pressed) → P p.ui → P q.ui → P (if b then p else q).ui
  either_pressed true p q h k = h
  either_pressed false p q h k = k

  tap-keeps : (code : ℕ) (ui : Ui) → P ui → P (tap code ui)
  tap-keeps code ui w =
      keeps.calls (notify_key 1 code false) _ refl (keeps.calls (notify_key 0 code true) ui refl w)

  tap_key-keeps : (b : Bool) (code : ℕ) (ui : Ui) → P ui → P (tap_key b code ui)
  tap_key-keeps false code ui w = tap-keeps code ui w
  tap_key-keeps true code ui w =
      keeps.calls (notify_key 1 42 false) _ refl
        (tap-keeps code _ (keeps.calls (notify_key 0 42 true) ui refl w))

  send_keys-keeps : (c : ℕ) (cs : Bytes) (ui : Ui) → P ui → P (send_keys c cs ui).ui
  unfolding send_keys
  send_keys-keeps c cs ui w = either_pressed _ _ _ (tap-keeps (csi_code cs) ui w) (
      either_pressed _ _ _ w
        (tap_key-keeps (is_upper c || (key_code c).shift) (key_code c).code ui w))

  without_input-keeps :
      (k : Bool) (c : ℕ) (cs : Bytes) (ui : Ui) → P ui → P (without_input k c cs ui).ui
  unfolding without_input
  without_input-keeps k c cs ui w =
      either_pressed _ _ _ (keeps.dirties _ (keeps.typed (search_key c ui.toast_message) ui w))
        (either_pressed _ _ _ (send_keys-keeps c cs ui w) w)

  with_input-keeps : (c : ℕ) (cs : Bytes) (ui : Ui) → P ui → P (with_input c cs ui).ui
  with_input-keeps c cs ui w =
      either_pressed _ _ _
        (keeps.calls send_done _ refl (
          keeps.calls (send_commit_string []) _ refl
            (keeps.calls send_delete_surrounding ui refl w)))
        (keeps.calls send_done _ refl (keeps.calls (send_commit_string (c ∷ cs)) ui refl w))

  type_text-keeps :
      (t k : Bool) (c : ℕ) (cs : Bytes) (ui : Ui) → P ui → P (type_text t k c cs ui).ui
  type_text-keeps true k c cs ui w = with_input-keeps c cs ui w
  type_text-keeps false k c cs ui w = without_input-keeps k c cs ui w

  press_text-keeps :
      (t k : Bool) (c : ℕ) (cs : Bytes) (ui : Ui) → P ui → P (press_text t k c cs ui).ui
  unfolding press_text
  press_text-keeps t k c cs ui w =
      let toggled = keeps.dirties (osk_toggle_page ui) (keeps.pages ui w) in
      let upper =
        type_text-keeps t k (c - 32) [] (broadcast (record ui { osk_shift_active = false }))
          (keeps.dirties _ (keeps.shifts false ui w)) in
      either_pressed _ _ _ (keeps.keyboard false ui w)
        (either_pressed _ _ _ toggled (either_pressed _ _ _ upper (type_text-keeps t k c cs ui w)))

  press-keeps : (t k : Bool) (text : Option Bytes) (ui : Ui) → P ui → P (press t k text ui).ui
  press-keeps t k none ui w = w
  press-keeps t k (some []) ui w = keeps.dirties _ (keeps.shifts (not ui.osk_shift_active) ui w)
  press-keeps t k (some (c ∷ cs)) ui w = press_text-keeps t k c cs ui w

  pub commit_osk_text-keeps :
      (t k : Bool) (index : ℕ) (ui : Ui) → P ui → P (commit_osk_text t k index ui).ui
  unfolding commit_osk_text
  commit_osk_text-keeps t k index ui w = press-keeps t k (osk_key_text ui.osk_page index) ui w
