-- ===== src/Ui/OskRefusals.antt =====
-- What a key of the on-screen keyboard that is refused has done
-- (lumo_shell_bridge_commit_osk_text of compositor/src/shell/shell_bridge.c).
use lumo_compositor.Base.{
  ℕ, ◌-◌, Bool, true, false, not, ◌&&◌, ◌||◌, ◌==◌, [], ◌∷◌, Option, none, some, ◌≡◌, ◌≢◌, ◌⊎◌, inl,
  inr, refl, if◌then◌else◌,
}
use lumo_compositor.CString.{Bytes}
use lumo_compositor.Layout.Keys.{osk_key_text}
use lumo_compositor.Ui.{
  Ui, broadcast, emit, send_done, send_commit_string, send_delete_surrounding, osk_toggle_page,
  set_keyboard_visible,
}
use lumo_compositor.Ui.Osk.{
  Pressed, accepted, no_text_input_focus, accept, refuse, tap, tap_key, csi_code, key_code,
  is_upper, send_keys, search_key, without_input, no_windows, type_text, is_lower, press_text,
  press, commit_osk_text,
}

first_true : (a b : Bool) → (a && b) ≡ true → a ≡ true
first_true true b h = refl
first_true false b h = cc

-- A key is accepted, or refused with the shell as it was or with its shift used up.
module _ (Q : Pressed → Type 0) (accepts : (u : Ui) → Q (accept u)) where
  either_pressed : (b : Bool) (p q : Pressed) → Q p → Q q → Q (if b then p else q)
  either_pressed true p q h k = h
  either_pressed false p q h k = k

  tested_pressed : (b : Bool) (p q : Pressed) → (b ≡ true → Q p) → Q q → Q (if b then p else q)
  tested_pressed true p q h k = h refl
  tested_pressed false p q h k = k

  send_keys_either : (c : ℕ) (cs : Bytes) (ui : Ui) → Q (refuse ui) → Q (send_keys c cs ui)
  unfolding send_keys
  send_keys_either c cs ui r =
      let key = key_code c in
      let keyed = accept (tap_key (is_upper c || key.shift) key.code ui) in
      either_pressed (c == 27 && not (csi_code cs == 0)) (accept (tap (csi_code cs) ui))
        (if key.code == 0 then refuse ui else keyed) (accepts (tap (csi_code cs) ui))
        (either_pressed (key.code == 0) (refuse ui) keyed r (accepts keyed.ui))

  type_text_either :
      (t k : Bool) (c : ℕ) (cs : Bytes) (ui : Ui) → Q (refuse ui) → Q (type_text t k c cs ui)
  unfolding without_input
  type_text_either true k c cs ui r =
      let erased =
        emit send_done (emit (send_commit_string []) (emit send_delete_surrounding ui)) in
      let sent = emit send_done (emit (send_commit_string (c ∷ cs)) ui) in
      either_pressed (c == 8) (accept erased) (accept sent) (accepts erased) (accepts sent)
  type_text_either false k c cs ui r =
      let searched = broadcast (record ui { toast_message = search_key c ui.toast_message }) in
      let typed = k && not (no_windows ui.toplevels) in
      either_pressed ui.launcher_visible (accept searched)
        (if typed then send_keys c cs ui else refuse ui) (accepts searched)
        (either_pressed typed (send_keys c cs ui) (refuse ui) (send_keys_either c cs ui r) r)

  press_text_either :
      (t k : Bool) (c : ℕ) (cs : Bytes) (ui : Ui)
      → (ui.osk_shift_active ≡ true
          → Q (refuse (broadcast (record ui { osk_shift_active = false }))))
      → Q (refuse ui)
      → Q (press_text t k c cs ui)
  unfolding press_text
  press_text_either t k c cs ui off r =
      let shifted = broadcast (record ui { osk_shift_active = false }) in
      let upper = type_text t k (c - 32) [] shifted in
      let plain = type_text t k c cs ui in
      let typed = if ui.osk_shift_active && is_lower c then upper else plain in
      let paged = accept (broadcast (osk_toggle_page ui)) in
      let closed = accept (set_keyboard_visible false ui) in
      either_pressed (c == 27) closed (if c == 1 then paged else typed) (accepts closed.ui) (
        either_pressed (c == 1) paged typed (accepts paged.ui) (
          tested_pressed (ui.osk_shift_active && is_lower c) upper plain
            (λ h. type_text_either t k (c - 32) [] shifted (off (first_true _ _ h)))
            (type_text_either t k c cs ui r)))

-- How a refused key can leave the shell: as it was, or without its shift, which was on, when there was
-- nothing to type into.
abbrev pub IsPressed : Ui → Pressed → Type 0
IsPressed ui p =
    p.answer ≢ accepted
    → (p.ui ≡ ui)
      ⊎ ((p.answer ≡ no_text_input_focus)
          × (ui.osk_shift_active ≡ true)
          × (p.ui ≡ broadcast (record ui { osk_shift_active = false })))

accept-IsPressed : (ui u : Ui) → IsPressed ui (accept u)
accept-IsPressed ui u h = absurd (h refl)

press-IsPressed : (t k : Bool) (text : Option Bytes) (ui : Ui) → IsPressed ui (press t k text ui)
press-IsPressed t k none ui = λ h. inl refl
press-IsPressed t k (some []) ui = λ h. absurd (h refl)
press-IsPressed t k (some (c ∷ cs)) ui =
    press_text_either (IsPressed ui) (accept-IsPressed ui) t k c cs ui
      (λ on h. inr (refl, on, refl)) (λ h. inl refl)

-- A refused key leaves the shell as it was, or has used up its shift with nothing to type into.
pub commit_osk_text-IsPressed :
    (t k : Bool) (index : ℕ) (ui : Ui) → IsPressed ui (commit_osk_text t k index ui)
unfolding commit_osk_text
commit_osk_text-IsPressed t k index ui = press-IsPressed t k (osk_key_text ui.osk_page index) ui
