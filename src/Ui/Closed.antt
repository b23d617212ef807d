-- ===== src/Ui/Closed.antt =====
-- Predicates that the small steps of the shell's state keep, so that one proof over the keyboard's
-- keys or over the requests serves every such predicate.
use lumo_compositor.Base.{ℕ, ◌≤◌, Bool, true, false, ◌≡◌, refl, List, if◌then◌else◌}
use lumo_compositor.CString.{Bytes}
use lumo_compositor.Ui.{
  Ui, Scrim, dimmed, same, Toplevel, Effect, launch, write_volume, write_brightness, emit,
  broadcast, mark_layers_dirty, osk_toggle_page, set_scrim_state, set_keyboard_visible,
  set_launcher_visible, set_quick_settings_visible, set_time_panel_visible,
  set_notification_panel_visible, set_sidebar_visible, ack_keyboard_resize,
}
use lumo_compositor.Ui.Audit.{audit_ui, close_overlays, idle_scrim}

-- Whether an effect starts a process that the client's request can shape: a program, or a helper with
-- a level. The helper that takes screenshots is given nothing of the request.
abbrev pub starts_process : Effect → Bool
starts_process (launch command) = true
starts_process (write_volume pct) = true
starts_process (write_brightness pct) = true
starts_process _ = false

-- What the keys of the on-screen keyboard do.
pub record KeepsKeys (P : Ui → Type 0) : Type 0 where
  pub calls : (e : Effect) (ui : Ui) → starts_process e ≡ false → P ui → P (emit e ui)
  pub dirties : (ui : Ui) → P ui → P (broadcast ui)
  pub typed : (text : Bytes) (ui : Ui) → P ui → P (record ui { toast_message = text })
  pub shifts : (b : Bool) (ui : Ui) → P ui → P (record ui { osk_shift_active = b })
  pub pages : (ui : Ui) → P ui → P (osk_toggle_page ui)
  pub keyboard : (v : Bool) (ui : Ui) → P ui → P (set_keyboard_visible v ui)

-- What the requests do besides, without starting a program.
pub record KeepsSetters (P : Ui → Type 0) : Type 0 where
  pub keys : KeepsKeys P
  pub launcher : (v : Bool) (ui : Ui) → P ui → P (set_launcher_visible v ui)
  pub quick_settings : (v : Bool) (ui : Ui) → P ui → P (set_quick_settings_visible v ui)
  pub time_panel : (v : Bool) (ui : Ui) → P ui → P (set_time_panel_visible v ui)
  pub notification_panel : (v : Bool) (ui : Ui) → P ui → P (set_notification_panel_visible v ui)
  pub sidebar : (v : Bool) (ui : Ui) → P ui → P (set_sidebar_visible v ui)
  pub scrim : (s : Scrim) (ui : Ui) → P ui → P (record ui { scrim_state = s })
  pub audit_flag : (v : Bool) (ui : Ui) → P ui → P (record ui { touch_audit_active = v })
  pub windows : (ts : List Toplevel) (ui : Ui) → P ui → P (record ui { toplevels = ts })
  pub layers : (ui : Ui) → P ui → P (record ui { layer_config_dirty = true })
  pub volume : (pct : ℕ) (ui : Ui) → pct ≤ 100 → P ui → P (emit (write_volume pct) ui)
  pub brightness : (pct : ℕ) (ui : Ui) → pct ≤ 100 → P ui → P (emit (write_brightness pct) ui)
  pub acks : (n : ℕ) (ui : Ui) → P ui → P (ack_keyboard_resize n ui)

module _ (P : Ui → Type 0) where
  -- Two ways under a test.
  pub either_keeps : (b : Bool) {u v : Ui} → P u → P v → P (if b then u else v)
  either_keeps true h k = h
  either_keeps false h k = k

  module _ (keeps : KeepsSetters P) where
    pub set_scrim_state-keeps : (s : Scrim) (ui : Ui) → P ui → P (set_scrim_state s ui)
    unfolding set_scrim_state
    set_scrim_state-keeps s ui w = keeps.keys.dirties _ (keeps.scrim s ui w)

    pub mark_layers_dirty-keeps : (ui : Ui) → P ui → P (mark_layers_dirty ui)
    mark_layers_dirty-keeps ui w = keeps.keys.calls _ _ refl (keeps.layers ui w)

    close_overlays-keeps : (ui : Ui) → P ui → P (close_overlays ui)
    close_overlays-keeps ui w =
        let closed = if ui.launcher_visible then set_launcher_visible false ui else ui in
        let w' : P closed = either_keeps ui.launcher_visible (keeps.launcher false ui w) w in
        either_keeps closed.keyboard_visible (keeps.keys.keyboard false closed w') w'

    pub audit_ui-keeps : (v : Bool) (ui : Ui) → P ui → P (audit_ui v ui)
    unfolding audit_ui
    audit_ui-keeps v ui w =
        let on =
          set_scrim_state-keeps dimmed _
            (keeps.audit_flag true (close_overlays ui) (close_overlays-keeps ui w)) in
        let off =
          set_scrim_state-keeps (idle_scrim (record ui { touch_audit_active = false })) _
            (keeps.audit_flag false ui w) in
        either_keeps (same ui.touch_audit_active v) w
          (mark_layers_dirty-keeps _ (keeps.keys.dirties _ (either_keeps v on off)))
