-- ===== src/Ui/Setters.antt =====
-- The panels, the notifications, the text inputs and the audit keep the invariant.
use lumo_compositor.Base.{
  ℕ, Bool, true, false, Option, none, some, List, [], ◌∷◌, arith, length-append, if◌then◌else◌,
  drop,
}
use lumo_compositor.CString.{Bytes, snprintf_text}
use lumo_compositor.Ui.{
  Ui, dimmed, Notification, same, broadcast, mark_layers_dirty, set_scrim_state,
  set_quick_settings_visible, set_time_panel_visible, set_notification_panel_visible,
  set_launcher_visible, set_keyboard_visible,
}
use lumo_compositor.Ui.TextInput.{
  TextInput, any_enabled, refresh_keyboard_visibility, text_input_enable, text_input_commit,
  focus_surface,
}
use lumo_compositor.Ui.Audit.{audit_ui, close_overlays, idle_scrim}
use lumo_compositor.Ui.Notifications.{push_notification, length-drop}
use lumo_compositor.Ui.Invariant.{IsUi, set_keyboard_visible-IsUi, set_launcher_visible-IsUi}

pub quick_settings-IsUi : (v : Bool) (ui : Ui) → IsUi ui → IsUi (set_quick_settings_visible v ui)
unfolding set_quick_settings_visible
quick_settings-IsUi v ui w = ground arith

pub time_panel-IsUi : (v : Bool) (ui : Ui) → IsUi ui → IsUi (set_time_panel_visible v ui)
unfolding set_time_panel_visible
time_panel-IsUi v ui w = ground arith

pub notification_panel-IsUi :
    (v : Bool) (ui : Ui) → IsUi ui → IsUi (set_notification_panel_visible v ui)
unfolding set_notification_panel_visible
notification_panel-IsUi v ui w = ground arith

pub push_notification-IsUi :
    (text : Bytes) (time : ℕ) (ui : Ui) → IsUi ui → IsUi (push_notification text time ui)
unfolding push_notification
push_notification-IsUi text time ui w =
    let new : Notification = record { text = snprintf_text 128 text; time = time } in
    ground (
      arith,
      length-append (drop 1 ui.notifications) (new ∷ []),
      length-append ui.notifications (new ∷ []),
      length-drop 1 ui.notifications,
    )

pub refresh-IsUi :
    (seat : Bool) (inputs : List TextInput) (ui : Ui)
    → IsUi ui
    → IsUi (refresh_keyboard_visibility seat inputs ui)
unfolding refresh_keyboard_visibility
refresh-IsUi seat inputs ui w = ground (
  arith,
  set_keyboard_visible-IsUi false ui w,
  set_keyboard_visible-IsUi (any_enabled inputs) ui w,
)

pub text_input_enable-IsUi : (ui : Ui) → IsUi ui → IsUi (text_input_enable ui)
unfolding text_input_enable
text_input_enable-IsUi ui w = ground (arith, set_keyboard_visible-IsUi true ui w)

pub focus_surface-IsUi :
    (app_id : Option Bytes) (ui : Ui) → IsUi ui → IsUi (focus_surface app_id ui)
unfolding focus_surface set_keyboard_visible
focus_surface-IsUi none ui w = w
focus_surface-IsUi (some app_id) ui w = ground arith

pub text_input_commit-IsUi : (e : Bool) (ui : Ui) → IsUi ui → IsUi (text_input_commit e ui)
unfolding text_input_commit
text_input_commit-IsUi e ui w =
    ground (arith, set_keyboard_visible-IsUi true ui w, set_keyboard_visible-IsUi false ui w)

-- Two ways under a test.
pub either-IsUi : (b : Bool) {u v : Ui} → IsUi u → IsUi v → IsUi (if b then u else v)
either-IsUi true h k = h
either-IsUi false h k = k

pub close_overlays-IsUi : (ui : Ui) → IsUi ui → IsUi (close_overlays ui)
close_overlays-IsUi ui w =
    let closed = if ui.launcher_visible then set_launcher_visible false ui else ui in
    let w' : IsUi closed =
      either-IsUi ui.launcher_visible (set_launcher_visible-IsUi false ui w) w in
    either-IsUi closed.keyboard_visible (set_keyboard_visible-IsUi false closed w') w'

pub audit_on-IsUi :
    (ui : Ui) → IsUi ui → IsUi (set_scrim_state dimmed (record ui { touch_audit_active = true }))
unfolding set_scrim_state
audit_on-IsUi ui w = ground arith

pub audit_off-IsUi :
    (ui : Ui)
    → IsUi ui
    → let off = record ui { touch_audit_active = false } in
      IsUi (set_scrim_state (idle_scrim off) off)
unfolding set_scrim_state
audit_off-IsUi ui w = ground arith

pub redraw-IsUi : (ui : Ui) → IsUi ui → IsUi (mark_layers_dirty (broadcast ui))
redraw-IsUi ui w = ground arith

pub audit_ui-IsUi : (v : Bool) (ui : Ui) → IsUi ui → IsUi (audit_ui v ui)
unfolding audit_ui
audit_ui-IsUi true ui w = go (same ui.touch_audit_active true)
  where
    go :
        (unchanged : Bool)
        → IsUi (
            if unchanged
            then ui
            else mark_layers_dirty (
                broadcast (
                  set_scrim_state dimmed
                    (record (close_overlays ui) { touch_audit_active = true }))))
    go true = w
    go false = redraw-IsUi _ (audit_on-IsUi (close_overlays ui) (close_overlays-IsUi ui w))
audit_ui-IsUi false ui w = go (same ui.touch_audit_active false)
  where
    off : Ui
    off = record ui { touch_audit_active = false }

    go :
        (unchanged : Bool)
        → IsUi (
            if unchanged
            then ui
            else mark_layers_dirty (broadcast (set_scrim_state (idle_scrim off) off)))
    go true = w
    go false = redraw-IsUi _ (audit_off-IsUi ui w)
