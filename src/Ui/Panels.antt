-- ===== src/Ui/Panels.antt =====
-- What the top edge and the launcher do to the rest of the shell.
use lumo_compositor.Base.{Bool, true, false, not, ◌&&◌, ◌≡◌, refl, arith, if◌then◌else◌, []}
use lumo_compositor.Ui.{
  Ui, hidden, modal, set_launcher_visible, set_keyboard_visible, set_quick_settings_visible,
  set_time_panel_visible, set_notification_panel_visible,
}
use lumo_compositor.Ui.Edges.{
  Third, left_third, center_third, right_third, edge_top, dismiss_launcher, Touch, top,
  trigger_edge_action, edge_action,
}

abbrev pub panel : Third → Ui → Bool
panel left_third ui = ui.notification_panel_visible
panel center_third ui = ui.time_panel_visible
panel right_third ui = ui.quick_settings_visible

abbrev pub same_third : Third → Third → Bool
same_third left_third left_third = true
same_third center_third center_third = true
same_third right_third right_third = true
same_third _ _ = false

launcher_keeps_panels :
    (ui : Ui)
    → let t = dismiss_launcher ui in
      (t.launcher_visible ≡ false)
      × (t.notification_panel_visible ≡ ui.notification_panel_visible)
      × (t.time_panel_visible ≡ ui.time_panel_visible)
      × (t.quick_settings_visible ≡ ui.quick_settings_visible)
unfolding set_launcher_visible
launcher_keeps_panels ui = ground arith

edge_top-panel :
    (third q : Third) (ui : Ui)
    → let t = edge_top third ui in
      (t.launcher_visible ≡ false)
      × (panel q t ≡ (if same_third third q then not (panel third ui) else false))
unfolding edge_top set_quick_settings_visible set_time_panel_visible set_notification_panel_visible
edge_top-panel left_third left_third ui = ground (arith, launcher_keeps_panels ui)
edge_top-panel left_third center_third ui = ground (arith, launcher_keeps_panels ui)
edge_top-panel left_third right_third ui = ground (arith, launcher_keeps_panels ui)
edge_top-panel center_third left_third ui = ground (arith, launcher_keeps_panels ui)
edge_top-panel center_third center_third ui = ground (arith, launcher_keeps_panels ui)
edge_top-panel center_third right_third ui = ground (arith, launcher_keeps_panels ui)
edge_top-panel right_third left_third ui = ground (arith, launcher_keeps_panels ui)
edge_top-panel right_third center_third ui = ground (arith, launcher_keeps_panels ui)
edge_top-panel right_third right_third ui = ground (arith, launcher_keeps_panels ui)

-- The action of a touch that began at the top edge and has not been acted on: it is marked as acted on;
-- during the boot splash the launcher and the panels stay as they are; else the launcher is closed, the
-- panel of the third in which the touch began is toggled (left the notifications, center the time panel,
-- right the quick settings), and the two other panels are closed.
pub trigger_edge_action-panel :
    (booting : Bool) (third q : Third) (touch : Touch) (ui : Ui)
    → touch.capture_edge ≡ top
    → touch.gesture_triggered ≡ false
    → let t = trigger_edge_action booting third touch ui in
      (t.touch.gesture_triggered ≡ true)
      × (t.ui.launcher_visible ≡ (booting && ui.launcher_visible))
      × (panel q t.ui ≡ (
          if booting
          then panel q ui
          else if same_third third q
          then not (panel third ui)
          else false))
unfolding trigger_edge_action edge_action
trigger_edge_action-panel true third q touch ui edge first = rw first (refl, refl, refl)
trigger_edge_action-panel false third q touch ui edge first =
    let done = edge_top-panel third q ui in rw first (rw edge (refl, done.0, done.1))

-- Opening the closed launcher hides the keyboard, raises the modal scrim and keeps the toast.
-- Closing the open one clears the toast, leaves the keyboard as it was, and drops the scrim unless the
-- keyboard shows.
pub set_launcher_visible_lem :
    (v : Bool) (ui : Ui)
    → ui.launcher_visible ≡ not v
    → let t = set_launcher_visible v ui in
      (t.launcher_visible ≡ v)
      × (t.keyboard_visible ≡ (not v && ui.keyboard_visible))
      × (t.scrim_state
          ≡ (if v then modal else if ui.keyboard_visible then ui.scrim_state else hidden))
      × (t.toast_message ≡ (if v then ui.toast_message else []))
unfolding set_launcher_visible set_keyboard_visible
set_launcher_visible_lem true ui h = ground arith
set_launcher_visible_lem false ui h = ground arith
