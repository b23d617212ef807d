-- ===== src/Tests/Shell.antt =====
-- The shell's state on concrete inputs.
use lumo_compositor.Base.{
  ℕ, true, false, not, ◌&&◌, ◌||◌, ◌≡◌, refl, List, [], ◌∷◌, ◌++◌, none, some, arith, map,
}
use lumo_compositor.CString.{codes, strstr}
use lumo_compositor.Ui.{
  Ui, Toplevel, Notification, dimmed, modal, set_launcher_visible, set_keyboard_visible,
  set_sidebar_visible, sidebar_timeout, set_scrim_state, ack_keyboard_resize,
}
use lumo_compositor.Ui.TextInput.{
  TextInput, any_enabled, any_disabled, refresh_keyboard_visibility,
  refresh_keyboard_visibility-visible, focus_surface,
}
use lumo_compositor.Ui.Audit.{
  Session, cleared, cleared-IsAudit, IsAudit, audit_note_touch, audit_note_touch-IsAudit,
  audit_hits, audit_hits_complete, no_path, written,
}
use lumo_compositor.Ui.Notifications.{push_all, stored, last_slots, push_all-last_slots}
use lumo_compositor.Ui.Edges.{
  Touch, top, bottom, left_third, center_third, trigger_edge_action, edge_right, edge_bottom,
  edge_action, home_layer, back_layer, close_first,
}
use lumo_compositor.Ui.Panels.{panel, trigger_edge_action-panel}
use lumo_compositor.Ui.Resize.{stale_ack_ignored}
use lumo_compositor.Ui.Home.{open_layers, swipe_right, swipe_right_home}
use lumo_compositor.Ui.Invariant.{IsUi}
use lumo_compositor.Ui.Traces.{run-initial-IsUi}
use lumo_compositor.Ui.Ops.{
  Op, launcher, keyboard, gesture, apply, run, initial, sidebar, timer_fires, focus,
}

abbrev two_windows : List Toplevel
two_windows = record { handle = 1; enabled = false } ∷ record { handle = 2; enabled = true } ∷ []

abbrev boot : Ui
boot = initial true two_windows

abbrev busy : Ui
busy = record boot { keyboard_visible = true; sidebar_visible = true; scrim_state = dimmed }

launcher_over_keyboard :
    let t = set_launcher_visible true busy in
    (t.keyboard_visible ≡ false) × (t.scrim_state ≡ modal) × (t.keyboard_resize_serial ≡ 1)
unfolding set_launcher_visible set_keyboard_visible
launcher_over_keyboard = (refl, refl, refl)

busy_layers : open_layers busy ≡ 3
busy_layers = refl

-- The first swipe hides the sidebar and the keyboard, the second closes the enabled window.
back_twice :
    let t = edge_right (edge_right busy) in
    (t.sidebar_visible ≡ false) × (t.keyboard_visible ≡ false) × (open_layers t ≡ 0)
unfolding edge_right back_layer close_first set_keyboard_visible set_sidebar_visible set_scrim_state
back_twice = (refl, refl, refl)

swipe_right_home_example : open_layers (swipe_right (open_layers busy) busy) ≡ 0
swipe_right_home_example = swipe_right_home busy

abbrev session : List Op
session =
    sidebar true
    ∷ launcher true
    ∷ keyboard true
    ∷ gesture bottom left_third
    ∷ timer_fires
    ∷ launcher false
    ∷ focus (some (codes "lumo-app:messages"))
    ∷ []

-- The terminal's auto-show at the end.
session_auto_shown : (run session (initial true two_windows)).keyboard_auto_shown ≡ true
unfolding run apply edge_action edge_bottom focus_surface sidebar_timeout set_sidebar_visible
    set_launcher_visible set_keyboard_visible strstr home_layer
session_auto_shown = refl

run-initial-IsUi_example : IsUi (run session (initial true two_windows))
run-initial-IsUi_example = run-initial-IsUi session true two_windows refl

stale_ack_ignored_example :
    let first = set_keyboard_visible true boot in
    let last = set_keyboard_visible true (set_keyboard_visible false first) in
    (ack_keyboard_resize first.keyboard_resize_serial last ≡ last)
    × ((ack_keyboard_resize last.keyboard_resize_serial last).keyboard_resize_pending ≡ false)
    × ((ack_keyboard_resize last.keyboard_resize_serial last).keyboard_resize_acked ≡ true)
stale_ack_ignored_example = stale_ack_ignored boot refl (omega arith)

abbrev nine : List Notification
nine =
    map (λ (n : ℕ). record { text = codes "new"; time = n })
      (1 ∷ 2 ∷ 3 ∷ 4 ∷ 5 ∷ 6 ∷ 7 ∷ 8 ∷ 9 ∷ [])

push_all-last_slots_example :
    (push_all nine boot).notifications ≡ last_slots ([] ++ map stored nine)
push_all-last_slots_example = push_all-last_slots [] nine boot refl

abbrev from_top : Touch
from_top = record { capture_edge = top; gesture_triggered = false }

trigger_edge_action-panel_example :
    let t =
      trigger_edge_action false center_third from_top (record boot { launcher_visible = true }) in
    (t.touch.gesture_triggered ≡ true)
    × (t.ui.launcher_visible ≡ false)
    × (panel center_third t.ui ≡ true)
trigger_edge_action-panel_example =
    trigger_edge_action-panel false center_third center_third from_top
      (record boot { launcher_visible = true }) refl refl

abbrev typing : TextInput
typing = record {
  same_seat = true;
  current_enabled = false;
  pending_enabled = true;
  has_focus = true;
}

refresh_keyboard_visibility-visible_example :
    (refresh_keyboard_visibility true (typing ∷ []) boot).keyboard_visible ≡ (
      any_enabled (typing ∷ [])
      || boot.keyboard_visible && boot.keyboard_auto_shown && not (any_disabled (typing ∷ [])))
refresh_keyboard_visibility-visible_example = refresh_keyboard_visibility-visible (typing ∷ []) boot

abbrev auditing : Session
auditing = record { ui = record boot { touch_audit_active = true }; audit = cleared }

audit_note_touch-IsAudit_example :
    IsAudit (audit_note_touch (some 0) (some (codes "panel")) no_path auditing).audit
audit_note_touch-IsAudit_example =
    audit_note_touch-IsAudit (some 0) (some (codes "panel")) no_path auditing (λ e. omega arith)
      cleared-IsAudit

audit_hits_complete_example :
    let t = audit_hits 8 0 none (written (codes "panel.json")) auditing in
    (t.ui.touch_audit_active ≡ false) × (t.audit.completed_mask ≡ 255)
audit_hits_complete_example =
    audit_hits_complete 7 0 none (written (codes "panel.json")) auditing refl refl refl
      cleared-IsAudit
