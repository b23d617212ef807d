-- ===== src/Ui/Traces.antt =====
-- Every operation keeps the invariant, and so does every sequence of operations.
use lumo_compositor.Base.{Bool, true, not, ◌&&◌, all, ◌≡◌, List, [], ◌∷◌, arith}
use lumo_compositor.Ui.{Ui, Toplevel}
use lumo_compositor.Ui.Edges.{none_edge, top, left, right, bottom, edge_action}
use lumo_compositor.Ui.Invariant.{
  IsUi, set_keyboard_visible-IsUi, set_launcher_visible-IsUi, set_sidebar_visible-IsUi,
  sidebar_timeout-IsUi, ack_keyboard_resize-IsUi, osk_toggle_page-IsUi, osk_set_page-IsUi,
}
use lumo_compositor.Ui.Ops.{
  Op, launcher, keyboard, quick_settings, time_panel, notification_panel, sidebar, audit,
  timer_fires, enable_text, commit_text, refresh_text, ack_resize, notify, toggle_page, set_page,
  gesture, press_key, focus, scrim, sets_scrim, apply, run, initial,
}
use lumo_compositor.Ui.Setters.{
  quick_settings-IsUi, time_panel-IsUi, notification_panel-IsUi, push_notification-IsUi,
  refresh-IsUi, text_input_enable-IsUi, text_input_commit-IsUi, focus_surface-IsUi, audit_ui-IsUi,
}
use lumo_compositor.Ui.OskLaws.{commit_osk_text-IsUi}
use lumo_compositor.Ui.Gestures.{edge_top-IsUi, edge_left-IsUi, edge_right-IsUi, edge_bottom-IsUi}

-- Every operation that does not set the scrim by itself keeps the invariant.
pub apply-IsUi : (o : Op) (ui : Ui) → not (sets_scrim o) ≡ true → IsUi ui → IsUi (apply o ui)
unfolding apply edge_action
apply-IsUi (launcher v) ui own w = set_launcher_visible-IsUi v ui w
apply-IsUi (keyboard v) ui own w = set_keyboard_visible-IsUi v ui w
apply-IsUi (quick_settings v) ui own w = quick_settings-IsUi v ui w
apply-IsUi (time_panel v) ui own w = time_panel-IsUi v ui w
apply-IsUi (notification_panel v) ui own w = notification_panel-IsUi v ui w
apply-IsUi (sidebar v) ui own w = set_sidebar_visible-IsUi v ui w
apply-IsUi (audit v) ui own w = audit_ui-IsUi v ui w
apply-IsUi timer_fires ui own w = sidebar_timeout-IsUi ui w
apply-IsUi enable_text ui own w = text_input_enable-IsUi ui w
apply-IsUi (commit_text e) ui own w = text_input_commit-IsUi e ui w
apply-IsUi (refresh_text seat inputs) ui own w = refresh-IsUi seat inputs ui w
apply-IsUi (ack_resize serial) ui own w = ack_keyboard_resize-IsUi serial ui w
apply-IsUi (notify text time) ui own w = push_notification-IsUi text time ui w
apply-IsUi toggle_page ui own w = osk_toggle_page-IsUi ui w
apply-IsUi (set_page n) ui own w = osk_set_page-IsUi n ui w
apply-IsUi (gesture none_edge third) ui own w = w
apply-IsUi (gesture top third) ui own w = edge_top-IsUi third ui w
apply-IsUi (gesture left third) ui own w = edge_left-IsUi ui w
apply-IsUi (gesture right third) ui own w = edge_right-IsUi ui w
apply-IsUi (gesture bottom third) ui own w = edge_bottom-IsUi ui w
apply-IsUi (press_key input keys index) ui own w = commit_osk_text-IsUi input keys index ui w
apply-IsUi (focus app_id) ui own w = focus_surface-IsUi app_id ui w
apply-IsUi (scrim state) ui own w = cc

both_true : (a b : Bool) → (a && b) ≡ true → (a ≡ true) × (b ≡ true)
both_true a b h = ground arith

pub initial-IsUi : (timers : Bool) (windows : List Toplevel) → IsUi (initial timers windows)
initial-IsUi timers windows = ground arith

run-IsUi :
    (os : List Op) (ui : Ui) → all (λ o. not (sets_scrim o)) os ≡ true → IsUi ui → IsUi (run os ui)
unfolding run
run-IsUi [] ui own w = w
run-IsUi (o ∷ os) ui own w =
    let both = both_true (not (sets_scrim o)) _ own in
    run-IsUi os (apply o ui) both.1 (apply-IsUi o ui both.0 w)

-- Whatever sequence of the operations named in Ui/Ops a new compositor goes through, as long as none
-- of them sets the scrim by itself, as set_scrim_state, the home request and the requests that show or
-- hide windows do: the scrim is up while the launcher or the keyboard shows and hidden while neither
-- they nor the audit is on (with the audit on alone nothing is said of it), a pending keyboard resize
-- is that of a visible keyboard and not yet acknowledged, only a visible keyboard is auto-shown, the
-- keyboard's page and serial stay in range, the auto-hide timer is armed only for a visible sidebar,
-- and at most eight notifications are kept.
pub run-initial-IsUi :
    (os : List Op) (timers : Bool) (windows : List Toplevel)
    → all (λ o. not (sets_scrim o)) os ≡ true
    → IsUi (run os (initial timers windows))
run-initial-IsUi os timers windows own =
    run-IsUi os (initial timers windows) own (initial-IsUi timers windows)
