-- ===== src/Ui/Home.antt =====
-- Swiping back leads home.
use lumo_compositor.Base.{
  ℕ, zero, suc, ◌+◌, ◌-◌, ◌≤◌, Bool, true, false, ◌≡◌, refl, ◌∙◌, List, [], ◌∷◌, arith,
  if◌then◌else◌, none, some, Option-cases, inl, inr,
}
use lumo_compositor.Ui.{
  Ui, Toplevel, set_launcher_visible, set_keyboard_visible, set_quick_settings_visible,
  set_time_panel_visible, set_notification_panel_visible, set_sidebar_visible, set_scrim_state,
}
use lumo_compositor.Ui.Audit.{audit_ui}
use lumo_compositor.Ui.Edges.{
  Closing, close_first, back_layer, edge_right, dismiss_notifications, dismiss_time_panel,
  dismiss_quick_settings, dismiss_sidebar, dismiss_panels,
}

abbrev pub one_if : Bool → ℕ
one_if true = 1
one_if false = 0

abbrev pub enabled_count : List Toplevel → ℕ
enabled_count [] = 0
enabled_count (t ∷ ts) = one_if t.enabled + enabled_count ts

abbrev pub panel_count : Ui → ℕ
panel_count ui =
    one_if ui.notification_panel_visible
    + one_if ui.time_panel_visible
    + one_if ui.quick_settings_visible
    + one_if ui.sidebar_visible

-- What stands between the user and the home screen.
abbrev pub open_layers : Ui → ℕ
open_layers ui =
    one_if ui.touch_audit_active
    + one_if ui.keyboard_visible
    + one_if ui.launcher_visible
    + enabled_count ui.toplevels
    + panel_count ui

close_first-enabled_count :
    (ts : List Toplevel) (c : Closing)
    → close_first ts ≡ some c
    → enabled_count ts ≡ enabled_count c.windows + 1
unfolding close_first
close_first-enabled_count [] c h = cc
close_first-enabled_count (t ∷ ts) c h = elim (Option-cases (close_first ts)) [
  | inl missing ↦ ground arith
  | inr (d, found) ↦ ground (arith, close_first-enabled_count ts d found)
]

close_first-none : (ts : List Toplevel) → close_first ts ≡ none → enabled_count ts ≡ 0
unfolding close_first
close_first-none [] h = refl
close_first-none (t ∷ ts) h = elim (Option-cases (close_first ts)) [
  | inl missing ↦ ground (arith, close_first-none ts missing)
  | inr (d, found) ↦ ground arith
]

-- The panels' setters at `false` lower their own flag.
record Dismissed (ui t : Ui) : Type 0 where
  audit_kept : t.touch_audit_active ≡ ui.touch_audit_active
  keyboard_kept : t.keyboard_visible ≡ ui.keyboard_visible
  launcher_kept : t.launcher_visible ≡ ui.launcher_visible
  windows_kept : t.toplevels ≡ ui.toplevels

dismiss_notifications_lem :
    (ui : Ui)
    → let t = dismiss_notifications ui in
      Dismissed ui t
      × (t.notification_panel_visible ≡ false)
      × (t.time_panel_visible ≡ ui.time_panel_visible)
      × (t.quick_settings_visible ≡ ui.quick_settings_visible)
      × (t.sidebar_visible ≡ ui.sidebar_visible)
unfolding set_notification_panel_visible
dismiss_notifications_lem ui = ground arith

dismiss_time_panel_lem :
    (ui : Ui)
    → let t = dismiss_time_panel ui in
      Dismissed ui t
      × (t.time_panel_visible ≡ false)
      × (t.notification_panel_visible ≡ ui.notification_panel_visible)
      × (t.quick_settings_visible ≡ ui.quick_settings_visible)
      × (t.sidebar_visible ≡ ui.sidebar_visible)
unfolding set_time_panel_visible
dismiss_time_panel_lem ui = ground arith

dismiss_quick_settings_lem :
    (ui : Ui)
    → let t = dismiss_quick_settings ui in
      Dismissed ui t
      × (t.quick_settings_visible ≡ false)
      × (t.notification_panel_visible ≡ ui.notification_panel_visible)
      × (t.time_panel_visible ≡ ui.time_panel_visible)
      × (t.sidebar_visible ≡ ui.sidebar_visible)
unfolding set_quick_settings_visible
dismiss_quick_settings_lem ui = ground arith

dismiss_sidebar_lem :
    (ui : Ui)
    → let t = dismiss_sidebar ui in
      Dismissed ui t
      × (t.sidebar_visible ≡ false)
      × (t.notification_panel_visible ≡ ui.notification_panel_visible)
      × (t.time_panel_visible ≡ ui.time_panel_visible)
      × (t.quick_settings_visible ≡ ui.quick_settings_visible)
unfolding set_sidebar_visible
dismiss_sidebar_lem ui = ground arith

panel_count-zero :
    (ui : Ui)
    → ui.notification_panel_visible ≡ false
    → ui.time_panel_visible ≡ false
    → ui.quick_settings_visible ≡ false
    → ui.sidebar_visible ≡ false
    → panel_count ui ≡ 0
panel_count-zero ui n t q s = ground arith

dismiss_panels_lem :
    (ui : Ui) → Dismissed ui (dismiss_panels ui) × (panel_count (dismiss_panels ui) ≡ 0)
dismiss_panels_lem ui =
    let u1 = dismiss_notifications ui in
    let u2 = dismiss_time_panel u1 in
    let u3 = dismiss_quick_settings u2 in
    let (d1, n1, t1, q1, s1) = dismiss_notifications_lem ui in
    let (d2, t2, n2, q2, s2) = dismiss_time_panel_lem u1 in
    let (d3, q3, n3, t3, s3) = dismiss_quick_settings_lem u2 in
    let (d4, s4, n4, t4, q4) = dismiss_sidebar_lem u3 in
    (
      record {
        audit_kept = d4.audit_kept ∙ d3.audit_kept ∙ d2.audit_kept ∙ d1.audit_kept;
        keyboard_kept = d4.keyboard_kept ∙ d3.keyboard_kept ∙ d2.keyboard_kept ∙ d1.keyboard_kept;
        launcher_kept = d4.launcher_kept ∙ d3.launcher_kept ∙ d2.launcher_kept ∙ d1.launcher_kept;
        windows_kept = d4.windows_kept ∙ d3.windows_kept ∙ d2.windows_kept ∙ d1.windows_kept;
      },
      panel_count-zero (dismiss_panels ui) (n4 ∙ n3 ∙ n2 ∙ n1) (t4 ∙ t3 ∙ t2) (q4 ∙ q3) s4,
    )

back_layer-open_layers :
    (ui : Ui)
    → panel_count ui ≡ 0
    → ui.touch_audit_active ≡ false
    → open_layers (back_layer ui) ≡ open_layers ui - 1
unfolding back_layer set_keyboard_visible set_launcher_visible set_scrim_state
back_layer-open_layers ui p a = elim (Option-cases (close_first ui.toplevels)) [
  | inl missing ↦ ground (arith, close_first-none ui.toplevels missing)
  | inr (c, found) ↦ ground (arith, close_first-enabled_count ui.toplevels c found)
]

open_layers-le :
    (ui t : Ui)
    → t.touch_audit_active ≡ ui.touch_audit_active
    → t.keyboard_visible ≡ ui.keyboard_visible
    → t.launcher_visible ≡ ui.launcher_visible
    → t.toplevels ≡ ui.toplevels
    → panel_count t ≡ 0
    → open_layers t ≤ open_layers ui
open_layers-le ui t a k l w p = ground arith

audit_off-open_layers :
    (ui : Ui) → ui.touch_audit_active ≡ true → open_layers (audit_ui false ui) ≡ open_layers ui - 1
unfolding audit_ui set_scrim_state
audit_off-open_layers ui a = ground arith

behind_panels-open_layers :
    (ui : Ui)
    → ui.touch_audit_active ≡ false
    → open_layers (back_layer (dismiss_panels ui)) ≤ open_layers ui - 1
behind_panels-open_layers ui a =
    let (d, none_left) = dismiss_panels_lem ui in
    let t = dismiss_panels ui in
    let fewer = back_layer-open_layers t none_left (d.audit_kept ∙ a) in
    let kept : open_layers t ≤ open_layers ui =
      open_layers-le ui t d.audit_kept d.keyboard_kept d.launcher_kept d.windows_kept none_left in
    omega arith

-- A swipe from the right edge takes away at least one layer, if there is one.
pub edge_right-open_layers : (ui : Ui) → open_layers (edge_right ui) ≤ open_layers ui - 1
unfolding edge_right
edge_right-open_layers ui = go ui.touch_audit_active refl
  where
    go :
        (a : Bool)
        → ui.touch_audit_active ≡ a
        → open_layers (if a then audit_ui false ui else back_layer (dismiss_panels ui))
          ≤ open_layers ui - 1
    go true e = omega (arith, audit_off-open_layers ui e)
    go false e = behind_panels-open_layers ui e

abbrev pub swipe_right : ℕ → Ui → Ui
swipe_right zero ui = ui
swipe_right (suc n) ui = swipe_right n (edge_right ui)

swipe_right-bound : (n : ℕ) (ui : Ui) → open_layers (swipe_right n ui) ≤ open_layers ui - n
swipe_right-bound zero ui = omega arith
swipe_right-bound (suc n) ui =
    omega (arith, swipe_right-bound n (edge_right ui), edge_right-open_layers ui)

-- As many swipes from the right edge as there are open layers (the audit, the keyboard, the launcher,
-- the panels, the sidebar and the enabled windows) leave none of them open.
pub swipe_right_home : (ui : Ui) → open_layers (swipe_right (open_layers ui) ui) ≡ 0
swipe_right_home ui = omega (arith, swipe_right-bound (open_layers ui) ui)
