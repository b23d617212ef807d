-- ===== src/Ui/Gestures.antt =====
-- The edge gestures keep the invariant.
use lumo_compositor.Base.{
  Bool, true, false, ◌||◌, ◌≡◌, refl, ◌∙◌, List, [], ◌∷◌, arith, if◌then◌else◌, Option, none, some,
  map,
}
use lumo_compositor.Ui.{
  Ui, Toplevel, emit, send_close, set_scrim_state, set_keyboard_visible, set_launcher_visible,
  set_sidebar_visible,
}
use lumo_compositor.Ui.Edges.{
  Third, left_third, center_third, right_third, edge_top, edge_left, edge_right, edge_bottom,
  back_layer, home_layer, close_first, close_all, close_windows, show_desktop, disable, close_front,
  dismiss_launcher, dismiss_notifications, dismiss_time_panel, dismiss_quick_settings,
  dismiss_sidebar, dismiss_panels, Closing,
}
use lumo_compositor.Ui.Invariant.{
  IsUi, set_keyboard_visible-IsUi, set_launcher_visible-IsUi, set_sidebar_visible-IsUi,
}
use lumo_compositor.Ui.Setters.{
  quick_settings-IsUi, time_panel-IsUi, notification_panel-IsUi, either-IsUi, audit_ui-IsUi,
}

or-false : {a b : Bool} → a ≡ false → b ≡ false → (a || b) ≡ false
or-false h k = ground arith

pub dismiss_launcher-IsUi : (ui : Ui) → IsUi ui → IsUi (dismiss_launcher ui)
dismiss_launcher-IsUi ui w =
    either-IsUi ui.launcher_visible (set_launcher_visible-IsUi false ui w) w

pub dismiss_notifications-IsUi : (ui : Ui) → IsUi ui → IsUi (dismiss_notifications ui)
dismiss_notifications-IsUi ui w =
    either-IsUi ui.notification_panel_visible (notification_panel-IsUi false ui w) w

pub dismiss_time_panel-IsUi : (ui : Ui) → IsUi ui → IsUi (dismiss_time_panel ui)
dismiss_time_panel-IsUi ui w = either-IsUi ui.time_panel_visible (time_panel-IsUi false ui w) w

pub dismiss_quick_settings-IsUi : (ui : Ui) → IsUi ui → IsUi (dismiss_quick_settings ui)
dismiss_quick_settings-IsUi ui w =
    either-IsUi ui.quick_settings_visible (quick_settings-IsUi false ui w) w

pub dismiss_sidebar-IsUi : (ui : Ui) → IsUi ui → IsUi (dismiss_sidebar ui)
dismiss_sidebar-IsUi ui w = either-IsUi ui.sidebar_visible (set_sidebar_visible-IsUi false ui w) w

pub dismiss_panels-IsUi : (ui : Ui) → IsUi ui → IsUi (dismiss_panels ui)
dismiss_panels-IsUi ui w =
    dismiss_sidebar-IsUi _
      (dismiss_quick_settings-IsUi _ (dismiss_time_panel-IsUi _ (dismiss_notifications-IsUi ui w)))

-- With no launcher and no keyboard the scrim may be hidden.
pub show_desktop-IsUi :
    (ui : Ui)
    → (ui.launcher_visible || ui.keyboard_visible) ≡ false
    → IsUi ui
    → IsUi (show_desktop ui)
unfolding set_scrim_state
show_desktop-IsUi ui h w = ground arith

pub close_front-IsUi :
    (c : Option Closing) (ui : Ui)
    → (ui.launcher_visible || ui.keyboard_visible) ≡ false
    → IsUi ui
    → IsUi (close_front c ui)
close_front-IsUi none ui h w = w
close_front-IsUi (some c) ui h w =
    let closing = emit (send_close c.front) (record ui { toplevels = c.windows }) in
    let w' : IsUi closing = ground arith in show_desktop-IsUi closing h w'

pub back_layer-IsUi : (ui : Ui) → IsUi ui → IsUi (back_layer ui)
unfolding back_layer
back_layer-IsUi ui w = go ui.keyboard_visible ui.launcher_visible refl refl
  where
    go :
        (k l : Bool)
        → ui.keyboard_visible ≡ k
        → ui.launcher_visible ≡ l
        → IsUi (
            if k
            then set_keyboard_visible false ui
            else if l
            then set_launcher_visible false ui
            else close_front (close_first ui.toplevels) ui)
    go true l ek el = set_keyboard_visible-IsUi false ui w
    go false true ek el = set_launcher_visible-IsUi false ui w
    go false false ek el = close_front-IsUi (close_first ui.toplevels) ui (ground arith) w

pub edge_right-IsUi : (ui : Ui) → IsUi ui → IsUi (edge_right ui)
unfolding edge_right
edge_right-IsUi ui w =
    either-IsUi ui.touch_audit_active (audit_ui-IsUi false ui w)
      (back_layer-IsUi (dismiss_panels ui) (dismiss_panels-IsUi ui w))

-- What closing windows leaves alone.
pub close_all_keeps :
    (ts : List Toplevel) (ui : Ui)
    → IsUi ui
    → IsUi (close_all ts ui)
      × ((close_all ts ui).launcher_visible ≡ ui.launcher_visible)
      × ((close_all ts ui).keyboard_visible ≡ ui.keyboard_visible)
unfolding close_all
close_all_keeps [] ui w = (w, refl, refl)
close_all_keeps (t ∷ ts) ui w =
    let w' : IsUi (emit (send_close t.handle) ui) = ground arith in
    close_all_keeps ts (emit (send_close t.handle) ui) w'

pub close_windows-IsUi :
    (ts : List Toplevel) (ui : Ui)
    → (ui.launcher_visible || ui.keyboard_visible) ≡ false
    → IsUi ui
    → IsUi (close_windows ts ui)
close_windows-IsUi [] ui h w = w
close_windows-IsUi (t ∷ ts) ui h w =
    let (kept, l, k) = close_all_keeps (t ∷ ts) ui w in
    let closed = close_all (t ∷ ts) ui in
    let bare = record closed { toplevels = map disable (t ∷ ts) } in
    let w' : IsUi bare = ground arith in show_desktop-IsUi bare (ground arith) w'

pub dismiss_sidebar_keeps :
    (ui : Ui)
    → ((dismiss_sidebar ui).launcher_visible ≡ ui.launcher_visible)
      × ((dismiss_sidebar ui).keyboard_visible ≡ ui.keyboard_visible)
unfolding set_sidebar_visible
dismiss_sidebar_keeps ui = ground arith

pub home_layer-IsUi : (ui : Ui) → IsUi ui → IsUi (home_layer ui)
unfolding home_layer
home_layer-IsUi ui w = go ui.launcher_visible behind.keyboard_visible refl refl
  where
    closed : Ui
    closed = set_launcher_visible false ui

    behind : Ui
    behind = dismiss_sidebar ui

    closed_w : IsUi closed
    closed_w = set_launcher_visible-IsUi false ui w

    behind_w : IsUi behind
    behind_w = dismiss_sidebar-IsUi ui w

    go :
        (l k : Bool)
        → ui.launcher_visible ≡ l
        → behind.keyboard_visible ≡ k
        → IsUi (
            if l
            then (if closed.keyboard_visible then set_keyboard_visible false closed else closed)
            else if k
            then set_keyboard_visible false behind
            else close_windows behind.toplevels behind)
    go true k el ek =
        either-IsUi closed.keyboard_visible (set_keyboard_visible-IsUi false closed closed_w)
          closed_w
    go false true el ek = set_keyboard_visible-IsUi false behind behind_w
    go false false el ek =
        let same_launcher = (dismiss_sidebar_keeps ui).0 ∙ el in
        close_windows-IsUi behind.toplevels behind (or-false same_launcher ek) behind_w

pub edge_bottom-IsUi : (ui : Ui) → IsUi ui → IsUi (edge_bottom ui)
unfolding edge_bottom
edge_bottom-IsUi ui w =
    home_layer-IsUi _ (either-IsUi ui.touch_audit_active (audit_ui-IsUi false ui w) w)

pub edge_top-IsUi : (third : Third) (ui : Ui) → IsUi ui → IsUi (edge_top third ui)
unfolding edge_top
edge_top-IsUi left_third ui w =
    notification_panel-IsUi _ _
      (dismiss_quick_settings-IsUi _ (dismiss_time_panel-IsUi _ (dismiss_launcher-IsUi ui w)))
edge_top-IsUi center_third ui w =
    time_panel-IsUi _ _
      (dismiss_quick_settings-IsUi _ (dismiss_notifications-IsUi _ (dismiss_launcher-IsUi ui w)))
edge_top-IsUi right_third ui w =
    quick_settings-IsUi _ _
      (dismiss_time_panel-IsUi _ (dismiss_notifications-IsUi _ (dismiss_launcher-IsUi ui w)))

pub edge_left-IsUi : (ui : Ui) → IsUi ui → IsUi (edge_left ui)
unfolding edge_left
edge_left-IsUi ui w = either-IsUi ui.touch_audit_active (audit_ui-IsUi false ui w) (
    either-IsUi ui.notification_panel_visible (notification_panel-IsUi false ui w) (
      either-IsUi ui.time_panel_visible (time_panel-IsUi false ui w) (
        either-IsUi ui.quick_settings_visible (quick_settings-IsUi false ui w) (
          either-IsUi ui.launcher_visible (set_launcher_visible-IsUi false ui w)
            (set_sidebar_visible-IsUi true ui w)))))
