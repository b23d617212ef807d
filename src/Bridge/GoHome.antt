-- ===== src/Bridge/GoHome.antt =====
-- The gesture bar's handle, a target of compositor/src/shell/shell_bridge.c, brings the home screen.
use lumo_compositor.Base.{Bool, false, List, [], ◌∷◌, ◌≡◌, refl, ap, ◌∙◌, arith, All, map}
use lumo_compositor.Ui.{
  Ui, Toplevel, hidden, set_launcher_visible, set_keyboard_visible, set_quick_settings_visible,
  set_time_panel_visible, set_notification_panel_visible, set_sidebar_visible, set_scrim_state,
}
use lumo_compositor.Ui.Edges.{
  disable, dismiss_notifications, dismiss_time_panel, dismiss_quick_settings, dismiss_sidebar,
}
use lumo_compositor.Bridge.Targets.{go_home, hide_keyboard, hide_launcher}

-- What shows above the windows.
pub record Flags : Type 0 where
  pub launcher : Bool
  pub keyboard : Bool
  pub quick_settings : Bool
  pub time_panel : Bool
  pub notification_panel : Bool
  pub sidebar : Bool

abbrev pub flags : Ui → Flags
flags ui = record {
  launcher = ui.launcher_visible;
  keyboard = ui.keyboard_visible;
  quick_settings = ui.quick_settings_visible;
  time_panel = ui.time_panel_visible;
  notification_panel = ui.notification_panel_visible;
  sidebar = ui.sidebar_visible;
}

flags-notifications :
    (ui : Ui) → flags (dismiss_notifications ui) ≡ record (flags ui) { notification_panel = false }
unfolding set_notification_panel_visible
flags-notifications ui = ground arith

flags-time_panel :
    (ui : Ui) → flags (dismiss_time_panel ui) ≡ record (flags ui) { time_panel = false }
unfolding set_time_panel_visible
flags-time_panel ui = ground arith

flags-quick_settings :
    (ui : Ui) → flags (dismiss_quick_settings ui) ≡ record (flags ui) { quick_settings = false }
unfolding set_quick_settings_visible
flags-quick_settings ui = ground arith

flags-keyboard : (ui : Ui) → flags (hide_keyboard ui) ≡ record (flags ui) { keyboard = false }
unfolding set_keyboard_visible
flags-keyboard ui = ground arith

flags-launcher : (ui : Ui) → flags (hide_launcher ui) ≡ record (flags ui) { launcher = false }
unfolding set_launcher_visible
flags-launcher ui = ground arith

flags-sidebar : (ui : Ui) → flags (dismiss_sidebar ui) ≡ record (flags ui) { sidebar = false }
unfolding set_sidebar_visible
flags-sidebar ui = ground arith

abbrev pub nothing_shown : Flags
nothing_shown = record {
  launcher = false;
  keyboard = false;
  quick_settings = false;
  time_panel = false;
  notification_panel = false;
  sidebar = false;
}

disabled : (ts : List Toplevel) → All (λ t. t.enabled ≡ false) (map disable ts)
disabled [] = tt
disabled (t ∷ ts) = (refl, disabled ts)

-- Behind the gesture bar's handle no panel, keyboard, launcher or sidebar shows, no window is enabled
-- and the scrim is down.
pub go_home-nothing_shown :
    (ui : Ui)
    → (flags (go_home ui) ≡ nothing_shown)
      × All (λ t. t.enabled ≡ false) (go_home ui).toplevels
      × ((go_home ui).scrim_state ≡ hidden)
unfolding go_home set_scrim_state
go_home-nothing_shown ui =
    let a = dismiss_notifications ui in
    let b = dismiss_time_panel a in
    let c = dismiss_quick_settings b in
    let d = hide_keyboard c in
    let e = hide_launcher d in
    (
      flags-sidebar e
          ∙ ap (λ (x : Flags). record x { sidebar = false })
              (flags-launcher d
                ∙ ap (λ (x : Flags). record x { launcher = false })
                    (flags-keyboard c
                      ∙ ap (λ (x : Flags). record x { keyboard = false })
                          (flags-quick_settings b
                            ∙ ap (λ (x : Flags). record x { quick_settings = false })
                                (flags-time_panel a
                                  ∙ ap (λ (x : Flags). record x { time_panel = false })
                                      (flags-notifications ui))))),
      disabled (dismiss_sidebar e).toplevels,
      refl,
    )
