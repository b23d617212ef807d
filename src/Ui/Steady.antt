-- ===== src/Ui/Steady.antt =====
-- What every setter keeps of the shell's state, also where the scrim is set from outside.
use lumo_compositor.Base.{ℕ, ◌≤◌, Bool, true, false, ◌≡◌, arith, length}
use lumo_compositor.Ui.{
  Ui, set_launcher_visible, set_keyboard_visible, set_sidebar_visible, set_quick_settings_visible,
  set_time_panel_visible, set_notification_panel_visible, ack_keyboard_resize, osk_toggle_page,
}
use lumo_compositor.Ui.Closed.{KeepsKeys, KeepsSetters}
use lumo_compositor.Ui.Invariant.{IsKeyboard}

-- The keyboard's handshake, the sidebar's timer and the room for notifications.
pub record IsSteady (ui : Ui) : Type 0 where
  pub keyboard :
      IsKeyboard ui.keyboard_visible ui.keyboard_auto_shown ui.keyboard_resize_pending
        ui.keyboard_resize_acked ui.osk_page ui.keyboard_resize_serial
  pub timer_visible : ui.sidebar_timer ≡ true → ui.sidebar_visible ≡ true
  pub notification_room : length ui.notifications ≤ 8

set_keyboard_visible-IsSteady :
    (v : Bool) (ui : Ui) → IsSteady ui → IsSteady (set_keyboard_visible v ui)
unfolding set_keyboard_visible
set_keyboard_visible-IsSteady true ui w = ground arith
set_keyboard_visible-IsSteady false ui w = ground arith

set_launcher_visible-IsSteady :
    (v : Bool) (ui : Ui) → IsSteady ui → IsSteady (set_launcher_visible v ui)
unfolding set_launcher_visible set_keyboard_visible
set_launcher_visible-IsSteady true ui w = ground arith
set_launcher_visible-IsSteady false ui w = ground arith

set_sidebar_visible-IsSteady :
    (v : Bool) (ui : Ui) → IsSteady ui → IsSteady (set_sidebar_visible v ui)
unfolding set_sidebar_visible
set_sidebar_visible-IsSteady true ui w = ground arith
set_sidebar_visible-IsSteady false ui w = ground arith

quick_settings-IsSteady :
    (v : Bool) (ui : Ui) → IsSteady ui → IsSteady (set_quick_settings_visible v ui)
unfolding set_quick_settings_visible
quick_settings-IsSteady v ui w = ground arith

time_panel-IsSteady : (v : Bool) (ui : Ui) → IsSteady ui → IsSteady (set_time_panel_visible v ui)
unfolding set_time_panel_visible
time_panel-IsSteady v ui w = ground arith

notification_panel-IsSteady :
    (v : Bool) (ui : Ui) → IsSteady ui → IsSteady (set_notification_panel_visible v ui)
unfolding set_notification_panel_visible
notification_panel-IsSteady v ui w = ground arith

acks-IsSteady : (n : ℕ) (ui : Ui) → IsSteady ui → IsSteady (ack_keyboard_resize n ui)
unfolding ack_keyboard_resize
acks-IsSteady n ui w = ground arith

pages-IsSteady : (ui : Ui) → IsSteady ui → IsSteady (osk_toggle_page ui)
unfolding osk_toggle_page
pages-IsSteady ui w = ground arith

pub IsSteady-KeepsKeys : KeepsKeys IsSteady
IsSteady-KeepsKeys = record {
  calls = λ e ui quiet w. record {
    keyboard = w.keyboard;
    timer_visible = w.timer_visible;
    notification_room = w.notification_room;
  };
  dirties = λ ui w. record {
    keyboard = w.keyboard;
    timer_visible = w.timer_visible;
    notification_room = w.notification_room;
  };
  typed = λ text ui w. record {
    keyboard = w.keyboard;
    timer_visible = w.timer_visible;
    notification_room = w.notification_room;
  };
  shifts = λ b ui w. record {
    keyboard = w.keyboard;
    timer_visible = w.timer_visible;
    notification_room = w.notification_room;
  };
  pages = pages-IsSteady;
  keyboard = set_keyboard_visible-IsSteady;
}

pub IsSteady-KeepsSetters : KeepsSetters IsSteady
IsSteady-KeepsSetters = record {
  keys = IsSteady-KeepsKeys;
  launcher = set_launcher_visible-IsSteady;
  quick_settings = quick_settings-IsSteady;
  time_panel = time_panel-IsSteady;
  notification_panel = notification_panel-IsSteady;
  sidebar = set_sidebar_visible-IsSteady;
  scrim = λ s ui w. record {
    keyboard = w.keyboard;
    timer_visible = w.timer_visible;
    notification_room = w.notification_room;
  };
  audit_flag = λ v ui w. record {
    keyboard = w.keyboard;
    timer_visible = w.timer_visible;
    notification_room = w.notification_room;
  };
  windows = λ ts ui w. record {
    keyboard = w.keyboard;
    timer_visible = w.timer_visible;
    notification_room = w.notification_room;
  };
  layers = λ ui w. record {
    keyboard = w.keyboard;
    timer_visible = w.timer_visible;
    notification_room = w.notification_room;
  };
  volume = λ pct ui small w. record {
    keyboard = w.keyboard;
    timer_visible = w.timer_visible;
    notification_room = w.notification_room;
  };
  brightness = λ pct ui small w. record {
    keyboard = w.keyboard;
    timer_visible = w.timer_visible;
    notification_room = w.notification_room;
  };
  acks = acks-IsSteady;
}
