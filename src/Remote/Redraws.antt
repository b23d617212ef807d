-- ===== src/Remote/Redraws.antt =====
-- When a state frame is drawn without a new layout, what the layout depends on has not changed: the flag
-- `layout_changed` of lumo_shell_client_apply_state_frame of compositor/src/shell/shell_protocol_client.c.
use lumo_compositor.Base.{true, ◌≡◌}
use lumo_compositor.Frame.{Frame}
use lumo_compositor.Remote.{Remote}
use lumo_compositor.Remote.Apply.{on_bar, on_notes}

-- Two copies agree in what the layout of the surface depends on: the panels that the mode shows, and the
-- size of the output.
pub record SameLayout {D : Type 0} (q r : Remote D) : Type 0 where
  pub quick_settings : on_bar r.mode ≡ true → q.quick_settings_visible ≡ r.quick_settings_visible
  pub time_panel : on_bar r.mode ≡ true → q.time_panel_visible ≡ r.time_panel_visible
  pub notification_panel :
      on_notes r.mode ≡ true → q.notification_panel_visible ≡ r.notification_panel_visible
  pub width : q.output_width_hint ≡ r.output_width_hint
  pub height : q.output_height_hint ≡ r.output_height_hint
