-- ===== src/Layout/Surfaces.antt =====
-- The layer surfaces of compositor/src/shell/shell_ui.c: their size and anchors on an output, and at first.
use lumo_compositor.Base.{
  ℕ, ◌+◌, ◌*◌, ◌/◌, ◌%◌, Bool, true, false, not, ◌||◌, Option, some, ◌==◌, ◌>>◌, require,
}
use lumo_compositor.CString.{Bytes, codes, uint32_mod}
use lumo_compositor.Layout.{clamp_u32}
use lumo_compositor.Layout.Modes.{ShellMode, launcher, osk, gesture, status, background, sidebar}

abbrev anchor_top : ℕ
anchor_top = 1

abbrev anchor_bottom : ℕ
anchor_bottom = 2

abbrev anchor_left : ℕ
anchor_left = 4

abbrev anchor_right : ℕ
anchor_right = 8

-- The margins are always zero.
pub record SurfaceConfig : Type 0 where
  pub mode : ShellMode
  pub name : Bytes
  pub width : ℕ
  pub height : ℕ
  pub anchor : ℕ
  pub exclusive_zone : ℕ
  pub keyboard_interactive : Bool
  pub background_rgba : ℕ

abbrev everywhere : ℕ
everywhere = anchor_top + anchor_bottom + anchor_left + anchor_right

abbrev at_bottom : ℕ
at_bottom = anchor_bottom + anchor_left + anchor_right

abbrev at_top : ℕ
at_top = anchor_top + anchor_left + anchor_right

abbrev at_left : ℕ
at_left = anchor_top + anchor_bottom + anchor_left

-- The clamp's upper bound is the output's height, and below 260 its lower one is above that.
abbrev pub osk_height : ℕ → ℕ
osk_height height = clamp_u32 (height * 2 % uint32_mod / 5) 260 height

abbrev pub gesture_height : ℕ → ℕ
gesture_height height = clamp_u32 (height / 16) 48 80

abbrev pub status_bar_height : ℕ → ℕ
status_bar_height height = clamp_u32 (height / 18) 32 48

unfoldable pub mode_config : ShellMode → ℕ → ℕ → SurfaceConfig
mode_config launcher width height = record {
  mode = launcher;
  name = codes "launcher";
  width = width;
  height = height;
  anchor = everywhere;
  exclusive_zone = 0;
  keyboard_interactive = true;
  background_rgba = 1054754;
}
mode_config osk width height = record {
  mode = osk;
  name = codes "osk";
  width = width;
  height = osk_height height;
  anchor = at_bottom;
  exclusive_zone = osk_height height;
  keyboard_interactive = true;
  background_rgba = 2763310;
}
mode_config gesture width height = record {
  mode = gesture;
  name = codes "gesture";
  width = width;
  height = gesture_height height;
  anchor = at_bottom;
  exclusive_zone = gesture_height height;
  keyboard_interactive = false;
  background_rgba = 0;
}
mode_config status width height = record {
  mode = status;
  name = codes "status";
  width = width;
  height = status_bar_height height;
  anchor = at_top;
  exclusive_zone = status_bar_height height;
  keyboard_interactive = false;
  background_rgba = 0;
}
mode_config background width height = record {
  mode = background;
  name = codes "background";
  width = width;
  height = height;
  anchor = everywhere;
  exclusive_zone = 0;
  keyboard_interactive = false;
  background_rgba = 4281073694;
}
mode_config sidebar width height = record {
  mode = sidebar;
  name = codes "sidebar";
  width = clamp_u32 (width / 10) 72 96;
  height = height;
  anchor = at_left;
  exclusive_zone = 0;
  keyboard_interactive = true;
  background_rgba = 0;
}

unfoldable pub surface_config_for_mode : ShellMode → ℕ → ℕ → Option SurfaceConfig
unfolding mode_config
surface_config_for_mode mode width height = do
  require (not (width == 0 || height == 0))
  some (mode_config mode width height)

-- The size, the anchors and the zone that a surface asks for before it knows its output.
unfoldable pub surface_bootstrap_config : ShellMode → SurfaceConfig
surface_bootstrap_config launcher = record {
  mode = launcher;
  name = codes "launcher";
  width = 0;
  height = 0;
  anchor = everywhere;
  exclusive_zone = 0;
  keyboard_interactive = false;
  background_rgba = 0;
}
surface_bootstrap_config osk = record {
  mode = osk;
  name = codes "osk";
  width = 0;
  height = 1;
  anchor = at_bottom;
  exclusive_zone = 0;
  keyboard_interactive = false;
  background_rgba = 0;
}
surface_bootstrap_config gesture = record {
  mode = gesture;
  name = codes "gesture";
  width = 0;
  height = 60;
  anchor = at_bottom;
  exclusive_zone = 60;
  keyboard_interactive = false;
  background_rgba = 0;
}
surface_bootstrap_config status = record {
  mode = status;
  name = codes "status";
  width = 0;
  height = 36;
  anchor = at_top;
  exclusive_zone = 36;
  keyboard_interactive = false;
  background_rgba = 0;
}
surface_bootstrap_config background = record {
  mode = background;
  name = codes "background";
  width = 0;
  height = 0;
  anchor = everywhere;
  exclusive_zone = 0;
  keyboard_interactive = false;
  background_rgba = 4281073694;
}
surface_bootstrap_config sidebar = record {
  mode = sidebar;
  name = codes "sidebar";
  width = 80;
  height = 0;
  anchor = at_left;
  exclusive_zone = 0;
  keyboard_interactive = false;
  background_rgba = 0;
}
