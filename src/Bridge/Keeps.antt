-- ===== src/Bridge/Keeps.antt =====
-- What every request keeps of the shell's state (compositor/src/shell/shell_bridge.c), for each predicate that the
-- setters keep and that the start of a program known beforehand keeps.
use lumo_compositor.Base.{
  ℕ, zero, suc, Bool, true, false, ◌||◌, Option, none, some, List, [], ◌∷◌, ◌≡◌, refl, arith,
  get_elem?,
}
use lumo_compositor.CString.{Bytes, codes, str_eq}
use lumo_compositor.CString.Equality.{str_eq_refl}
use lumo_compositor.Frame.{Frame, frame_get_u32}
use lumo_compositor.Layout.Modes.{
  TargetKind, launcher_tile, launcher_close, osk_key, gesture_handle, sidebar_app,
  sidebar_drawer_btn, no_target,
}
use lumo_compositor.Ui.{Ui, hidden, dimmed, emit, launch}
use lumo_compositor.Ui.Closed.{KeepsSetters, either_keeps, set_scrim_state-keeps}
use lumo_compositor.Ui.Edges.{Closing, dismiss_notifications, dismiss_time_panel, dismiss_sidebar}
use lumo_compositor.Ui.Osk.{Answer, accepted, invalid_index, no_text_input_focus, commit_osk_text}
use lumo_compositor.Ui.OskKeeps.{commit_osk_text-keeps}
use lumo_compositor.Bridge.Desk.{Desk, Reply}
use lumo_compositor.Bridge.Targets.{
  launcher_commands, launcher_tile_command, show_window, focus_or_launch, start_command,
  activate_tile, close_panels, hide_keyboard, hide_launcher, go_home, key_reply, activate_key,
  activate, activate_target, number_or, activate_parsed,
}

-- The text stands in the list.
abbrev pub listed : Bytes → List Bytes → Bool
listed text [] = false
listed text (x ∷ xs) = str_eq text x || listed text xs

-- The commands of the launcher's tiles, and that of a new terminal.
abbrev pub is_program : Bytes → Bool
is_program command = listed command (codes "lumo-app:terminal" ∷ launcher_commands)

get_elem?-listed :
    (xs : List Bytes) (i : ℕ) (y : Bytes) → get_elem? xs i ≡ some y → listed y xs ≡ true
get_elem?-listed [] i y h = cc
get_elem?-listed (x ∷ xs) zero y h = ground (arith, str_eq_refl y)
get_elem?-listed (x ∷ xs) (suc i) y h = ground (arith, get_elem?-listed xs i y h)

or_true : (a b : Bool) → b ≡ true → (a || b) ≡ true
or_true a b h = ground arith

pub launcher_tile_command-is_program :
    (i : ℕ) {c : Bytes} → launcher_tile_command i ≡ some c → is_program c ≡ true
unfolding launcher_tile_command
launcher_tile_command-is_program i {c} h = or_true _ _ (get_elem?-listed launcher_commands i c h)

-- What is known of a state, and what a request leaves.
abbrev pub Holds : (Ui → Type 0) → Desk → Type 0
Holds P d = P d.shell.ui

abbrev pub Served : (Ui → Type 0) → Reply → Type 0
Served P r = Holds P r.desk

module _ (P : Ui → Type 0) (keeps : KeepsSetters P)
    (launched : (c : Bytes) (ui : Ui) → is_program c ≡ true → P ui → P (emit (launch c) ui)) where
  pub show_window-keeps : (c : Closing) (d : Desk) → Holds P d → Holds P (show_window c d)
  show_window-keeps c d w =
      keeps.keys.calls _ _ refl (keeps.keys.calls _ _ refl (keeps.windows c.windows _ w))

  focus_or_launch-keeps :
      (o : Option Closing) (command : Bytes) (d : Desk)
      → is_program command ≡ true
      → Holds P d
      → Holds P (focus_or_launch o command d)
  focus_or_launch-keeps none command d known w = launched command _ known w
  focus_or_launch-keeps (some c) command d known w =
      set_scrim_state-keeps P keeps dimmed _ (show_window-keeps c d w)

  start_command-keeps :
      (index : ℕ) (o : Option Bytes) (d : Desk)
      → ((c : Bytes) → o ≡ some c → is_program c ≡ true)
      → Holds P d
      → Holds P (start_command index o d)
  unfolding start_command
  start_command-keeps index none d known w = w
  start_command-keeps index (some c) d known w = focus_or_launch-keeps _ c d (known c refl) w

  activate_tile-keeps : (index : ℕ) (d : Desk) → Holds P d → Served P (activate_tile index d)
  unfolding activate_tile
  activate_tile-keeps index d w = keeps.launcher false _ (
      start_command-keeps index (launcher_tile_command index) d
        (λ c h. launcher_tile_command-is_program index h) w)

  pub close_panels-keeps : (ui : Ui) → P ui → P (close_panels ui)
  close_panels-keeps ui w =
      let a =
        either_keeps P ui.notification_panel_visible (keeps.notification_panel false ui w) w in
      let x = dismiss_notifications ui in
      let b = either_keeps P x.time_panel_visible (keeps.time_panel false x a) a in
      let y = dismiss_time_panel x in
      either_keeps P y.quick_settings_visible (keeps.quick_settings false y b) b

  go_home-keeps : (ui : Ui) → P ui → P (go_home ui)
  unfolding go_home
  go_home-keeps ui w =
      let x = close_panels ui in
      let a = close_panels-keeps ui w in
      let b = either_keeps P x.keyboard_visible (keeps.keys.keyboard false x a) a in
      let y = hide_keyboard x in
      let c = either_keeps P y.launcher_visible (keeps.launcher false y b) b in
      let z = hide_launcher y in
      let e = either_keeps P z.sidebar_visible (keeps.sidebar false z c) c in
      set_scrim_state-keeps P keeps hidden _
        (keeps.keys.calls _ _ refl (keeps.windows _ (dismiss_sidebar z) e))

  key_reply-keeps : (a : Answer) (d : Desk) → Holds P d → Served P (key_reply a d)
  key_reply-keeps accepted d w = w
  key_reply-keeps invalid_index d w = w
  key_reply-keeps no_text_input_focus d w = w

  activate_key-keeps : (index : ℕ) (d : Desk) → Holds P d → Served P (activate_key index d)
  unfolding activate_key
  activate_key-keeps index d w =
      key_reply-keeps (commit_osk_text d.has_text_input d.has_keyboard index d.shell.ui).answer _
        (commit_osk_text-keeps P keeps.keys d.has_text_input d.has_keyboard index d.shell.ui w)

  pub activate-keeps :
      (kind : TargetKind) (index : ℕ) (d : Desk) → Holds P d → Served P (activate kind index d)
  unfolding activate
  activate-keeps launcher_tile index d w = activate_tile-keeps index d w
  activate-keeps launcher_close index d w = keeps.launcher false _ w
  activate-keeps gesture_handle index d w = go_home-keeps _ w
  activate-keeps osk_key index d w = activate_key-keeps index d w
  activate-keeps sidebar_app index d w = w
  activate-keeps sidebar_drawer_btn index d w = w
  activate-keeps no_target index d w = w

  pub activate_target-keeps : (f : Frame) (d : Desk) → Holds P d → Served P (activate_target f d)
  unfolding activate_target
  activate_target-keeps f d w = parsed _
    where
      parsed :
          (o : Option TargetKind)
          → Served P (activate_parsed o (number_or (frame_get_u32 f (codes "index")) 0) d)
      parsed none = w
      parsed (some kind) = activate-keeps kind _ d w
