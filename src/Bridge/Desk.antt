-- ===== src/Bridge/Desk.antt =====
-- What a request to the bridge reads and changes (compositor/src/shell/shell_bridge.c), and the answer that
-- lumo_shell_bridge_send_result gives. Arithmetic on doubles is an argument, `Doubles`.
use lumo_compositor.Base.{ℕ, Bool, true, false, Option, none, some, ◌>>=◌}
use lumo_compositor.CString.{Bytes, codes}
use lumo_compositor.Frame.{Frame, response, error, frame_init, frame_add_field, frame_format}
use lumo_compositor.Ui.{Ui}
use lumo_compositor.Bridge.{Shell, string_or}

-- strtod with its tests, ==, the test against 0.0, the constant 24.0, and "%.2f".
pub record Doubles (D : Type 0) : Type 0 where
  pub parse : Bytes → Option D
  pub equal : D → D → Bool
  pub is_positive : D → Bool
  pub default_threshold : D
  pub print : D → Bytes

-- A surface that has the focus.
pub data Surface : Type 0 where
  -- the xdg toplevel at the root of its popups
  window_surface : ℕ → Surface
  -- any other surface, and whether xwayland knows and closes it
  other_surface : Bool → Surface

pub record Desk : Type 0 where
  pub shell : Shell
  -- the app_id of the window behind a handle, and whether its surface and resource are there
  pub app_id_of : ℕ → Option Bytes
  pub is_live : ℕ → Bool
  pub keyboard_focus : Option Surface
  pub pointer_focus : Option Surface
  -- whether a text input is focused, and whether the seat has a keyboard
  pub has_text_input : Bool
  pub has_keyboard : Bool
  -- the monotonic clock
  pub now_ms : ℕ

abbrev pub with_ui : Ui → Desk → Desk
with_ui ui d = record d { shell = record d.shell { ui = ui } }

-- The arguments of lumo_shell_bridge_send_result.
pub record Result : Type 0 where
  pub success : Bool
  pub code : Option Bytes
  pub reason : Option Bytes

-- What is called once the answer is out.
pub data Ending : Type 0 where
  no_more then_capture then_stop : Ending

-- What a request has done when it answers, its answer, and what comes behind that.
pub record Reply : Type 0 where
  pub desk : Desk
  pub result : Result
  pub ending : Ending

abbrev pub ok_result : Result
ok_result = record { success = true; code = none; reason = none }

abbrev pub error_result : Option Bytes → Option Bytes → Result
error_result code reason = record { success = false; code = code; reason = reason }

abbrev pub reply : Result → Desk → Reply
reply result d = record { desk = d; result = result; ending = no_more }

abbrev pub done : Desk → Reply
done d = reply ok_result d

abbrev pub fail : Bytes → Bytes → Desk → Reply
fail code reason d = reply (error_result (some code) (some reason)) d

abbrev add_error : Result → Frame → Option Frame
add_error r f = do
  a ← frame_add_field f (codes "status") (codes "error")
  b ← frame_add_field a (codes "code") (string_or r.code (codes "error"))
  frame_add_field b (codes "reason") (string_or r.reason (codes "unknown"))

abbrev pub add_result : Bool → Result → Frame → Option Frame
add_result true r f = frame_add_field f (codes "status") (codes "ok")
add_result false r f = add_error r f

-- The frame of an answer.
unfoldable pub result_frame : Frame → Result → Option Frame
result_frame asked r = do
  f ← frame_init (elim r.success [ true ↦ response | false ↦ error ]) asked.name asked.id
  add_result r.success r f

-- lumo_shell_bridge_send_frame, up to the write.
unfoldable pub sent_text : Option Frame → Option Bytes
sent_text f = do frame ← f; frame_format frame 1024
