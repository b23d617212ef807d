-- ===== src/Lib.antt =====
-- Lumo compositor: the shell protocol, the shell's state and its gestures.
--
-- The compositor process keeps the shell's state: which overlays show, the keyboard and its resize
-- handshake, the notifications, the touch audit. The shell's clients (launcher, keyboard, status bar)
-- follow that state over a line protocol on a socket, and send requests back over it. Touches at the
-- edges of the screen change the state.
--
-- CString: what compositor/src/protocol/shell_protocol.c uses of the C library (C strings as lists
--   of bytes without NUL, strcmp, strtoul over 64 bits, %u).
-- Frame: frames and their fields, lumo_shell_protocol_frame_*; Frame.Text, Frame.Fields and Frame.Size
--   prove what building, reading and formatting do.
-- Stream: the stream parser, lumo_shell_protocol_stream_feed and the two line parsers; Stream.Invariant,
--   Stream.Chunks, Stream.Fuel, Stream.Header and Stream.RoundTrip prove its properties.
-- Ui: the fields of lumo_compositor that the shell shows, and the setters of
--   compositor/src/protocol/protocol_setters.c; Ui.Notifications is push_notification, Ui.TextInput the
--   keyboard's rules of compositor/src/protocol/protocol.c, Ui.Audit is compositor/src/core/touch_audit.c, Ui.Edges is
--   lumo_input_touch_point_trigger_edge_action of compositor/src/core/input_touch.c. Ui.Ops lists them as
--   operations. Ui.Invariant, Ui.Setters, Ui.Gestures and Ui.Traces prove the invariant; Ui.Resize,
--   Ui.Panels and Ui.Home the other properties.
--   The operations of Ui.Ops leave out the home request of the bridge and those that show, hide or close
--   windows, but for the scrim that they set.
--   Ui.Osk is lumo_shell_bridge_commit_osk_text of compositor/src/shell/shell_bridge.c, with Ui.OskLaws.
-- Layout: the geometry of the shell. Layout.Keys is compositor/src/shell/shell_osk.c; Layout.Panels, Layout.Tiles,
--   Layout.Search, Layout.Modes, Layout.Surfaces and Layout.Targets are compositor/src/shell/shell_ui.c; Layout.Markers
--   is the touch audit's markers and their detection. The modules whose names end in Laws, and
--   Layout.KeyCells, Layout.KeyRects, Layout.KeyOrder, Layout.KeyTargets and Layout.Tiles, prove their properties.
-- Bridge: the state that compositor/src/shell/shell_bridge.c sends; Bridge.Entries, Bridge.Strings and
--   Bridge.Delivery prove what the text holds, Bridge.Writing is the write loop, and Bridge.Clients the
--   broadcast to all clients. Bridge.Names, Bridge.Desk, Bridge.Targets, Bridge.Requests and
--   Bridge.Windows are lumo_shell_bridge_handle_request_frame, one function for each request, and
--   Bridge.Serving is a client's connection: its frames, its reads and its greeting. Ui.Closed is the
--   interface between the setters and the requests: the predicates that every setter keeps, which
--   Ui.OskKeeps, Bridge.Keeps and Bridge.RequestKeeps carry through all requests, and which Ui.Steady
--   and Bridge.Launches fill. Bridge.Answers, Bridge.Results, Bridge.Answered, Bridge.Traffic,
--   Bridge.Reads and Bridge.GoHome prove what the requests do.
-- Remote: the shell client's copy of the state, struct lumo_shell_client of
--   compositor/src/shell/shell_client_internal.h. Remote.Apply, Remote.Gestures and Remote.State are
--   lumo_shell_client_apply_state_frame of compositor/src/shell/shell_protocol_client.c, Remote.Pump its reads, and
--   Remote.Senders the requests it sends, with lumo_shell_client_activate_target of
--   compositor/src/shell/shell_input.c. Remote.Follows joins it to what Bridge broadcasts, Remote.Sent, Remote.Served
--   and Remote.SentApps join its requests to what Bridge serves, and Remote.Redraws is about when it lays out again.
--   Remote.Points, Remote.Hand, Remote.Asks and Remote.Release are the touch and the pointer of
--   compositor/src/shell/shell_input.c, Remote.Perform the sender of each request and Remote.Events the calls of the
--   listeners. Remote.HandKeeps is the interface between these handlers and the invariants of the hand, which
--   Remote.Presses and Remote.Pages fill; Remote.Taps, Remote.Levels and Remote.Weather follow a tap, a
--   slider and the touch of the weather into the compositor.
-- Profile: the name of the file that a touch audit is saved in, of compositor/src/core/touch_audit.c, with
--   Profile.Names. Launch: the paths and arguments of compositor/src/shell/shell_launch.c, with Launch.Beside.
-- Screenshot: the rows and pixels of compositor/src/tools/screenshot_common.c, with Screenshot.Pixels.
-- Tests: runs on concrete inputs.
--
-- Pointers are never NULL here: the guards against NULL arguments have no counterpart. Numbers are
-- natural numbers; a uint32_t wraps by `% 2 ^ 32` where the source adds. The loop over a header's
-- options takes fuel, one more than the bytes left, which is enough since each round reads at least
-- one byte (Stream.Fuel). Calls into wlroots are recorded as effects; a timer that cannot be made is a
-- field of the state. Doubles have no model: the marker and the third of the screen that a touch of
-- the compositor hits, the test of a rectangle in Layout.Targets, and the fifth of the width that ends
-- a swipe are arguments, and what "%.2f" prints is given as text. The touches of the shell client come
-- as wl_fixed_t, which a double holds exactly: Remote.Points has them as 256ths of a pixel. Sizes of
-- outputs and surfaces are below 2 ^ 30, so the ints made of them do not overflow. What a socket
-- answers is an explicit list. The doubles of a request are an argument (Bridge.Desk.Doubles). What
-- the compositor does to route touches to surfaces, rendering, and the processes behind the request to
-- start one are not modelled.
-- Logging is left out. A client of the broadcast keeps one list of its socket's answers, from which each
-- write to it starts anew.
--
-- A process that an effect starts is named by it: launch has the command, write_volume and
-- write_brightness the level, and capture_screenshot stands for the helper lumo-screenshot.
--
-- Some documents of the repository describe the gestures and the keyboard otherwise than the code does.
-- What is modelled is the code: the handle of the gesture bar goes home and does not toggle the launcher
-- (README.md, Design.md and docs/lumo-gesture-system.md say that it does); the right edge goes back (so
-- docs/lumo-gesture-system.md; README.md and Design.md say that it opens the launcher); the left third of
-- the top edge is that of the notifications (so README.md and docs/lumo-gesture-system.md; Design.md has
-- the time panel there); and the keyboard shows for a text input that is enabled or about to be, focused or
-- not, and stays when it was auto-shown (Design.md asks for focus and enabling); the touch of the weather
-- panel is to open the Weather app, by a comment, and sends a request that is refused.
pub mod Base
pub mod CString
pub mod Frame
pub mod Screenshot
pub mod Stream
pub mod Bridge
pub mod Remote
pub mod Profile
pub mod Layout
pub mod Ui
pub mod Launch
pub mod Tests
