-- ===== src/Remote/Events.antt =====
-- The events of a shell client's touch and pointer, one after the other (compositor/src/shell/shell_input.c): each press
-- sends at most one request.
use lumo_compositor.Base.{ℕ, Bool, Option, none, some, List, [], ◌∷◌}
use lumo_compositor.Remote.Points.{Point}
use lumo_compositor.Remote.Hand.{
  Hand, touch_down, touch_motion, touch_cancel, pointer_enter, pointer_leave, pointer_motion,
}
use lumo_compositor.Remote.Asks.{Action}
use lumo_compositor.Remote.Release.{Released, sends, touch_up, pointer_button}

-- The calls of the listeners, with the time where it is read.
pub data Event : Type 0 where
  down : ℕ → ℕ → ℕ → Point → Event
  motion : ℕ → Point → Event
  up : ℕ → ℕ → Event
  cancel : Event
  enter : ℕ → Point → Event
  leave : Event
  move : Point → Event
  button : Bool → Event

abbrev pub listed : Option Action → List Action → List Action
listed none later = later
listed (some a) later = a ∷ later

module _ {D : Type 0} (far : ℕ → ℕ → Bool) where
  unfoldable pub handle_event : Event → Hand D → Released D
  unfolding touch_down touch_motion touch_up touch_cancel pointer_enter pointer_leave pointer_motion
      pointer_button
  handle_event (down now surface id p) h = sends none (touch_down now surface id p h)
  handle_event (motion id p) h = sends none (touch_motion id p h)
  handle_event (up now id) h = touch_up far now id h
  handle_event cancel h = sends none (touch_cancel h)
  handle_event (enter surface p) h = sends none (pointer_enter surface p h)
  handle_event leave h = sends none (pointer_leave h)
  handle_event (move p) h = sends none (pointer_motion p h)
  handle_event (button pressed) h = pointer_button pressed h

  -- The requests of the events, in order.
  unfoldable pub requests : List Event → Hand D → List Action
  unfolding handle_event
  requests [] h = []
  requests (e ∷ es) h = listed (handle_event e h).action (requests es (handle_event e h).hand)

  -- The hand behind the events.
  unfoldable pub after_events : List Event → Hand D → Hand D
  unfolding handle_event
  after_events [] h = h
  after_events (e ∷ es) h = after_events es (handle_event e h).hand
