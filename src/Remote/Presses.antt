-- ===== src/Remote/Presses.antt =====
-- Each press of a finger or of the pointer sends at most one request (compositor/src/shell/shell_input.c).
use lumo_compositor.Base.{
  ℕ, ◌+◌, ◌-◌, ◌≤◌, Bool, true, false, not, ◌&&◌, Option, none, some, List, [], ◌∷◌, ◌≡◌, refl, ap,
  ◌∙◌, arith, length, if◌then◌else◌, ltb,
}
use lumo_compositor.Remote.Hand.{
  Hand, snap_next, snap_previous, snap_back, is_launcher, set_target, note_target, touch_down,
  same_touch, touch_motion, pointer_enter, pointer_leave, pointer_motion, touch_cancel,
}
use lumo_compositor.Remote.Asks.{Action, to_left, to_right, last_page, activation}
use lumo_compositor.Remote.Release.{
  Released, sends, snap, after_quick, quick_button, lifted, touch_up, pointer_button,
  clear_unless_touch,
}
use lumo_compositor.Remote.HandKeeps.{
  KeepsHands, either_hand, note_target-keeps, after_quick-keeps, touch_down-keeps,
  touch_motion-keeps, pointer_enter-keeps, pointer_leave-keeps, pointer_motion-keeps,
}
use lumo_compositor.Remote.Events.{
  Event, down, motion, up, cancel, enter, leave, move, button, handle_event, listed, requests,
}

-- Whether a touch and a button are down.
abbrev Presses : {D : Type 0} → Bool → Bool → Hand D → Type 0
Presses t q h = (h.touch_pressed ≡ t) × (h.pointer_pressed ≡ q)

module _ {D : Type 0} (t q : Bool) where
  abbrev P : Hand D → Type 0
  P h = Presses t q h

  Presses-KeepsHands : KeepsHands P
  Presses-KeepsHands = record {
    target = λ o h w. w;
    menu = λ visible index h w. w;
    slot = λ mode width height h w. w;
    snapping = λ from start h w. w;
    press = λ now h w. w;
    swipe = λ h w. either_hand P (is_launcher h.remote.mode) _ h w w;
    drag = λ dx h w. w;
    point = λ p valid h w. w;
    snap = λ far h w.
        let dx = h.launcher_swipe_offset in
        let back = snap snap_back h.launcher_page h in
        let previous = snap snap_previous (h.launcher_page - 1) h in
        let right = to_right far h.configured_width dx && ltb 0 h.launcher_page in
        either_hand P
          (to_left far h.configured_width dx && ltb h.launcher_page (last_page h.remote))
          (snap snap_next (h.launcher_page + 1) h) (if right then previous else back) w
          (either_hand P right previous back w w);
  }

abbrev pub one_if : Bool → ℕ
one_if true = 1
one_if false = 0

-- How many of the two are down.
abbrev pub pressed : {D : Type 0} → Hand D → ℕ
pressed h = one_if h.touch_pressed + one_if h.pointer_pressed

-- A press begins.
abbrev pub begins : Event → ℕ
begins (down now surface id p) = 1
begins (button on) = one_if on
begins (motion id p) = 0
begins (up now id) = 0
begins cancel = 0
begins (enter surface p) = 0
begins leave = 0
begins (move p) = 0

abbrev pub presses : List Event → ℕ
presses [] = 0
presses (e ∷ es) = begins e + presses es

abbrev sent_by : {D : Type 0} → Released D → ℕ
sent_by r = length (listed r.action [])

pressed-Presses :
    {D : Type 0} (t q : Bool) (h : Hand D) → Presses t q h → pressed h ≡ one_if t + one_if q
pressed-Presses t q h w =
    ap (λ x. one_if x + one_if h.pointer_pressed) w.0 ∙ ap (λ x. one_if t + one_if x) w.1

length-listed :
    (o : Option Action) (later : List Action)
    → length (listed o later) ≡ length (listed o []) + length later
length-listed none later = omega arith
length-listed (some a) later = omega arith

at_most_one : (o : Option Action) → length (listed o []) ≤ 1
at_most_one none = omega arith
at_most_one (some a) = omega arith

both_true : (a b : Bool) → (a && b) ≡ true → a ≡ true
both_true true b h = refl
both_true false b h = cc

module _ {D : Type 0} (far : ℕ → ℕ → Bool) where
  -- What an event costs: its request and the presses behind it, against the presses before it.
  abbrev IsPaid : ℕ → Hand D → Released D → Type 0
  IsPaid begun h r = sent_by r + pressed r.hand ≤ begun + pressed h

  up-IsPaid :
      (b : Bool) (now : ℕ) (h : Hand D)
      → (b ≡ true → h.touch_pressed ≡ true)
      → IsPaid 0 h (if b then after_quick far now (quick_button h) (lifted h) else sends none h)
  up-IsPaid false now h w = omega arith
  up-IsPaid true now h w =
      let r = after_quick far now (quick_button h) (lifted h) in
      let kept =
        after_quick-keeps (P false h.pointer_pressed) (Presses-KeepsHands false h.pointer_pressed)
          far now (quick_button h) (lifted h) (refl, refl) in
      omega (
        arith,
        at_most_one r.action,
        pressed-Presses false h.pointer_pressed r.hand kept,
        pressed-Presses true h.pointer_pressed h (w refl, refl),
      )

  -- Neither press is new.
  kept-IsPaid :
      (h g : Hand D) → Presses h.touch_pressed h.pointer_pressed g → IsPaid 0 h (sends none g)
  kept-IsPaid h g w = omega (arith, pressed-Presses h.touch_pressed h.pointer_pressed g w)

  cleared-Presses :
      (t q b : Bool) (h : Hand D) → Presses t q h → Presses t q (if b then h else set_target none h)
  cleared-Presses t q b h w = either_hand (P t q) b h (set_target none h) w w

  button-IsPaid :
      (valid on was : Bool) (h : Hand D)
      → h.pointer_pressed ≡ was
      → IsPaid (one_if on) h (
          if not valid
          then sends none h
          else if on
          then sends none (note_target h.pointer (record h { pointer_pressed = true }))
          else if was
          then sends
              (activation h.active_target)
              (clear_unless_touch (record h { pointer_pressed = false }))
          else sends none h)
  button-IsPaid false on was h e = omega arith
  button-IsPaid true true was h e =
      let there = record h { pointer_pressed = true } in
      let kept =
        note_target-keeps (P h.touch_pressed true) (Presses-KeepsHands h.touch_pressed true)
          h.pointer there (refl, refl) in
      omega (arith, pressed-Presses h.touch_pressed true (note_target h.pointer there) kept)
  button-IsPaid true false true h e =
      let there = record h { pointer_pressed = false } in
      let kept = cleared-Presses h.touch_pressed false h.touch_pressed there (refl, refl) in
      omega (
        arith,
        at_most_one (activation h.active_target),
        pressed-Presses h.touch_pressed false (clear_unless_touch there) kept,
        pressed-Presses h.touch_pressed true h (refl, e),
      )
  button-IsPaid true false false h e = omega arith

  event-IsPaid : (e : Event) (h : Hand D) → IsPaid (begins e) h (handle_event far e h)
  unfolding handle_event touch_up touch_cancel pointer_button
  event-IsPaid (down now surface id p) h =
      let q = h.pointer_pressed in
      let kept =
        touch_down-keeps (P true q) (Presses-KeepsHands true q) now surface id p h (refl, refl) in
      omega (arith, pressed-Presses true q (touch_down now surface id p h) kept)
  event-IsPaid (motion id p) h = kept-IsPaid h (touch_motion id p h) (
      touch_motion-keeps _ (Presses-KeepsHands h.touch_pressed h.pointer_pressed) id p h
        (refl, refl))
  event-IsPaid (up now id) h =
      up-IsPaid (h.touch_pressed && same_touch h.active_touch_id id) now h (both_true _ _)
  event-IsPaid cancel h =
      let q = h.pointer_pressed in
      let there = record h { touch_pressed = false; active_touch_id = none } in
      omega (
        arith,
        pressed-Presses false q (touch_cancel h) (cleared-Presses false q q there (refl, refl)),
      )
  event-IsPaid (enter surface p) h = kept-IsPaid h (pointer_enter surface p h) (
      pointer_enter-keeps _ (Presses-KeepsHands h.touch_pressed h.pointer_pressed) surface p h
        (refl, refl))
  event-IsPaid leave h =
      kept-IsPaid h (pointer_leave h) (
        pointer_leave-keeps _ (Presses-KeepsHands h.touch_pressed h.pointer_pressed) h (refl, refl))
  event-IsPaid (move p) h = kept-IsPaid h (pointer_motion p h) (
      pointer_motion-keeps _ (Presses-KeepsHands h.touch_pressed h.pointer_pressed) p h
        (refl, refl))
  event-IsPaid (button on) h = button-IsPaid h.pointer_position_valid on h.pointer_pressed h refl

  -- Whatever the listeners are called with, in whatever order, no more requests are sent than touches and
  -- presses began, with those that were down at the start.
  pub length-requests :
      (es : List Event) (h : Hand D) → length (requests far es h) ≤ presses es + pressed h
  unfolding requests
  length-requests [] h = omega arith
  length-requests (e ∷ es) h =
      let r = handle_event far e h in
      omega (
        arith,
        length-listed r.action (requests far es r.hand),
        event-IsPaid e h,
        length-requests es r.hand,
      )
