-- ===== src/Remote/Pages.antt =====
-- The pages of the launcher under swipes (compositor/src/shell/shell_input.c).
use lumo_compositor.Base.{
  ℕ, ◌+◌, ◌-◌, ◌≤◌, Bool, true, false, not, ◌&&◌, none, List, [], ◌∷◌, ◌≡◌, refl, arith,
  if◌then◌else◌, ltb,
}
use lumo_compositor.Remote.Hand.{
  Hand, snap_next, snap_previous, snap_back, is_launcher, set_target, note_target, same_touch,
  touch_cancel,
}
use lumo_compositor.Remote.Asks.{to_left, to_right, last_page, activation}
use lumo_compositor.Remote.Release.{
  sends, snap, snap_where, after_quick, quick_button, lifted, touch_up, pointer_button,
  clear_unless_touch,
}
use lumo_compositor.Remote.HandKeeps.{
  KeepsHands, either_hand, note_target-keeps, after_quick-keeps, touch_down-keeps,
  touch_motion-keeps, pointer_enter-keeps, pointer_leave-keeps, pointer_motion-keeps,
}
use lumo_compositor.Remote.Events.{
  Event, down, motion, up, cancel, enter, leave, move, button, handle_event, after_events,
}

-- The page that shows, and the one that a swipe goes to, are there.
abbrev pub IsPaged : {D : Type 0} → Hand D → Type 0
IsPaged h = (h.launcher_page ≤ last_page h.remote) × (h.launcher_snap_page ≤ last_page h.remote)

lower : (page last : ℕ) → page ≤ last → page - 1 ≤ last
lower page last h = omega arith

either_page :
    (active : Bool) (last page snapped : ℕ)
    → page ≤ last
    → snapped ≤ last
    → (if active then snapped else page) ≤ last
either_page true last page snapped h k = k
either_page false last page snapped h k = h

module _ {D : Type 0} where
  snap-IsPaged : (far : ℕ → ℕ → Bool) (h : Hand D) → IsPaged h → IsPaged (snap_where far h)
  snap-IsPaged far h w =
      let dx = h.launcher_swipe_offset in
      go (to_left far h.configured_width dx) (ltb h.launcher_page (last_page h.remote))
        (to_right far h.configured_width dx && ltb 0 h.launcher_page) refl
    where
      go :
          (left room right : Bool)
          → ltb h.launcher_page (last_page h.remote) ≡ room
          → IsPaged (
              if left && room
              then snap snap_next (h.launcher_page + 1) h
              else if right
              then snap snap_previous (h.launcher_page - 1) h
              else snap snap_back h.launcher_page h)
      go true true right e = (w.0, ground arith)
      go true false true e = (w.0, lower _ _ w.0)
      go true false false e = (w.0, w.0)
      go false room true e = (w.0, lower _ _ w.0)
      go false room false e = (w.0, w.0)

  IsPaged-KeepsHands : KeepsHands (λ (h : Hand D). IsPaged h)
  IsPaged-KeepsHands = record {
    target = λ o h w. w;
    menu = λ visible index h w. w;
    slot = λ mode width height h w. w;
    snapping = λ from start h w. w;
    press = λ now h w. w;
    swipe = λ h w.
        either_hand (λ (x : Hand D). IsPaged x) (is_launcher h.remote.mode) _ h
          (either_page h.launcher_snap_active _ h.launcher_page h.launcher_snap_page w.0 w.1, w.1)
          w;
    drag = λ dx h w. w;
    point = λ p valid h w. w;
    snap = snap-IsPaged;
  }

  abbrev Q : Hand D → Type 0
  Q h = IsPaged h

  cleared-IsPaged :
      (b : Bool) (h : Hand D) → IsPaged h → IsPaged (if b then h else set_target none h)
  cleared-IsPaged b h w = either_hand Q b h (set_target none h) w w

  up-IsPaged :
      (far : ℕ → ℕ → Bool) (b : Bool) (now : ℕ) (h : Hand D)
      → IsPaged h
      → IsPaged (if b then after_quick far now (quick_button h) (lifted h) else sends none h).hand
  up-IsPaged far true now h w =
      after_quick-keeps Q IsPaged-KeepsHands far now (quick_button h) (lifted h) w
  up-IsPaged far false now h w = w

  button-IsPaged :
      (valid on was : Bool) (h : Hand D)
      → IsPaged h
      → IsPaged
          (if not valid
            then sends none h
            else if on
            then sends none (note_target h.pointer (record h { pointer_pressed = true }))
            else if was
            then sends
                (activation h.active_target)
                (clear_unless_touch (record h { pointer_pressed = false }))
            else sends none h).hand
  button-IsPaged false on was h w = w
  button-IsPaged true true was h w =
      note_target-keeps Q IsPaged-KeepsHands h.pointer (record h { pointer_pressed = true }) w
  button-IsPaged true false true h w =
      cleared-IsPaged h.touch_pressed (record h { pointer_pressed = false }) w
  button-IsPaged true false false h w = w

  event-IsPaged :
      (far : ℕ → ℕ → Bool) (e : Event) (h : Hand D)
      → IsPaged h
      → IsPaged (handle_event far e h).hand
  unfolding handle_event touch_up touch_cancel pointer_button
  event-IsPaged far (down now surface id p) h w =
      touch_down-keeps Q IsPaged-KeepsHands now surface id p h w
  event-IsPaged far (motion id p) h w = touch_motion-keeps Q IsPaged-KeepsHands id p h w
  event-IsPaged far (up now id) h w =
      up-IsPaged far (h.touch_pressed && same_touch h.active_touch_id id) now h w
  event-IsPaged far cancel h w =
      cleared-IsPaged h.pointer_pressed (record h { touch_pressed = false; active_touch_id = none })
        w
  event-IsPaged far (enter surface p) h w = pointer_enter-keeps Q IsPaged-KeepsHands surface p h w
  event-IsPaged far leave h w = pointer_leave-keeps Q IsPaged-KeepsHands h w
  event-IsPaged far (move p) h w = pointer_motion-keeps Q IsPaged-KeepsHands p h w
  event-IsPaged far (button on) h w =
      button-IsPaged h.pointer_position_valid on h.pointer_pressed h w

-- Whatever the listeners are called with, and however far a swipe has to go, the launcher's page and the
-- page that a swipe goes to stay among the pages of the tiles that its search leaves.
pub after_events-IsPaged :
    {D : Type 0} (far : ℕ → ℕ → Bool) (es : List Event) (h : Hand D)
    → IsPaged h
    → IsPaged (after_events far es h)
unfolding after_events
after_events-IsPaged far [] h w = w
after_events-IsPaged far (e ∷ es) h w =
    after_events-IsPaged far es (handle_event far e h).hand (event-IsPaged far e h w)
