-- ===== src/Remote/Taps.antt =====
-- A tap: a touch that goes down and up at one place (compositor/src/shell/shell_input.c).
use lumo_compositor.Base.{
  ℕ, ◌<◌, ◌^◌, List, [], ◌∷◌, Bool, true, false, not, ◌&&◌, ◌||◌, none, some, ◌≡◌, refl, ap, ◌∙◌,
  arith, if◌then◌else◌, ◌==◌, require-eq-some,
}
use lumo_compositor.Layout.Signed.{pos}
use lumo_compositor.Layout.Targets.{Target, target_with_query}
use lumo_compositor.Stream.{fresh}
use lumo_compositor.Bridge.Desk.{Doubles}
use lumo_compositor.Bridge.Serving.{Connection, chunk, would_block, client_event}
use lumo_compositor.Bridge.Targets.{activate}
use lumo_compositor.Bridge.Writing.{SendAnswer}
use lumo_compositor.Remote.Perform.{perform}
use lumo_compositor.Remote.Served.{send_activate_target-activates}
use lumo_compositor.Remote.Points.{Point, status_button_hit}
use lumo_compositor.Remote.Hand.{
  Hand, is_launcher, is_sidebar, same_touch, set_target, note_target, pressed_at, touch_down,
  target_under, start_swipe, press_sidebar, note_down, panel_over_home,
}
use lumo_compositor.Remote.Asks.{ask_activate, activation}
use lumo_compositor.Remote.Release.{
  Released, on_search_bar, touch_up, release_target, after_quick, quick_button, lifted, sends,
  release_on, swipe_or_target, ends_swipe, at_home,
}

pub either_left : {A : Type 0} (b : Bool) (x y : A) → b ≡ false → (if b then x else y) ≡ y
either_left true x y e = cc
either_left false x y e = refl

pub either_right : {A : Type 0} (b : Bool) (x y : A) → b ≡ true → (if b then x else y) ≡ x
either_right true x y e = refl
either_right false x y e = cc

both_false : (a b : Bool) → b ≡ false → (a && b) ≡ false
both_false true b e = e
both_false false b e = refl

first_false : (a b : Bool) → a ≡ false → (a && b) ≡ false
first_false true b e = cc
first_false false b e = refl

neither : (a b : Bool) → a ≡ false → b ≡ false → (a || b) ≡ false
neither a b h k = ground arith

not-true : (b : Bool) → not b ≡ true → b ≡ false
not-true true h = cc
not-true false h = refl

pub same_id : (id : ℕ) → (id == id) ≡ true
same_id id = ground arith

module _ {D : Type 0} where
  pub quick_none : (g : Hand D) → g.remote.quick_settings_visible ≡ false → quick_button g ≡ none
  unfolding status_button_hit
  quick_none g e = rw e refl

  -- Where a touch on a target finds the hand.
  abbrev touched : ℕ → ℕ → Point → Target → Hand D → Hand D
  touched now id p t h = start_swipe (press_sidebar now (set_target (some t) (pressed_at id p h)))

  down_touched :
      (now surface id : ℕ) (p : Point) (h : Hand D) (t : Target)
      → h.remote.unified ≡ false
      → panel_over_home h.remote ≡ false
      → (h.configured_width == 0 || h.configured_height == 0) ≡ false
      → target_under p h ≡ some t
      → touch_down now surface id p h ≡ touched now id p t h
  unfolding touch_down note_target
  down_touched now surface id p h t one bare sized hit =
      let g = pressed_at id p h in
      ap (λ (x : Hand D). start_swipe (press_sidebar now (note_down x)))
        (either_left h.remote.unified _ g one)
      ∙ ap (λ (x : Hand D). start_swipe (press_sidebar now x))
          (either_left (panel_over_home h.remote) _ (note_target p g) bare
            ∙ either_left (h.configured_width == 0 || h.configured_height == 0) _
                (set_target (target_under p h) g) sized
            ∙ ap (λ o. set_target o g) hit)

  -- What a release finds when it activates the target.
  record IsTap (id : ℕ) (t : Target) (k : Hand D) : Type 0 where
    down : (k.touch_pressed && same_touch k.active_touch_id id) ≡ true
    no_quick : k.remote.quick_settings_visible ≡ false
    no_time : k.remote.time_panel_visible ≡ false
    no_search : on_search_bar k ≡ false
    target : k.active_target ≡ some t
    no_sidebar : is_sidebar k.remote.mode ≡ false
    no_swipe : ends_swipe k ≡ false

  up_taps :
      (far : ℕ → ℕ → Bool) (now id : ℕ) (t : Target) (k : Hand D)
      → IsTap id t k
      → (touch_up far now id k).action ≡ some (ask_activate t)
  unfolding touch_up release_target status_button_hit
  up_taps far now id t k w =
      let g = lifted k in
      ap (λ (r : Released D). r.action)
        (either_right (k.touch_pressed && same_touch k.active_touch_id id) _ (sends none k) w.down
          ∙ ap (λ o. after_quick far now o g) (quick_none g w.no_quick)
          ∙ either_left (on_search_bar g) _ (release_on far now g.active_target g) w.no_search
          ∙ ap (λ o. release_on far now o g) w.target
          ∙ either_left (is_sidebar g.remote.mode) _ (swipe_or_target far now g) w.no_sidebar
          ∙ either_left (ends_swipe g) _ (release_target g) w.no_swipe
          ∙ either_left (at_home g && g.remote.time_panel_visible) _ _ (both_false _ _ w.no_time)
          ∙ either_left (at_home g && g.remote.quick_settings_visible) _ _
              (both_false _ _ w.no_quick))
      ∙ ap activation w.target

  started-IsTap :
      (id : ℕ) (p : Point) (t : Target) (h : Hand D)
      → h.remote.quick_settings_visible ≡ false
      → h.remote.time_panel_visible ≡ false
      → on_search_bar (record h { pointer = p }) ≡ false
      → is_sidebar h.remote.mode ≡ false
      → IsTap id t (start_swipe (set_target (some t) (pressed_at id p h)))
  started-IsTap id p t h quick time bar side = go (is_launcher h.remote.mode) refl
    where
      g : Hand D
      g = set_target (some t) (pressed_at id p h)

      begun : Hand D
      begun = record g {
        launcher_page = if h.launcher_snap_active then h.launcher_snap_page else h.launcher_page;
        launcher_snap_active = false;
        launcher_swipe_x = p.x;
        launcher_swipe_offset = pos 0;
        launcher_swiping = false;
      }

      go : (b : Bool) → is_launcher h.remote.mode ≡ b → IsTap id t (if b then begun else g)
      go true e = record {
        down = same_id id;
        no_quick = quick;
        no_time = time;
        no_search = bar;
        target = refl;
        no_sidebar = side;
        no_swipe = both_false _ false refl;
      }
      go false e = record {
        down = same_id id;
        no_quick = quick;
        no_time = time;
        no_search = bar;
        target = refl;
        no_sidebar = side;
        no_swipe = first_false _ _ (first_false _ _ e);
      }

-- A tap of a surface with its own process, with no panel open below the status bar, on a target outside the
-- search bar and not in the sidebar, sends the request to activate that target.
pub tap-activates :
    {D : Type 0} (far : ℕ → ℕ → Bool) (now later surface id : ℕ) (p : Point) (h : Hand D)
    (t : Target)
    → h.remote.unified ≡ false
    → h.remote.quick_settings_visible ≡ false
    → h.remote.time_panel_visible ≡ false
    → is_sidebar h.remote.mode ≡ false
    → on_search_bar (record h { pointer = p }) ≡ false
    → target_under p h ≡ some t
    → (touch_up far later id (touch_down now surface id p h)).action ≡ some (ask_activate t)
unfolding target_with_query
tap-activates {D} far now later surface id p h t one quick time side bar hit =
    let sized = require-eq-some (not (h.configured_width == 0 || h.configured_height == 0)) _ hit in
    let bare =
      both_false (is_launcher h.remote.mode && not h.remote.launcher_visible) _
        (neither h.remote.quick_settings_visible h.remote.time_panel_visible quick time) in
    let g = set_target (some t) (pressed_at id p h) in
    let reached =
      down_touched now surface id p h t one bare (not-true _ sized.0) hit
      ∙ ap (λ (x : Hand D). start_swipe x) (either_left (is_sidebar h.remote.mode) _ g side) in
    ap (λ (k : Hand D). (touch_up far later id k).action) reached
    ∙ up_taps far later id t (start_swipe g) (started-IsTap id p t h quick time bar side)

-- A tap of a surface with its own process, with no panel open below the status bar, on a target outside the
-- search bar and not in the sidebar, sends the request to activate that target; when the write succeeds,
-- the compositor, which reads the bytes from a client between two requests, does what it does for that
-- kind of target and that index.
pub tap-reaches :
    {D : Type 0} (doubles : Doubles D) (far : ℕ → ℕ → Bool) (now later surface id : ℕ) (p : Point)
    (h : Hand D) (t : Target) (connected : Bool) (answers : List SendAnswer) (c : Connection)
    → h.remote.unified ≡ false
    → h.remote.quick_settings_visible ≡ false
    → h.remote.time_panel_visible ≡ false
    → is_sidebar h.remote.mode ≡ false
    → on_search_bar (record h { pointer = p }) ≡ false
    → target_under p h ≡ some t
    → t.index < 2 ^ 32
    → h.remote.next_request_id < 2 ^ 32
    → c.stream ≡ fresh
    → (perform connected answers (ask_activate t) h.remote).written.answer ≡ some true
    → let out = (perform connected answers (ask_activate t) h.remote).written.out in
      ((touch_up far later id (touch_down now surface id p h)).action ≡ some (ask_activate t))
      × ((client_event doubles (chunk out ∷ would_block ∷ []) c).turn.desk
          ≡ (activate t.kind t.index c.turn.desk).desk)
unfolding perform
tap-reaches doubles far now later surface id p h t connected answers c one quick time side bar hit
      small fits ready sent =
    (
      tap-activates far now later surface id p h t one quick time side bar hit,
      send_activate_target-activates doubles connected answers h.remote t.kind t.index c fits small
          ready sent,
    )
