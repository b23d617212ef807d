-- ===== src/Remote/Levels.antt =====
-- The sliders of volume and brightness: compositor/src/shell/shell_input.c on the client's side, and what
-- compositor/src/shell/shell_bridge.c stores.
use native.Mathlib.Nat.{div-le_of_le-mul}
use lumo_compositor.Base.{
  ℕ, ◌^◌, List, [], ◌∷◌, ◌-◌, ◌*◌, ◌/◌, ◌≤◌, ◌<◌, Bool, true, not, ◌||◌, some, ◌≡◌, refl, ap, ◌∙◌,
  arith, leb, ◌==◌, require-eq-some, some-inj,
}
use lumo_compositor.Layout.{Rect, min_u32, max_u32}
use lumo_compositor.Layout.Signed.{ℤ, pos, negsuc}
use lumo_compositor.Layout.Panels.{quick_settings_panel_rect, dropdown_width}
use lumo_compositor.CString.{codes, decimal, str_eq}
use lumo_compositor.Frame.{
  IsToken, max_key_length, frame_init, copy_token, frame_get, find_field, frame_get_u32,
}
use lumo_compositor.Frame.Fields.{uint32_of_text-decimal}
use lumo_compositor.Stream.{fresh}
use lumo_compositor.Bridge.Desk.{Doubles, Desk, Reply, done}
use lumo_compositor.Bridge.Requests.{clamp_pct, set_volume, request_volume}
use lumo_compositor.Bridge.Serving.{Connection, chunk, would_block, client_event}
use lumo_compositor.Bridge.Windows.{handle_request, find_request, serve}
use lumo_compositor.Bridge.Writing.{SendAnswer}
use lumo_compositor.Remote.{Remote}
use lumo_compositor.Remote.Sent.{
  decimal-IsValue, one_field, one_field-IsFrame, one_added, sent_request,
}
use lumo_compositor.Remote.Senders.{send_request, send_set_u32}
use lumo_compositor.Remote.Points.{slider_pct, clamp_track}

clamp_track_le : (x : ℤ) (track : ℕ) → clamp_track x track ≤ track
clamp_track_le (negsuc a) track = omega arith
clamp_track_le (pos a) track = ground arith

part_le : (c t : ℕ) → c ≤ t → c * 100 / t ≤ 100
part_le c t h = div-le_of_le-mul t (omega arith)

slider_pct_le : (panel : Rect) (x : ℤ) → slider_pct (some panel) x ≤ 100
unfolding slider_pct
slider_pct_le panel x = part_le _ (panel.width - 32) (clamp_track_le _ (panel.width - 32))

-- The slider's track is not empty.
track_above_zero :
    (width height : ℕ) (panel : Rect)
    → 48 < width
    → quick_settings_panel_rect width height ≡ some panel
    → 32 < panel.width
unfolding quick_settings_panel_rect max_u32 min_u32
track_above_zero width height panel wide h =
    let sized = require-eq-some (not (width == 0 || leb height 56)) _ h in
    let some_width = require-eq-some (not (dropdown_width (width / 2) 200 width == 0)) _ sized.1 in
    let same : dropdown_width (width / 2) 200 width ≡ panel.width =
      ap (λ (r : Rect). r.width) (some-inj some_width.1) in
    go (width / 2) (panel.width) same
  where
    go : (half w : ℕ) → dropdown_width half 200 width ≡ w → 32 < w
    go half w e = ground arith

pct-IsToken : IsToken max_key_length (codes "pct")
pct-IsToken = (refl, λ e. cc, omega arith)

volume_handled :
    {D : Type 0} (doubles : Doubles D) (pct id : ℕ) (d : Desk)
    → pct < 2 ^ 32
    → handle_request doubles (one_field (codes "set_volume") id (codes "pct") (decimal pct)) d
      ≡ done (set_volume (some pct) d)
unfolding handle_request find_request serve request_volume frame_get find_field frame_get_u32 str_eq
volume_handled doubles pct id d h = rw (uint32_of_text-decimal pct h) refl

clamp_small : (pct : ℕ) → pct ≤ 100 → clamp_pct pct ≡ pct
clamp_small pct h = ground arith

-- On an output of more than 48 columns the slider of the volume divides by a number above zero, and when
-- its write succeeds the compositor, which reads the bytes from a client between two requests, stores
-- the level of the slider: at most 100, and what is written to the device too.
pub slider-stored :
    {D : Type 0} (doubles : Doubles D) (connected : Bool) (answers : List SendAnswer) (r : Remote D)
    (width height : ℕ) (panel : Rect) (x : ℤ) (c : Connection)
    → 48 < width
    → quick_settings_panel_rect width height ≡ some panel
    → r.next_request_id < 2 ^ 32
    → c.stream ≡ fresh
    → (send_set_u32 connected answers
        (codes "set_volume")
        (codes "pct")
        (slider_pct (some panel) x)
        r).written.answer
      ≡ some true
    → let pct = slider_pct (some panel) x in
      let out =
        (send_set_u32 connected answers (codes "set_volume") (codes "pct") pct r).written.out in
      (32 < panel.width)
      × (pct ≤ 100)
      × (clamp_pct pct ≡ pct)
      × ((client_event doubles (chunk out ∷ would_block ∷ []) c).turn.desk
          ≡ set_volume (some pct) c.turn.desk)
unfolding send_set_u32 send_request frame_init copy_token
slider-stored doubles connected answers r width height panel x c wide at id ready sent =
    let pct = slider_pct (some panel) x in
    let n = r.next_request_id in
    let small = slider_pct_le panel x in
    let fits : pct < 2 ^ 32 = omega arith in
    let handled = volume_handled doubles pct n c.turn.desk fits in
    (
      track_above_zero width height panel wide at,
      small,
      clamp_small pct small,
      sent_request doubles connected answers _
            (one_field (codes "set_volume") n (codes "pct") (decimal pct)) c
            (one_added (codes "set_volume") (codes "pct") n pct pct-IsToken fits)
            (one_field-IsFrame _ _ _ n id (refl, λ e. cc, omega arith) pct-IsToken
              (decimal-IsValue pct fits))
            (omega arith) refl ready (ap (λ (z : Reply). z.ending) handled) sent
          ∙ ap (λ (z : Reply). z.desk) handled,
    )
