-- ===== src/Layout/PanelLaws.antt =====
-- Where the panels, their buttons and the sidebar's icons of compositor/src/shell/shell_ui.c lie.
use native.Mathlib.Nat.{mul-le-mul_right}
use lumo_compositor.Base.{
  ℕ, ◌+◌, ◌-◌, ◌*◌, ◌/◌, ◌%◌, ◌^◌, ◌≤◌, ◌<◌, ◌⊎◌, true, not, ◌||◌, some, ltb, leb, ◌==◌, ◌≡◌, sym,
  ap, ◌∙◌, arith, some-inj, require-eq-some, >>=-eq-some,
}
use lumo_compositor.CString.{uint32_mod}
use lumo_compositor.Layout.{Rect, clamp_u32, min_u32, max_u32}
use lumo_compositor.Layout.Signed.{pos, SignedRect}
use lumo_compositor.Layout.Panels.{
  quick_settings_panel_rect, quick_settings_button_rect, half_button_width, dropdown_width,
  gesture_handle_rect, handle_width, handle_height, sidebar_app_rect, sidebar_drawer_button_rect,
  app_top,
}

dropdown_fits :
    (part least width : ℕ)
    → dropdown_width part least width + 16 ≤ width ⊎ (dropdown_width part least width ≡ 0)
unfolding max_u32 min_u32
dropdown_fits part least width = ground arith

quick_panel :
    (width height : ℕ) (r : Rect)
    → quick_settings_panel_rect width height ≡ some r
    → (r.x + r.width + 8 ≡ width) × (8 ≤ r.x) × (r.y ≡ 52) × (r.y + r.height ≤ height)
unfolding quick_settings_panel_rect
quick_panel width height r h =
    let sized = require-eq-some (not (width == 0 || leb height 56)) _ h in
    let wide = require-eq-some (not (dropdown_width (width / 2) 200 width == 0)) _ sized.1 in
    let same = some-inj wide.1 in
    let at_x = ap (λ (s : Rect). s.x) same in
    let at_y = ap (λ (s : Rect). s.y) same in
    let as_wide = ap (λ (s : Rect). s.width) same in
    let as_high = ap (λ (s : Rect). s.height) same in
    let fits = dropdown_fits (width / 2) 200 width in
    panel_facts (dropdown_width (width / 2) 200 width) width height r sized.0 wide.0 at_x at_y
      as_wide as_high fits
  where
    panel_facts :
        (w width height : ℕ) (r : Rect)
        → not (width == 0 || leb height 56) ≡ true
        → not (w == 0) ≡ true
        → width - w - 8 ≡ r.x
        → 52 ≡ r.y
        → w ≡ r.width
        → height - 56 ≡ r.height
        → (w + 16 ≤ width) ⊎ (w ≡ 0)
        → (r.x + r.width + 8 ≡ width) × (8 ≤ r.x) × (r.y ≡ 52) × (r.y + r.height ≤ height)
    panel_facts w width height r sized some_width at_x at_y as_wide as_high fits =
        (ground arith, ground arith, ground arith, ground arith)

-- The four buttons of the quick settings lie inside their panel's width, with a margin of 12, and
-- below its upper part; on an output of at least 338 rows they end above its lower edge.
pub quick_settings_button_rect-inside :
    (width height button : ℕ) (panel r : Rect)
    → quick_settings_panel_rect width height ≡ some panel
    → quick_settings_button_rect width height button ≡ some r
    → (panel.x + 12 ≤ r.x)
      × (r.x + r.width + 12 ≤ panel.x + panel.width)
      × (panel.y + 222 ≤ r.y)
      × (338 ≤ height → r.y + r.height ≤ height)
unfolding quick_settings_button_rect
quick_settings_button_rect-inside width height button panel r at_panel h =
    let few = require-eq-some (not (ltb 3 button)) _ h in
    let framed = >>=-eq-some (quick_settings_panel_rect width height) _ few.1 in
    let same_panel : framed.0 ≡ panel = some-inj (sym framed.1 ∙ at_panel) in
    let half : ℕ = half_button_width framed.0 in
    let wide = require-eq-some (not (half == 0)) _ framed.2 in
    let same = some-inj wide.1 in
    let at_x = ap (λ (s : Rect). s.x) same in
    let at_y = ap (λ (s : Rect). s.y) same in
    let as_wide = ap (λ (s : Rect). s.width) same in
    let as_high = ap (λ (s : Rect). s.height) same in
    let frame = quick_panel width height panel at_panel in
    button_facts half height button panel r few.0 wide.0
      (ap (λ (p : Rect). (p.width - 36) / 2) same_panel)
      (ap (λ (p : Rect). p.x + 12 + button % 2 * (half + 12)) (sym same_panel) ∙ at_x)
      (ap (λ (p : Rect). p.y + 222 + button / 2 * (28 + 8)) (sym same_panel) ∙ at_y) as_wide as_high
      frame.2
  where
    button_facts :
        (half height button : ℕ) (panel r : Rect)
        → not (ltb 3 button) ≡ true
        → not (half == 0) ≡ true
        → half ≡ (panel.width - 36) / 2
        → panel.x + 12 + button % 2 * (half + 12) ≡ r.x
        → panel.y + 222 + button / 2 * (28 + 8) ≡ r.y
        → half ≡ r.width
        → 28 ≡ r.height
        → panel.y ≡ 52
        → (panel.x + 12 ≤ r.x)
          × (r.x + r.width + 12 ≤ panel.x + panel.width)
          × (panel.y + 222 ≤ r.y)
          × (338 ≤ height → r.y + r.height ≤ height)
    button_facts half height button panel r few wide same at_x at_y as_wide as_high top =
        let column = mul-le-mul_right {m = button % 2} {n = 1} (half + 12) (omega arith) in
        let low : button ≤ 3 = ground arith in
        let some_half : 0 < half = ground arith in
        (omega arith, omega arith, omega arith, λ tall. omega arith)

-- The icons of the sidebar end above its drawer button.
pub sidebar_app_rect-above_drawer :
    (width height app : ℕ) (r d : SignedRect)
    → sidebar_app_rect width height app ≡ some r
    → sidebar_drawer_button_rect width height ≡ some d
    → (top : ℕ) × (below : ℕ) × (r.top ≡ pos top) × (d.top ≡ pos below) × (top + r.height ≤ below)
unfolding sidebar_app_rect sidebar_drawer_button_rect
sidebar_app_rect-above_drawer width height app r d h k =
    let sized = require-eq-some (not (width == 0 || height == 0)) _ h in
    let room = require-eq-some (not (ltb (height - 60) (app_top height app + 48))) _ sized.1 in
    let high = require-eq-some (not (width == 0 || ltb height 80)) _ k in
    let same_r = some-inj room.1 in
    let same_d = some-inj high.1 in
    let tall : 48 ≡ r.height = ap (λ (s : SignedRect). s.height) same_r in
    (
      app_top height app,
      height - 48 - 12,
      sym (ap (λ (s : SignedRect). s.top) same_r),
      sym (ap (λ (s : SignedRect). s.top) same_d),
      above (app_top height app) height r.height room.0 high.0 tall,
    )
  where
    above :
        (t height n : ℕ)
        → not (ltb (height - 60) (t + 48)) ≡ true
        → not (width == 0 || ltb height 80) ≡ true
        → 48 ≡ n
        → t + n ≤ height - 48 - 12
    above t height n room high tall = ground arith

abbrev centred : ℕ → ℕ → ℕ
centred size part = (size + uint32_mod - part) % uint32_mod / 2

handle_across :
    (width : ℕ)
    → width < 2 ^ 30
    → (112 ≤ width → centred width (handle_width width) + handle_width width ≤ width)
      × (width < 112 → 2 ^ 30 ≤ centred width (handle_width width))
unfolding clamp_u32
handle_across width small = (λ wide. ground arith, λ narrow. ground arith)

handle_down :
    (height : ℕ)
    → height < 2 ^ 30
    → 8 ≤ height
    → centred height (handle_height height) + handle_height height ≤ height
unfolding clamp_u32
handle_down height low high = ground arith

-- The gesture handle lies inside its surface, which is below 2 ^ 30 in both sizes, when that is at
-- least 112 pixels wide and 8 high; on a narrower surface the subtraction wraps, and the handle starts 2 ^ 30 pixels or more to the right.
pub gesture_handle_rect-inside :
    (width height : ℕ) (r : Rect)
    → width < 2 ^ 30
    → height < 2 ^ 30
    → gesture_handle_rect width height ≡ some r
    → (112 ≤ width → r.x + r.width ≤ width)
      × (8 ≤ height → r.y + r.height ≤ height)
      × (width < 112 → 2 ^ 30 ≤ r.x)
unfolding gesture_handle_rect
gesture_handle_rect-inside width height r small low h =
    let sized = require-eq-some (not (width == 0 || height == 0)) _ h in
    let same = some-inj sized.1 in
    let across = handle_across width small in
    let down = handle_down height low in
    let at_x = ap (λ (s : Rect). s.x) same in
    let at_y = ap (λ (s : Rect). s.y) same in
    let as_wide = ap (λ (s : Rect). s.width) same in
    let as_high = ap (λ (s : Rect). s.height) same in
    (
      (λ wide. omega (arith, at_x, as_wide, across.0 wide)),
      (λ high. omega (arith, at_y, as_high, down high)),
      (λ narrow. omega (arith, at_x, across.1 narrow)),
    )
