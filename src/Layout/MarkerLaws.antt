-- ===== src/Layout/MarkerLaws.antt =====
-- A pixel lies in one of the touch audit's markers at most, and the audit finds that one
-- (compositor/src/shell/shell_ui.c, compositor/src/core/touch_audit.c).
use lumo_compositor.Base.{
  ℕ, zero, suc, ◌+◌, ◌/◌, ◌≤◌, ◌<◌, ◌↔◌, Bool, true, false, not, ◌||◌, Option, none, some, leb,
  ◌==◌, if◌then◌else◌, ◌≡◌, ◌≢◌, refl, sym, ap, ◌∙◌, arith, some-inj, require-eq-some,
}
use lumo_compositor.Layout.{clamp_u32}
use lumo_compositor.Layout.Signed.{ℤ, pos, difference, SignedRect, contains}
use lumo_compositor.Layout.Modes.{audit_point_count}
use lumo_compositor.Layout.Markers.{
  Along, along, point_across, point_down, marker_at, marker_width, marker_height, marker_inset_x,
  marker_inset_y, audit_point_rect, is_hit, detect_from, detect_point,
}

-- Markers on an output of at least 400 by 240 pixels.
along_apart :
    (a b : Along) (width x : ℕ)
    → 400 ≤ width
    → contains x 0 (record {
      left = along a width (marker_inset_x width) (marker_width width / 2);
      top = pos 0;
      width = marker_width width;
      height = 1;
    })
      ≡ true
    → contains x 0 (record {
      left = along b width (marker_inset_x width) (marker_width width / 2);
      top = pos 0;
      width = marker_width width;
      height = 1;
    })
      ≡ true
    → a ≡ b
unfolding along difference clamp_u32
along_apart a b width x wide at_a at_b = ground arith

down_apart :
    (a b : Along) (height y : ℕ)
    → 240 ≤ height
    → contains 0 y (record {
      left = pos 0;
      top = along a height (marker_inset_y height) (marker_height height / 2);
      width = 1;
      height = marker_height height;
    })
      ≡ true
    → contains 0 y (record {
      left = pos 0;
      top = along b height (marker_inset_y height) (marker_height height / 2);
      width = 1;
      height = marker_height height;
    })
      ≡ true
    → a ≡ b
unfolding along difference clamp_u32
down_apart a b height y high at_a at_b = ground arith

point_of_place :
    (i j : ℕ)
    → i < 8
    → j < 8
    → point_across i ≡ point_across j
    → point_down i ≡ point_down j
    → i ≡ j
unfolding point_across point_down
point_of_place i j low below across down = ground arith

contains-across_down :
    (x y : ℕ) (left top : ℤ) (width height : ℕ)
    → contains x y (record { left = left; top = top; width = width; height = height }) ≡ true
    → (contains x 0 (record { left = left; top = pos 0; width = width; height = 1 }) ≡ true)
      × (contains 0 y (record { left = pos 0; top = top; width = 1; height = height }) ≡ true)
contains-across_down x y left top width height h = (ground arith, ground arith)

marker_unique :
    (width height x y i j : ℕ)
    → 400 ≤ width
    → 240 ≤ height
    → i < 8
    → j < 8
    → contains x y (marker_at width height i) ≡ true
    → contains x y (marker_at width height j) ≡ true
    → i ≡ j
marker_unique width height x y i j wide high low below at_i at_j =
    let in_i =
      contains-across_down x y (marker_at width height i).left (marker_at width height i).top
        (marker_width width) (marker_height height) at_i in
    let in_j =
      contains-across_down x y (marker_at width height j).left (marker_at width height j).top
        (marker_width width) (marker_height height) at_j in
    point_of_place i j low below
      (along_apart (point_across i) (point_across j) width x wide in_i.0 in_j.0)
      (down_apart (point_down i) (point_down j) height y high in_i.1 in_j.1)

marker_there :
    (width height point : ℕ) (r : SignedRect)
    → audit_point_rect width height point ≡ some r
    → (point < 8) × (marker_at width height point ≡ r)
unfolding audit_point_rect
marker_there width height point r h =
    let guard =
      require-eq-some (not (width == 0 || height == 0 || leb audit_point_count point)) _ h in
    (ground (arith, guard.0), some-inj guard.1)

is_hit-some :
    (test : SignedRect → Bool) (o : Option SignedRect)
    → is_hit test o ≡ true
    → (r : SignedRect) × (o ≡ some r) × (test r ≡ true)
is_hit-some test none h = cc
is_hit-some test (some r) h = (r, refl, h)

detect_from-is_hit :
    (hit : SignedRect → Bool) (width height n i k : ℕ)
    → detect_from hit width height n i ≡ some k
    → is_hit hit (audit_point_rect width height k) ≡ true
unfolding detect_from
detect_from-is_hit hit width height zero i k h = cc
detect_from-is_hit hit width height (suc n) i k h =
    go (is_hit hit (audit_point_rect width height i)) refl
      (detect_from-is_hit hit width height n (i + 1) k) h
  where
    go :
        (b : Bool)
        → is_hit hit (audit_point_rect width height i) ≡ b
        → (detect_from hit width height n (i + 1) ≡ some k
            → is_hit hit (audit_point_rect width height k) ≡ true)
        → (if b then some i else detect_from hit width height n (i + 1)) ≡ some k
        → is_hit hit (audit_point_rect width height k) ≡ true
    go true at later found =
        ap (λ j. is_hit hit (audit_point_rect width height j)) (sym (some-inj found)) ∙ at
    go false at later found = later found

false-true : false ≡ true → ⊥
false-true h = cc

detect_from_unique :
    (hit : SignedRect → Bool) (width height n i k : ℕ)
    → ((j : ℕ) → is_hit hit (audit_point_rect width height j) ≡ true → j ≡ k)
    → is_hit hit (audit_point_rect width height k) ≡ true
    → i ≤ k
    → k < i + n
    → detect_from hit width height n i ≡ some k
unfolding detect_from
detect_from_unique hit width height zero i k only at from lt = ground arith
detect_from_unique hit width height (suc n) i k only at from lt =
    go (is_hit hit (audit_point_rect width height i)) refl
      (detect_from_unique hit width height n (i + 1) k only at)
  where
    go :
        (b : Bool)
        → is_hit hit (audit_point_rect width height i) ≡ b
        → (i + 1 ≤ k → k < i + 1 + n → detect_from hit width height n (i + 1) ≡ some k)
        → (if b then some i else detect_from hit width height n (i + 1)) ≡ some k
    go true here later = ap some (only i here)
    go false here later =
        let past : i ≢ k = λ same.
          false-true
            (sym here ∙ ap (λ j. is_hit hit (audit_point_rect width height j)) same ∙ at) in
        later (omega arith) (omega arith)

-- The pixel lies in the marker that is there.
hit_marker :
    (width height x y point : ℕ)
    → is_hit (contains x y) (audit_point_rect width height point) ≡ true
    → (point < 8) × (contains x y (marker_at width height point) ≡ true)
hit_marker width height x y point h =
    let found = is_hit-some (contains x y) (audit_point_rect width height point) h in
    let there = marker_there width height point found.0 found.1 in
    (there.0, ap (contains x y) there.1 ∙ found.2)

-- On an output of at least 400 by 240 pixels, the audit detects a marker at a pixel exactly when the
-- pixel lies in that marker.
pub detect_point_iff :
    (width height x y point : ℕ)
    → 400 ≤ width
    → 240 ≤ height
    → (detect_point (contains x y) width height ≡ some point) ↔ (
        (r : SignedRect) × (audit_point_rect width height point ≡ some r) × (contains x y r ≡ true))
unfolding detect_point
detect_point_iff width height x y point wide high = (
  (λ h.
      is_hit-some (contains x y) (audit_point_rect width height point)
        (detect_from-is_hit (contains x y) width height audit_point_count 0 point h)),
  (λ at. complete at.0 at.1 at.2),
)
  where
    complete :
        (r : SignedRect)
        → audit_point_rect width height point ≡ some r
        → contains x y r ≡ true
        → detect_from (contains x y) width height audit_point_count 0 ≡ some point
    complete r there inside =
        let hit : is_hit (contains x y) (audit_point_rect width height point) ≡ true =
          ap (is_hit (contains x y)) there ∙ inside in
        let here = hit_marker width height x y point hit in
        detect_from_unique (contains x y) width height audit_point_count 0 point
          (λ j other.
            let there_j = hit_marker width height x y j other in
            marker_unique width height x y j point wide high there_j.0 here.0 there_j.1 here.1)
          hit (omega arith) (omega (arith, here.0))
