-- ===== src/Layout/KeyRects.antt =====
-- The keys on the keyboard's surface (compositor/src/shell/shell_osk.c): inside it, and apart.
use lumo_compositor.Base.{
  ℕ, ◌+◌, ◌-◌, ◌*◌, ◌/◌, ◌≤◌, not, ◌||◌, some, leb, ltb, ◌==◌, ◌≡◌, ap, ◌∙◌, arith, some-inj,
  require-eq-some, >>=-eq-some,
}
use native.Mathlib.Nat.{mul-le-mul_right, mul-le-mul_left}
use lumo_compositor.Layout.{
  Rect, IsInside, clamp_u32, max_u32, min_u32, clamp_u32-range, max_u32-least,
}
use lumo_compositor.Layout.Keys.{
  Position, Cell, row_col_for_index, key_cell, cell_rect, key_gap, key_row_height, key_unit_width,
  top_bar, osk_key_rect, side_padding, bottom_padding, fits_int, keys_fit, row_padding,
}
use lumo_compositor.Layout.KeyCells.{key_cell-IsCell}

-- What a returned rectangle is.
pub record FromCell (width height key : ℕ) (r : Rect) : Type 0 where
  pub position : Position
  pub at : row_col_for_index key ≡ some position
  pub laid :
      cell_rect width height (key_unit_width width (key_cell position)) (key_cell position) ≡ some r

pub osk_key_rect-FromCell :
    (width height key : ℕ) (r : Rect)
    → osk_key_rect width height key ≡ some r
    → FromCell width height key r
unfolding osk_key_rect
osk_key_rect-FromCell width height key r h =
    let sized = require-eq-some (not (width == 0 || height == 0)) _ h in
    let placed = >>=-eq-some (row_col_for_index key) _ sized.1 in
    let c : Cell = key_cell placed.0 in
    let roomy = require-eq-some (keys_fit width height) _ placed.2 in
    let wide = require-eq-some (not (leb width (row_padding width c))) _ roomy.1 in
    let wider = require-eq-some (not (ltb width (row_padding width c + c.row_units))) _ wide.1 in
    let laid = >>=-eq-some (cell_rect width height (key_unit_width width c) c) _ wider.1 in
    let ranged = require-eq-some (fits_int laid.0) _ laid.2 in
    record { position = placed.0; at = placed.1; laid = laid.1 ∙ ranged.1 }

-- Units and gaps beside each other, where a gap is at most a unit.
pub units_le : (a b g d u k : ℕ) → k ≤ u → a + (g - d) ≤ b → a * u + k * g ≤ b * u + k * d
units_le a b g d u k small h = omega (
  arith,
  mul-le-mul_right {m = a + (g - d)} {n = b} u h,
  mul-le-mul_right {m = g} {n = d + (g - d)} k (omega arith),
  mul-le-mul_left {m = k} {n = u} (g - d) small,
)

-- Where a row starts, and how wide it is.
abbrev pub row_width : ℕ → ℕ → Cell → ℕ
row_width width u c = c.row_units * u + key_gap width * (c.columns - 1)

abbrev pub row_start : ℕ → ℕ → Cell → ℕ
row_start width u c = (width - min_u32 (row_width width u c) width) / 2

pub record CellRect (width height u : ℕ) (c : Cell) (r : Rect) : Type 0 where
  pub at_x : row_start width u c + c.preceding_units * u + c.col * key_gap width ≡ r.x
  pub at_y :
      top_bar height + key_gap width + c.row * (key_row_height width height + key_gap width) ≡ r.y
  pub as_wide : u * c.key_width_units + key_gap width * (c.key_width_units - 1) ≡ r.width
  pub as_high : key_row_height width height ≡ r.height
  pub row_fits : row_width width u c ≤ width

pub cell_rect-CellRect :
    (width height u : ℕ) (c : Cell) (r : Rect)
    → cell_rect width height u c ≡ some r
    → CellRect width height u c r
unfolding cell_rect
cell_rect-CellRect width height u c r h =
    let parts = require-eq-some (not (ltb width (row_width width u c))) _ h in
    let same = some-inj parts.1 in
    record {
      at_x = ap (λ (s : Rect). s.x) same;
      at_y = ap (λ (s : Rect). s.y) same;
      as_wide = ap (λ (s : Rect). s.width) same;
      as_high = ap (λ (s : Rect). s.height) same;
      row_fits = ground (arith, parts.0);
    }

-- A gap is at most a unit's width.
key_gap-range : (width : ℕ) → (6 ≤ key_gap width) × (key_gap width ≤ 10)
key_gap-range width = clamp_u32-range (width / 96) 6 10 (omega arith)

pub gap_le_unit : (width : ℕ) (c : Cell) → key_gap width ≤ key_unit_width width c
gap_le_unit width c =
    let unit : 24 ≤ key_unit_width width c =
      (max_u32-least
        ((width - side_padding width * 2 - key_gap width * (c.columns - 1)) / c.row_units) 24).1 in
    omega (arith, key_gap-range width, unit)

paddings_small :
    (height : ℕ)
    → 260 ≤ height
    → (top_bar height * 10 ≤ height) × (bottom_padding height * 20 ≤ height)
unfolding clamp_u32
paddings_small height high = (ground arith, ground arith)

rows_total :
    (h t b g : ℕ)
    → 260 ≤ h
    → t * 10 ≤ h
    → b * 20 ≤ h
    → g ≤ 10
    → t + b + g * 5 + max_u32 ((h - t - b - g * 5) / 4) 38 * 4 ≤ h
unfolding max_u32
rows_total h t b g high top bottom gap = ground arith

rows_up_to :
    (t b g row q h : ℕ) → row ≤ 3 → t + b + g * 5 + q * 4 ≤ h → t + g + row * (q + g) + q ≤ h
rows_up_to t b g row q h low total = omega (arith, mul-le-mul_right {m = row} {n = 3} (q + g) low)

-- On a surface of at least 260 rows of pixels the four rows of keys fit.
rows_fit :
    (width height row : ℕ)
    → 260 ≤ height
    → row ≤ 3
    → top_bar height
        + key_gap width
        + row * (key_row_height width height + key_gap width)
        + key_row_height width height
      ≤ height
rows_fit width height row high h =
    let small = paddings_small height high in
    let q : ℕ = key_row_height width height in
    rows_up_to (top_bar height) (bottom_padding height) (key_gap width) row q height h (
      rows_total height (top_bar height) (bottom_padding height) (key_gap width) high small.0
        small.1 (key_gap-range width).1)

cell-across :
    (start p k col d units g u width : ℕ)
    → g ≤ u
    → p + k + ((col + (k - 1)) - d) ≤ units
    → start + (units * u + g * d) ≤ width
    → start + p * u + col * g + (u * k + g * (k - 1)) ≤ width
cell-across start p k col d units g u width small fits total =
    omega (arith, units_le (p + k) units (col + (k - 1)) d u g small fits)

row_start-fits :
    (total width : ℕ) → total ≤ width → (width - min_u32 total width) / 2 + total ≤ width
unfolding min_u32
row_start-fits total width h = ground arith

-- Every key of the keyboard lies inside its surface, when the surface is at least 260 pixels high.
pub osk_key_rect-IsInside :
    (width height key : ℕ) (r : Rect)
    → 260 ≤ height
    → osk_key_rect width height key ≡ some r
    → IsInside width height r
osk_key_rect-IsInside width height key r high h =
    let from = osk_key_rect-FromCell width height key r h in
    let c : Cell = key_cell from.position in
    let u : ℕ = key_unit_width width c in
    let fits = key_cell-IsCell key from.position from.at in
    let low = fits.low_row in
    let laid = cell_rect-CellRect width height u c r from.laid in
    let starts = row_start-fits (row_width width u c) width laid.row_fits in
    record {
      across = omega (
        arith,
        laid.at_x,
        laid.as_wide,
        cell-across (row_start width u c) c.preceding_units c.key_width_units c.col (c.columns - 1)
            c.row_units (key_gap width) u width (gap_le_unit width c) fits.in_units starts,
      );
      down = omega (arith, laid.at_y, laid.as_high, rows_fit width height c.row high low);
    }
