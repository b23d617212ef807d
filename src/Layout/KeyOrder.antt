-- ===== src/Layout/KeyOrder.antt =====
-- The keys of compositor/src/shell/shell_osk.c do not cover one another, but for SPACE and ENTER.
use mathlib.Core.Path.{subst}
use native.Mathlib.Nat.{mul-le-mul_right}
use lumo_compositor.Base.{
  ℕ, ◌+◌, ◌-◌, ◌*◌, ◌≤◌, ◌<◌, inl, inr, some, some-inj, ◌≡◌, ◌≢◌, refl, sym, ap, ◌∙◌, arith,
}
use lumo_compositor.Layout.{Rect, Follows}
use lumo_compositor.Layout.Keys.{
  Position, Cell, row_col_for_index, find_row, key_cell, key_gap, key_row_height, key_unit_width,
  osk_key_rect,
}
use lumo_compositor.Layout.KeyCells.{IsCell, CellFollows, key_cell-IsCell, key_cell-CellFollows}
use lumo_compositor.Layout.KeyRects.{
  CellRect, osk_key_rect-FromCell, cell_rect-CellRect, gap_le_unit, units_le, row_start,
}

right_of :
    (start p k col q end g u : ℕ)
    → g ≤ u
    → p + k + ((col + (k - 1)) - end) ≤ q
    → 1 ≤ k
    → start + p * u + col * g + (u * k + g * (k - 1)) ≤ start + q * u + end * g
right_of start p k col q end g u small fits some_units =
    omega (arith, units_le (p + k) q (col + (k - 1)) end u g small fits)

same_unit :
    (width : ℕ) (c d : Cell)
    → c.columns ≡ d.columns
    → c.row_units ≡ d.row_units
    → (key_unit_width width c ≡ key_unit_width width d)
      × (row_start width (key_unit_width width c) c ≡ row_start width (key_unit_width width d) d)
same_unit width c d columns units = (cc, cc)

rect-Follows :
    (width height : ℕ) (c d : Cell) (r s : Rect)
    → IsCell c
    → CellRect width height (key_unit_width width c) c r
    → CellRect width height (key_unit_width width d) d s
    → CellFollows c d
    → Follows r s
unfolding Follows CellFollows
rect-Follows width height c d r s is_cell at_c at_d (inl h) =
    let same = same_unit width c d h.1 h.2 in
    let u : ℕ = key_unit_width width c in
    inl (
      omega (
        arith,
        at_c.at_x,
        at_d.at_x,
        at_c.as_wide,
        same.1,
        ap (λ t. d.preceding_units * t) same.0,
        right_of (row_start width u c) c.preceding_units c.key_width_units c.col d.preceding_units
            d.col (key_gap width) u (gap_le_unit width c) h.3 is_cell.some_units,
      ))
rect-Follows width height c d r s is_cell at_c at_d (inr h) =
    let q : ℕ = key_row_height width height in
    inr (
      omega (
        arith,
        at_c.at_y,
        at_d.at_y,
        at_c.as_high,
        mul-le-mul_right {m = c.row + 1} {n = d.row} (q + key_gap width) (omega arith),
      ))

-- Of two keys that are on the surface, the later one lies to the right of the earlier one or below
-- it, unless they are the space key and the enter key.
pub osk_key_rect-Follows :
    (width height i j : ℕ) (r s : Rect)
    → osk_key_rect width height i ≡ some r
    → osk_key_rect width height j ≡ some s
    → i < j
    → (i ≡ 30 → j ≢ 31)
    → Follows r s
osk_key_rect-Follows width height i j r s h k lt apart =
    let from = osk_key_rect-FromCell width height i r h in
    let next = osk_key_rect-FromCell width height j s k in
    let c : Cell = key_cell from.position in
    let d : Cell = key_cell next.position in
    rect-Follows width height c d r s (key_cell-IsCell i from.position from.at)
      (cell_rect-CellRect width height (key_unit_width width c) c r from.laid)
      (cell_rect-CellRect width height (key_unit_width width d) d s next.laid)
      (key_cell-CellFollows i j from.position next.position from.at next.at lt apart)

abbrev space_position : Position
space_position = record { row = 3; col = 1; columns = 4 }

abbrev enter_position : Position
enter_position = record { row = 3; col = 2; columns = 4 }

laid_at :
    (width height key : ℕ) (p : Position) (r : Rect)
    → row_col_for_index key ≡ some p
    → osk_key_rect width height key ≡ some r
    → CellRect width height (key_unit_width width (key_cell p)) (key_cell p) r
laid_at width height key p r at h =
    let from = osk_key_rect-FromCell width height key r h in
    let same : from.position ≡ p = some-inj (sym from.at ∙ at) in
    let c : Cell = key_cell from.position in
    subst
      (λ (q : Position). CellRect width height (key_unit_width width (key_cell q)) (key_cell q) r)
      same (cell_rect-CellRect width height (key_unit_width width c) c r from.laid)

-- The space key reaches two gaps beyond the left edge of the enter key beside it.
pub space_key_covers_enter :
    (width height : ℕ) (r s : Rect)
    → osk_key_rect width height 30 ≡ some r
    → osk_key_rect width height 31 ≡ some s
    → (r.y ≡ s.y) × (r.height ≡ s.height) × (r.x ≤ s.x) × (r.x + r.width ≡ s.x + 2 * key_gap width)
unfolding row_col_for_index find_row key_cell
space_key_covers_enter width height r s h k =
    let space = laid_at width height 30 space_position r refl h in
    let enter = laid_at width height 31 enter_position s refl k in
    (omega arith, omega arith, omega arith, omega arith)
