-- ===== src/Layout/KeyCells.antt =====
-- The keyboard's rows in units: a key fits its row, and two keys of a row do not meet, but for one
-- pair (compositor/src/shell/shell_osk.c).
use lumo_compositor.Base.{
  ℕ, ◌+◌, ◌-◌, ◌*◌, ◌≤◌, ◌<◌, ◌⊎◌, some, ◌==◌, if◌then◌else◌, ◌≡◌, ◌≢◌, arith,
}
use lumo_compositor.Layout.Keys.{Position, Cell, row_col_for_index, find_row, key_cell}

-- The units and the gaps of a key that end in its row.
pub record IsCell (c : Cell) : Type 0 where
  pub in_units :
      c.preceding_units + c.key_width_units + ((c.col + (c.key_width_units - 1)) - (c.columns - 1))
      ≤ c.row_units
  pub low_row : c.row ≤ 3
  pub some_units : 1 ≤ c.key_width_units

pub key_cell-IsCell :
    (key : ℕ) (p : Position) → row_col_for_index key ≡ some p → IsCell (key_cell p)
unfolding row_col_for_index find_row key_cell
key_cell-IsCell key p h = record {
  in_units = ground arith;
  low_row = ground arith;
  some_units = ground arith;
}

-- The second cell is to the right of the first in the same row, or in a row below.
unfoldable pub CellFollows : Cell → Cell → Type 0
CellFollows c d =
    ((c.row ≡ d.row)
      × (c.columns ≡ d.columns)
      × (c.row_units ≡ d.row_units)
      × (c.preceding_units + c.key_width_units + ((c.col + (c.key_width_units - 1)) - d.col)
          ≤ d.preceding_units))
    ⊎ (c.row < d.row)

-- Where the cell of a key stands in one of the first three rows, and in the last.
UpperCell : ℕ → Cell → Type 0
UpperCell key c =
    (c.row < 3)
    × (key ≡ 10 * c.row + c.col)
    × (c.col < 10)
    × (c.preceding_units ≡ c.col)
    × (c.key_width_units ≡ 1)
    × (c.columns ≡ (if c.row == 2 then 9 else 10))
    × (c.row_units ≡ c.columns)

LastCell : ℕ → Cell → Type 0
LastCell key c =
    (c.row ≡ 3)
    × (key ≡ 29 + c.col)
    × (c.columns ≡ 4)
    × (c.row_units ≡ 8)
    × (((c.col ≡ 0) × (c.preceding_units ≡ 0) × (c.key_width_units ≡ 1))
        ⊎ (((c.col ≡ 1) × (c.preceding_units ≡ 1) × (c.key_width_units ≡ 4))
            ⊎ (((c.col ≡ 2) × (c.preceding_units ≡ 5) × (c.key_width_units ≡ 2))
                ⊎ ((c.col ≡ 3) × (c.preceding_units ≡ 7) × (c.key_width_units ≡ 1)))))

key_cell-cases :
    (key : ℕ) (p : Position)
    → row_col_for_index key ≡ some p
    → UpperCell key (key_cell p) ⊎ LastCell key (key_cell p)
unfolding row_col_for_index find_row key_cell UpperCell LastCell
key_cell-cases key p h = ground arith

cells_follow :
    (i j : ℕ) (c d : Cell)
    → UpperCell i c ⊎ LastCell i c
    → UpperCell j d ⊎ LastCell j d
    → i < j
    → (i ≡ 30 → j ≢ 31)
    → CellFollows c d
unfolding UpperCell LastCell CellFollows
cells_follow i j c d h k lt apart = ground arith

pub key_cell-CellFollows :
    (i j : ℕ) (p q : Position)
    → row_col_for_index i ≡ some p
    → row_col_for_index j ≡ some q
    → i < j
    → (i ≡ 30 → j ≢ 31)
    → CellFollows (key_cell p) (key_cell q)
key_cell-CellFollows i j p q h k lt apart =
    cells_follow i j (key_cell p) (key_cell q) (key_cell-cases i p h) (key_cell-cases j q k) lt
      apart
