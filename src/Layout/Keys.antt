-- ===== src/Layout/Keys.antt =====
-- The keys of the on-screen keyboard, compositor/src/shell/shell_osk.c: rows, pages and rectangles.
use lumo_compositor.Base.{
  ℕ, ◌+◌, ◌-◌, ◌*◌, ◌/◌, Bool, not, ◌&&◌, ◌||◌, List, [], ◌∷◌, ◌++◌, map, Option, none, some, ltb,
  leb, ◌==◌, if◌then◌else◌, ◌>>=◌, ◌>>◌, require, get_elem?, length,
}
use lumo_compositor.CString.{Bytes, codes}
use lumo_compositor.Layout.{Rect, clamp_u32, max_u32, min_u32}

abbrev pub osk_rows : ℕ
osk_rows = 4

abbrev pub osk_row_columns : List ℕ
osk_row_columns = 10 ∷ 10 ∷ 9 ∷ 4 ∷ []

-- Where a key stands, with the number of its row's columns.
pub record Position : Type 0 where
  pub row : ℕ
  pub col : ℕ
  pub columns : ℕ

-- The loop over the rows, from the row and the index of its first key.
unfoldable pub find_row : List ℕ → ℕ → ℕ → ℕ → Option Position
find_row [] row offset key = none
find_row (columns ∷ rest) row offset key =
    let later = find_row rest (row + 1) (offset + columns) key in
    if ltb key (offset + columns)
    then some (record { row = row; col = key - offset; columns = columns })
    else later

unfoldable pub row_col_for_index : ℕ → Option Position
unfolding find_row
row_col_for_index key = find_row osk_row_columns 0 0 key

abbrev sum : List ℕ → ℕ
sum [] = 0
sum (n ∷ ns) = n + sum ns

abbrev pub osk_key_count : ℕ
osk_key_count = sum osk_row_columns

-- Each byte as a text of its own.
abbrev singles : Bytes → List Bytes
singles bytes = map (λ c. c ∷ []) bytes

-- "\x1b" and what follows it.
abbrev escaped : Bytes → Bytes
escaped cs = 27 ∷ cs

abbrev last_texts : List Bytes
last_texts = (1 ∷ []) ∷ codes "." ∷ codes " " ∷ (10 ∷ []) ∷ escaped [] ∷ []

abbrev last_labels : List Bytes
last_labels = codes "." ∷ codes "SPACE" ∷ codes "ENTER" ∷ codes "v" ∷ []

abbrev texts_alpha : List Bytes
texts_alpha =
    singles (codes "qwertyuiopasdfghjkl") ++ (8 ∷ []) ∷ [] ∷ singles (codes "zxcvbnm") ++ last_texts

abbrev labels_alpha : List Bytes
labels_alpha =
    singles (codes "QWERTYUIOPASDFGHJKL")
    ++ codes "<-" ∷ codes "^" ∷ singles (codes "ZXCVBNM")
    ++ codes "123>" ∷ last_labels

abbrev texts_sym : List Bytes
texts_sym =
    singles (codes "1234567890@#$%&-+()") ++ (8 ∷ []) ∷ [] ∷ singles (codes "!?,;:'/") ++ last_texts

abbrev labels_sym : List Bytes
labels_sym =
    singles (codes "1234567890@#$%&-+()")
    ++ codes "<-" ∷ codes "^" ∷ singles (codes "!?,;:'/")
    ++ codes "TERM" ∷ last_labels

abbrev term_signs : List Bytes
term_signs = singles (b'|' ∷ b'~' ∷ 96 ∷ b'_' ∷ 92 ∷ b'=' ∷ b'[' ∷ b']' ∷ [])

abbrev term_brackets : List Bytes
term_brackets = singles (b'{' ∷ b'}' ∷ 34 ∷ b'<' ∷ b'>' ∷ [])

abbrev texts_term : List Bytes
texts_term =
    escaped [] ∷ (9 ∷ []) ∷ term_signs
    ++ singles (3 ∷ 4 ∷ 26 ∷ 12 ∷ [])
    ++ term_brackets
    ++ (8 ∷ [])
      ∷ []
      ∷ map escaped (
          codes "[A"
          ∷ codes "[B"
          ∷ codes "[D"
          ∷ codes "[C"
          ∷ codes "[5~"
          ∷ codes "[6~"
          ∷ codes "[H"
          ∷ [])
    ++ last_texts

abbrev labels_term : List Bytes
labels_term =
    codes "ESC" ∷ codes "TAB" ∷ term_signs
    ++ codes "C-C" ∷ codes "C-D" ∷ codes "C-Z" ∷ codes "C-L" ∷ term_brackets
    ++ codes "<-"
      ∷ codes "^"
      ∷ codes "UP"
      ∷ codes "DN"
      ∷ codes "LT"
      ∷ codes "RT"
      ∷ codes "PGU"
      ∷ codes "PGD"
      ∷ codes "HOM"
      ∷ codes "ABC"
      ∷ last_labels

abbrev osk_texts : ℕ → List Bytes
osk_texts page = if page == 2 then texts_term else if page == 1 then texts_sym else texts_alpha

abbrev osk_labels : ℕ → List Bytes
osk_labels page = if page == 2 then labels_term else if page == 1 then labels_sym else labels_alpha

-- The count comes from the labels of the page, for the labels and for the texts.
abbrev osk_count : ℕ → ℕ
osk_count page = length (osk_labels page)

unfoldable pub osk_key_label : ℕ → ℕ → Option Bytes
osk_key_label page key = if leb (osk_count page) key then none else get_elem? (osk_labels page) key

unfoldable pub osk_key_text : ℕ → ℕ → Option Bytes
osk_key_text page key = if leb (osk_count page) key then none else get_elem? (osk_texts page) key

-- The lengths that depend on the surface's size only.
abbrev pub key_gap : ℕ → ℕ
key_gap width = clamp_u32 (width / 96) 6 10

abbrev pub top_bar : ℕ → ℕ
top_bar height = clamp_u32 (height / 10) 24 40

abbrev pub bottom_padding : ℕ → ℕ
bottom_padding height = clamp_u32 (height / 20) 8 20

abbrev pub side_padding : ℕ → ℕ
side_padding width = clamp_u32 (width / 24) 12 32

abbrev pub key_row_height : ℕ → ℕ → ℕ
key_row_height width height =
    max_u32
      ((height - top_bar height - bottom_padding height - key_gap width * (osk_rows + 1))
        / osk_rows)
      38

-- A key in units of its row: those in front of it, its own, and those of the row.
pub record Cell : Type 0 where
  pub row : ℕ
  pub col : ℕ
  pub columns : ℕ
  pub row_units : ℕ
  pub key_width_units : ℕ
  pub preceding_units : ℕ

abbrev last_row_width : ℕ → ℕ
last_row_width col = if col == 1 then 4 else if col == 2 then 2 else 1

abbrev last_row_preceding : ℕ → ℕ
last_row_preceding col =
    if col == 0
    then 0
    else if col == 1
    then 1
    else if col == 2
    then 5
    else if col == 3
    then 7
    else col

unfoldable pub key_cell : Position → Cell
key_cell p =
    if p.row == 3
    then record {
      row = p.row;
      col = p.col;
      columns = p.columns;
      row_units = 8;
      key_width_units = last_row_width p.col;
      preceding_units = last_row_preceding p.col;
    }
    else record {
      row = p.row;
      col = p.col;
      columns = p.columns;
      row_units = p.columns;
      key_width_units = 1;
      preceding_units = p.col;
    }

-- The rectangle of a cell, from the width of a unit. A total width above the surface's is refused.
unfoldable pub cell_rect : ℕ → ℕ → ℕ → Cell → Option Rect
cell_rect width height unit_width c =
    let gap = key_gap width in
    let row_height = key_row_height width height in
    let total_row_width = c.row_units * unit_width + gap * (c.columns - 1) in
    let row_start_x = (width - min_u32 total_row_width width) / 2 in
    do
      require (not (ltb width total_row_width))
      some (record {
        x = row_start_x + c.preceding_units * unit_width + c.col * gap;
        y = top_bar height + gap + c.row * (row_height + gap);
        width = unit_width * c.key_width_units + gap * (c.key_width_units - 1);
        height = row_height;
      })

abbrev pub key_unit_width : ℕ → Cell → ℕ
key_unit_width width c =
    max_u32 ((width - side_padding width * 2 - key_gap width * (c.columns - 1)) / c.row_units) 24

-- INT_MAX
abbrev int_max : ℕ
int_max = 2147483647

abbrev pub fits_int : Rect → Bool
fits_int r = leb r.x int_max && leb r.y int_max && (leb r.width int_max && leb r.height int_max)

-- The guards on the surface's size, the last two for the key's row.
abbrev pub keys_fit : ℕ → ℕ → Bool
keys_fit width height = not (
    leb height (top_bar height + bottom_padding height + key_gap width * (osk_rows + 1))
    || leb width (side_padding width * 2 + key_gap width * 4))

abbrev pub row_padding : ℕ → Cell → ℕ
row_padding width c = side_padding width * 2 + key_gap width * (c.columns - 1)

-- No sum here reaches 2 ^ 32: a row's units times a unit's width are at most the width or 240, four
-- rows' heights at most the height or 152, and the gaps and paddings are clamped.
unfoldable pub osk_key_rect : ℕ → ℕ → ℕ → Option Rect
unfolding cell_rect key_cell
osk_key_rect width height key = do
  require (not (width == 0 || height == 0))
  p ← row_col_for_index key
  require (keys_fit width height)
  require (not (leb width (row_padding width (key_cell p))))
  require (not (ltb width (row_padding width (key_cell p) + (key_cell p).row_units)))
  rect ← cell_rect width height (key_unit_width width (key_cell p)) (key_cell p)
  require (fits_int rect)
  some rect
