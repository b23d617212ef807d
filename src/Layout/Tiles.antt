-- ===== src/Layout/Tiles.antt =====
-- The grid of the launcher's tiles (compositor/src/shell/shell_ui.c): inside the panel, below the search bar,
-- and apart from one another.
use mathlib.Core.Path.{subst}
use native.Mathlib.Nat.{mul-le-mul_right}
use lumo_compositor.Base.{
  ℕ, ◌+◌, ◌-◌, ◌*◌, ◌/◌, ◌%◌, ◌≤◌, ◌<◌, ◌⊎◌, inl, inr, not, Option, some, ltb, leb, ◌==◌,
  if◌then◌else◌, ◌>>=◌, ◌>>◌, require, ◌≡◌, sym, ap, ◌∙◌, arith, some-inj, require-eq-some,
  >>=-eq-some,
}
use lumo_compositor.Layout.{Rect, Follows, clamp_u32}
use lumo_compositor.Layout.Panels.{launcher_panel_rect, search_bar_rect}

abbrev pub launcher_columns : ℕ
launcher_columns = 4

abbrev pub launcher_rows : ℕ
launcher_rows = 4

abbrev pub launcher_tile_count : ℕ
launcher_tile_count = launcher_columns * launcher_rows

abbrev tile_width : Rect → ℕ
tile_width panel = (panel.width - 32) / launcher_columns

abbrev grid_top : Rect → ℕ
grid_top search = search.y + search.height + 28

abbrev grid_bottom : ℕ → Rect → ℕ
grid_bottom height panel = panel.y + panel.height - clamp_u32 (height / 24) 20 40

abbrev available_height : ℕ → Rect → Rect → ℕ
available_height height panel search = grid_bottom height panel - grid_top search

-- A quarter of the height, between 112 and 240 where that fits.
unfoldable pub tile_height : ℕ → ℕ
tile_height available =
    let cell = clamp_u32 (available / launcher_rows) 112 240 in
    if ltb available (cell * launcher_rows) then available / launcher_rows else cell

abbrev grid_x : Rect → ℕ
grid_x panel = panel.x + (panel.width - tile_width panel * launcher_columns) / 2

abbrev grid_y : ℕ → Rect → Rect → ℕ
grid_y height panel search =
    let available = available_height height panel search in
    grid_top search + (available - tile_height available * launcher_rows) / 2

-- The tile, once the panel and the search bar are known.
unfoldable pub tile_in : ℕ → Rect → Rect → ℕ → Option Rect
tile_in height panel search index = do
  require (not (panel.width - 32 == 0))
  require (not (tile_width panel == 0))
  require (not (leb (grid_bottom height panel) (grid_top search)))
  require (not (available_height height panel search / launcher_rows == 0))
  some (record {
    x = grid_x panel + index % launcher_columns * tile_width panel;
    y =
        grid_y height panel search
        + index / launcher_columns * tile_height (available_height height panel search);
    width = tile_width panel;
    height = tile_height (available_height height panel search);
  })

-- lumo_shell_launcher_visible_tile_geometry
unfoldable pub launcher_tile_rect : ℕ → ℕ → ℕ → Option Rect
unfolding tile_in
launcher_tile_rect width height index = do
  require (not (leb launcher_tile_count index))
  panel ← launcher_panel_rect width height
  search ← search_bar_rect width height
  tile_in height panel search index

-- What a returned tile is, with the panel and the search bar.
record FromPanel (height index : ℕ) (panel search r : Rect) : Type 0 where
  some_height : 4 ≤ available_height height panel search
  at_x : grid_x panel + index % 4 * tile_width panel ≡ r.x
  at_y :
      grid_y height panel search + index / 4 * tile_height (available_height height panel search)
      ≡ r.y
  as_wide : tile_width panel ≡ r.width
  as_high : tile_height (available_height height panel search) ≡ r.height

tile_in-FromPanel :
    (height index : ℕ) (panel search r : Rect)
    → tile_in height panel search index ≡ some r
    → FromPanel height index panel search r
unfolding tile_in
tile_in-FromPanel height index panel search r h =
    let wide = require-eq-some (not (panel.width - 32 == 0)) _ h in
    let wider = require-eq-some (not (tile_width panel == 0)) _ wide.1 in
    let below =
      require-eq-some (not (leb (grid_bottom height panel) (grid_top search))) _ wider.1 in
    let high =
      require-eq-some (not (available_height height panel search / launcher_rows == 0)) _ below.1 in
    let same = some-inj high.1 in
    record {
      some_height = ground (arith, high.0);
      at_x = ap (λ (s : Rect). s.x) same;
      at_y = ap (λ (s : Rect). s.y) same;
      as_wide = ap (λ (s : Rect). s.width) same;
      as_high = ap (λ (s : Rect). s.height) same;
    }

launcher_tile_rect-tile_in :
    (width height index : ℕ) (panel search r : Rect)
    → launcher_panel_rect width height ≡ some panel
    → search_bar_rect width height ≡ some search
    → launcher_tile_rect width height index ≡ some r
    → (index < 16) × (tile_in height panel search index ≡ some r)
unfolding launcher_tile_rect
launcher_tile_rect-tile_in width height index panel search r at_panel at_search h =
    let indexed = require-eq-some (not (leb launcher_tile_count index)) _ h in
    let framed = >>=-eq-some (launcher_panel_rect width height) _ indexed.1 in
    let topped = >>=-eq-some (search_bar_rect width height) _ framed.2 in
    let same_panel : framed.0 ≡ panel = some-inj (sym framed.1 ∙ at_panel) in
    let same_search : topped.0 ≡ search = some-inj (sym topped.1 ∙ at_search) in
    (
      ground (arith, indexed.0),
      subst (λ (q : Rect). tile_in height q search index ≡ some r) same_panel
          (subst (λ (q : Rect). tile_in height framed.0 q index ≡ some r) same_search topped.2),
    )

tile_height-fits : (available : ℕ) → tile_height available * 4 ≤ available
unfolding tile_height clamp_u32
tile_height-fits available = ground arith

-- The four columns and rows of the grid, from its corner.
column_fits : (index w : ℕ) → index % 4 * w + w ≤ 4 * w
column_fits index w = omega (arith, mul-le-mul_right {m = index % 4} {n = 3} w (omega arith))

row_fits : (index h : ℕ) → index < 16 → index / 4 * h + h ≤ 4 * h
row_fits index h lt = omega (arith, mul-le-mul_right {m = index / 4} {n = 3} h (omega arith))

-- Every tile of the launcher lies inside its panel and at least 28 pixels below the search bar.
pub launcher_tile_rect-inside :
    (width height index : ℕ) (panel search r : Rect)
    → launcher_panel_rect width height ≡ some panel
    → search_bar_rect width height ≡ some search
    → launcher_tile_rect width height index ≡ some r
    → (panel.x ≤ r.x)
      × (r.x + r.width ≤ panel.x + panel.width)
      × (search.y + search.height + 28 ≤ r.y)
      × (r.y + r.height ≤ panel.y + panel.height)
launcher_tile_rect-inside width height index panel search r at_panel at_search h =
    let tile = launcher_tile_rect-tile_in width height index panel search r at_panel at_search h in
    let from = tile_in-FromPanel height index panel search r tile.1 in
    let across = column_fits index (tile_width panel) in
    let down = row_fits index (tile_height (available_height height panel search)) tile.0 in
    let fits = tile_height-fits (available_height height panel search) in
    (omega arith, omega arith, omega arith, omega arith)

launcher_tile_rect-framed :
    (width height index : ℕ) (r : Rect)
    → launcher_tile_rect width height index ≡ some r
    → (panel : Rect) × (launcher_panel_rect width height ≡ some panel)
      × (search : Rect) × (search_bar_rect width height ≡ some search)
unfolding launcher_tile_rect
launcher_tile_rect-framed width height index r h =
    let indexed = require-eq-some (not (leb launcher_tile_count index)) _ h in
    let framed = >>=-eq-some (launcher_panel_rect width height) _ indexed.1 in
    let topped = >>=-eq-some (search_bar_rect width height) _ framed.2 in
    (framed.0, framed.1, topped.0, topped.1)

tiles_follow :
    (height i j : ℕ) (panel search r s : Rect)
    → FromPanel height i panel search r
    → FromPanel height j panel search s
    → i < j
    → (i / 4 < j / 4) ⊎ ((i / 4 ≡ j / 4) × (i % 4 < j % 4))
    → Follows r s
unfolding Follows
tiles_follow height i j panel search r s from next lt (inl above) =
    let high : ℕ = tile_height (available_height height panel search) in
    inr (
      omega (
        arith,
        from.at_y,
        from.as_high,
        next.at_y,
        mul-le-mul_right {m = i / 4 + 1} {n = j / 4} high (omega arith),
      ))
tiles_follow height i j panel search r s from next lt (inr beside) =
    let wide : ℕ = tile_width panel in
    inl (
      omega (
        arith,
        from.at_x,
        from.as_wide,
        next.at_x,
        mul-le-mul_right {m = i % 4 + 1} {n = j % 4} wide (omega arith),
      ))

-- Of two tiles the later one lies to the right of the earlier one, or below it.
pub launcher_tile_rect-Follows :
    (width height i j : ℕ) (r s : Rect)
    → launcher_tile_rect width height i ≡ some r
    → launcher_tile_rect width height j ≡ some s
    → i < j
    → Follows r s
launcher_tile_rect-Follows width height i j r s h k lt =
    let frame = launcher_tile_rect-framed width height i r h in
    let first = launcher_tile_rect-tile_in width height i frame.0 frame.2 r frame.1 frame.3 h in
    let second = launcher_tile_rect-tile_in width height j frame.0 frame.2 s frame.1 frame.3 k in
    tiles_follow height i j frame.0 frame.2 r s
      (tile_in-FromPanel height i frame.0 frame.2 r first.1)
      (tile_in-FromPanel height j frame.0 frame.2 s second.1) lt (ground arith)
