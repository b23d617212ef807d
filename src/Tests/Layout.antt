-- ===== src/Tests/Layout.antt =====
-- The shell's geometry on concrete sizes.
use lumo_compositor.Base.{
  ℕ, ◌+◌, ◌*◌, ◌<◌, ◌↔◌, true, ◌≡◌, refl, [], ◌∷◌, none, some, arith, length, take,
}
use lumo_compositor.CString.{codes, str_eq}
use lumo_compositor.Layout.{Rect, clamp_u32, max_u32, min_u32}
use lumo_compositor.Layout.Signed.{SignedRect, pos, difference, signed, contains}
use lumo_compositor.Layout.Keys.{
  row_col_for_index, find_row, key_cell, cell_rect, key_gap, osk_key_rect, osk_key_label,
  osk_key_text,
}
use lumo_compositor.Layout.KeyTargets.{osk_target_of_pixel, enter_edge_hits_space}
use lumo_compositor.Layout.Panels.{launcher_panel_rect, search_bar_rect, launcher_close_rect}
use lumo_compositor.Layout.Tiles.{launcher_tile_rect, tile_in, tile_height}
use lumo_compositor.Layout.Search.{
  query_active, query_matches, occurs, starts_with, tolower, collect_filtered_tiles,
  filtered_tile_count, matching, launcher_labels, collect,
}
use lumo_compositor.Layout.SearchLaws.{Occurs, query_matches_iff, collect_filtered_tiles-matching}
use lumo_compositor.Layout.Modes.{
  osk, osk_key, audit_point_name, audit_point_for_region, find_name, launcher, launcher_tile,
}
use lumo_compositor.Layout.Markers.{audit_point_rect, along, point_across, point_down, detect_point}
use lumo_compositor.Layout.MarkerLaws.{detect_point_iff}
use lumo_compositor.Layout.Surfaces.{SurfaceConfig, surface_config_for_mode, mode_config}
use lumo_compositor.Layout.Targets.{
  target_at, target_for_mode, target_with_query, mode_target, first_hit, filtered_tile_rect,
}

abbrev rect : ℕ → ℕ → ℕ → ℕ → Rect
rect x y width height = record { x = x; y = y; width = width; height = height }

abbrev q_key : Rect
q_key = rect 35 42 112 55

abbrev space_key : Rect
space_key = rect 191 237 622 55

abbrev enter_key : Rect
enter_key = rect 793 237 306 55

q_key_at : osk_key_rect 1280 320 0 ≡ some q_key
unfolding osk_key_rect row_col_for_index find_row key_cell cell_rect clamp_u32 max_u32 min_u32
q_key_at = refl

space_key_at : osk_key_rect 1280 320 30 ≡ some space_key
unfolding osk_key_rect row_col_for_index find_row key_cell cell_rect clamp_u32 max_u32 min_u32
space_key_at = refl

enter_key_at : osk_key_rect 1280 320 31 ≡ some enter_key
unfolding osk_key_rect row_col_for_index find_row key_cell cell_rect clamp_u32 max_u32 min_u32
enter_key_at = refl

-- On a page of symbols the last key of the third row switches to the terminal's keys.
page_key : (osk_key_label 1 28 ≡ some (codes "TERM")) × (osk_key_text 1 28 ≡ some (1 ∷ []))
unfolding osk_key_label osk_key_text
page_key = (refl, refl)

last_labels : (osk_key_label 2 32 ≡ some (codes "v")) × (osk_key_label 0 33 ≡ none)
unfolding osk_key_label
last_labels = (refl, refl)

osk_target_of_pixel_example :
    target_for_mode (contains 40 50) osk 1280 320 ≡ some (target_at osk_key 0 (signed q_key))
osk_target_of_pixel_example =
    osk_target_of_pixel 1280 320 40 50 0 q_key q_key_at refl (ground arith)

enter_gap : 800 < 793 + 2 * key_gap 1280
unfolding clamp_u32
enter_gap = omega arith

enter_edge_hits_space_example :
    target_for_mode (contains 800 250) osk 1280 320 ≡ some (target_at osk_key 30 (signed space_key))
enter_edge_hits_space_example =
    enter_edge_hits_space 1280 320 800 250 space_key enter_key space_key_at enter_key_at refl
      enter_gap

abbrev keyboard_config : SurfaceConfig
unfolding mode_config
keyboard_config = mode_config osk 1280 800

keyboard_config_at : surface_config_for_mode osk 1280 800 ≡ some keyboard_config
unfolding surface_config_for_mode keyboard_config
keyboard_config_at = refl

key_on_config : osk_key_rect keyboard_config.width keyboard_config.height 0 ≡ some q_key
unfolding keyboard_config mode_config osk_key_rect row_col_for_index find_row key_cell cell_rect
    clamp_u32 max_u32 min_u32
key_on_config = refl

abbrev short_config : SurfaceConfig
unfolding mode_config
short_config = mode_config osk 320 200

short_config_at : surface_config_for_mode osk 320 200 ≡ some short_config
unfolding surface_config_for_mode short_config
short_config_at = refl

abbrev panel : Rect
panel = rect 53 44 1174 728

abbrev search : Rect
search = rect 405 62 469 40

panel_at : launcher_panel_rect 1280 800 ≡ some panel
unfolding launcher_panel_rect clamp_u32
panel_at = refl

search_at : search_bar_rect 1280 800 ≡ some search
unfolding search_bar_rect launcher_panel_rect clamp_u32 max_u32 min_u32
search_at = refl

tile_at : launcher_tile_rect 1280 800 0 ≡ some (rect 70 130 285 152)
unfolding launcher_tile_rect tile_in tile_height search_bar_rect launcher_panel_rect clamp_u32
    max_u32 min_u32
tile_at = refl

next_tile_at : launcher_tile_rect 1280 800 5 ≡ some (rect 355 282 285 152)
unfolding launcher_tile_rect tile_in tile_height search_bar_rect launcher_panel_rect clamp_u32
    max_u32 min_u32
next_tile_at = refl

query_matches_iff_example :
    (query_matches (codes "TERMINAL") (some (codes "mIn")) ≡ true)
    ↔ Occurs (codes "mIn") (codes "TERMINAL")
unfolding query_active str_eq
query_matches_iff_example = query_matches_iff (codes "TERMINAL") (codes "mIn") refl

-- Three labels hold "al", of which an array of two keeps the first ones.
al_matches : matching (some (codes "al")) launcher_labels 0 ≡ 1 ∷ 14 ∷ 15 ∷ []
unfolding matching query_matches query_active occurs starts_with tolower str_eq
al_matches = refl

collect_filtered_tiles-matching_example :
    (collect_filtered_tiles (some (codes "al")) 2 ≡ record {
      indices = take 2 (matching (some (codes "al")) launcher_labels 0);
      count = length (matching (some (codes "al")) launcher_labels 0);
    })
    × (filtered_tile_count (some (codes "al"))
        ≡ (collect_filtered_tiles (some (codes "al")) 2).count)
collect_filtered_tiles-matching_example = collect_filtered_tiles-matching (some (codes "al")) 2

abbrev marker : SignedRect
marker = record { left = pos 560; top = pos 47; width = 160; height = 66 }

marker_at_top : audit_point_rect 1280 800 1 ≡ some marker
unfolding audit_point_rect along point_across point_down difference clamp_u32
marker_at_top = refl

detect_point_iff_example :
    (detect_point (contains 600 60) 1280 800 ≡ some 1)
    ↔ ((r : SignedRect) × (audit_point_rect 1280 800 1 ≡ some r) × (contains 600 60 r ≡ true))
detect_point_iff_example = detect_point_iff 1280 800 600 60 1 (omega arith) (omega arith)

region_names :
    (audit_point_for_region (codes "left-center") ≡ some 3)
    × (audit_point_name 3 ≡ some (codes "left-center"))
unfolding audit_point_for_region find_name audit_point_name str_eq
region_names = (refl, refl)

-- The first of the labels that hold "cal" stands in the first place of the grid.
launcher_hit :
    target_with_query (contains 80 140) launcher 1280 800 (some (codes "cal")) (pos 7)
    ≡ some (target_at launcher_tile 14 (signed (rect 70 130 285 152)))
unfolding target_with_query mode_target first_hit filtered_tile_rect filtered_tile_count
    collect_filtered_tiles collect query_matches query_active occurs starts_with tolower str_eq
    launcher_tile_rect tile_in tile_height search_bar_rect launcher_panel_rect launcher_close_rect
    clamp_u32 max_u32 min_u32 difference
launcher_hit = refl
