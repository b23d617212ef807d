-- ===== src/Layout/Targets.antt =====
-- What a touch on a shell surface hits, lumo_shell_target_for_mode of compositor/src/shell/shell_ui.c. The test of a
-- rectangle against the touch's coordinates, which are doubles, is an argument.
use lumo_compositor.Base.{
  ℕ, zero, suc, ◌+◌, ◌-◌, ◌*◌, ◌/◌, ◌%◌, Bool, true, false, not, ◌||◌, Option, none, some, leb,
  ◌==◌, if◌then◌else◌, ◌>>=◌, ◌>>◌, require, get_elem?,
}
use lumo_compositor.CString.{Bytes, uint32_mod}
use lumo_compositor.Layout.{min_u32}
use lumo_compositor.Layout.Signed.{ℤ, pos, negsuc, SignedRect, signed}
use lumo_compositor.Layout.Keys.{osk_key_rect, osk_key_count}
use lumo_compositor.Layout.Panels.{
  launcher_close_rect, gesture_handle_rect, sidebar_app_rect, sidebar_drawer_button_rect,
}
use lumo_compositor.Layout.Tiles.{launcher_tile_rect, launcher_tile_count}
use lumo_compositor.Layout.Search.{collect_filtered_tiles, filtered_tile_count}
use lumo_compositor.Layout.Modes.{
  ShellMode, launcher, osk, gesture, status, background, sidebar, TargetKind, launcher_tile,
  launcher_close, osk_key, gesture_handle, sidebar_app, sidebar_drawer_btn,
}

pub record Target : Type 0 where
  pub kind : TargetKind
  pub index : ℕ
  pub rect : SignedRect

abbrev pub target_at : TargetKind → ℕ → SignedRect → Target
target_at kind index rect = record { kind = kind; index = index; rect = rect }

-- A filtered tile: the place of its index on its page, with the label's index.
unfoldable pub filtered_tile_rect : ℕ → ℕ → Option Bytes → ℕ → Option Target
filtered_tile_rect width height query visible = do
  require (not (leb (collect_filtered_tiles query 32).count visible))
  rect ← launcher_tile_rect width height (visible % launcher_tile_count)
  tile ← get_elem? (collect_filtered_tiles query 32).indices visible
  some (target_at launcher_tile tile (signed rect))

abbrev pub if_hit : (SignedRect → Bool) → Option Target → Option Target
if_hit hit none = none
if_hit hit (some t) = if hit t.rect then some t else none

abbrev pub or_else : Option Target → Option Target → Option Target
or_else none later = later
or_else (some t) later = some t

-- The first of `n` candidates from `i` on that is there and is hit.
unfoldable pub first_hit : (SignedRect → Bool) → (ℕ → Option Target) → ℕ → ℕ → Option Target
first_hit hit candidate zero i = none
first_hit hit candidate (suc n) i =
    or_else (if_hit hit (candidate i)) (first_hit hit candidate n (i + 1))

-- The same, up to the first candidate that is not there.
unfoldable pub first_app_hit : (SignedRect → Bool) → (ℕ → Option Target) → ℕ → ℕ → Option Target
first_app_hit hit candidate zero i = none
first_app_hit hit candidate (suc n) i =
    let later = first_app_hit hit candidate n (i + 1) in
    if there (candidate i) then or_else (if_hit hit (candidate i)) later else none
  where
    there : Option Target → Bool
    there none = false
    there (some t) = true

abbrev pub osk_key_target : ℕ → ℕ → ℕ → Option Target
osk_key_target width height key = do
  rect ← osk_key_rect width height key
  some (target_at osk_key key (signed rect))

abbrev pub close_target : ℕ → ℕ → Option Target
close_target width height = do
  rect ← launcher_close_rect width height
  some (target_at launcher_close 0 rect)

abbrev handle_target : ℕ → ℕ → Option Target
handle_target width height = do
  rect ← gesture_handle_rect width height
  some (target_at gesture_handle 0 (signed rect))

abbrev drawer_target : ℕ → ℕ → Option Target
drawer_target width height = do
  rect ← sidebar_drawer_button_rect width height
  some (target_at sidebar_drawer_btn 0 rect)

abbrev app_target : ℕ → ℕ → ℕ → Option Target
app_target width height app = do
  rect ← sidebar_app_rect width height app
  some (target_at sidebar_app app rect)

abbrev pub page_count : ℕ → ℕ
page_count count = (count + launcher_tile_count - 1) / launcher_tile_count

-- The page is at least 0, and then at most the last one, which is -1 when there is none.
abbrev clamp_page : ℤ → ℕ → ℤ
clamp_page (negsuc n) total = if leb total 0 then negsuc 0 else pos 0
clamp_page (pos page) total =
    if leb total page then (if total == 0 then negsuc 0 else pos (total - 1)) else pos page

-- An int as a uint32_t.
abbrev uint32_of_int : ℤ → ℕ
uint32_of_int (pos n) = n % uint32_mod
uint32_of_int (negsuc n) = (uint32_mod - 1 - n) % uint32_mod

abbrev pub page_start : ℕ → ℤ → ℕ
page_start count page =
    uint32_of_int (clamp_page page (page_count count)) * launcher_tile_count % uint32_mod

abbrev pub page_end : ℕ → ℤ → ℕ
page_end count page = min_u32 ((page_start count page + launcher_tile_count) % uint32_mod) count

abbrev tiles_target : (SignedRect → Bool) → ℕ → ℕ → Option Bytes → ℤ → Option Target
tiles_target hit width height query page =
    let count = filtered_tile_count query in
    first_hit hit (filtered_tile_rect width height query)
      (page_end count page - page_start count page) (page_start count page)

unfoldable pub mode_target :
    (SignedRect → Bool) → ShellMode → ℕ → ℕ → Option Bytes → ℤ → Option Target
unfolding first_hit first_app_hit
mode_target hit launcher width height query page =
    or_else (if_hit hit (close_target width height)) (tiles_target hit width height query page)
mode_target hit osk width height query page =
    first_hit hit (osk_key_target width height) osk_key_count 0
mode_target hit gesture width height query page = if_hit hit (handle_target width height)
mode_target hit sidebar width height query page =
    or_else (if_hit hit (drawer_target width height))
      (first_app_hit hit (app_target width height) 16 0)
mode_target hit status width height query page = none
mode_target hit background width height query page = none

-- lumo_shell_target_for_mode_with_query
unfoldable pub target_with_query :
    (SignedRect → Bool) → ShellMode → ℕ → ℕ → Option Bytes → ℤ → Option Target
unfolding mode_target
target_with_query hit mode width height query page = do
  require (not (width == 0 || height == 0))
  mode_target hit mode width height query page

unfoldable pub target_for_mode : (SignedRect → Bool) → ShellMode → ℕ → ℕ → Option Target
unfolding target_with_query
target_for_mode hit mode width height = target_with_query hit mode width height none (pos 0)
