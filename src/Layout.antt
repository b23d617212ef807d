-- ===== src/Layout.antt =====
-- What the geometry of compositor/src/shell/shell_ui.c and compositor/src/shell/shell_osk.c shares:
-- rectangles, and the clamps on uint32_t. Sizes are those of an output or a surface, below 2 ^ 30, so
-- that an int made of one is the same number and twice it does not overflow. A coordinate is a
-- natural number where the sources' guards keep it from being negative, and else a Signed.ℤ.
pub mod Keys
pub mod KeyCells
pub mod KeyRects
pub mod KeyOrder
pub mod Signed
pub mod Panels
pub mod PanelLaws
pub mod Tiles
pub mod Search
pub mod SearchLaws
pub mod Modes
pub mod Surfaces
pub mod Targets
pub mod KeyTargets
pub mod Markers
pub mod MarkerLaws
pub mod SurfaceLaws
pub mod NameLaws
use lumo_compositor.Base.{
  ℕ, ◌+◌, ◌-◌, ◌%◌, ◌^◌, ◌≤◌, ◌<◌, ◌⊎◌, Bool, ◌&&◌, ltb, leb, if◌then◌else◌, ◌≡◌, arith,
}

-- struct lumo_rect
pub record Rect : Type 0 where
  pub x : ℕ
  pub y : ℕ
  pub width : ℕ
  pub height : ℕ

unfoldable pub clamp_u32 : ℕ → ℕ → ℕ → ℕ
clamp_u32 value minimum maximum =
    if ltb value minimum then minimum else if ltb maximum value then maximum else value

unfoldable pub max_u32 : ℕ → ℕ → ℕ
max_u32 lhs rhs = if ltb rhs lhs then lhs else rhs

unfoldable pub min_u32 : ℕ → ℕ → ℕ
min_u32 lhs rhs = if ltb lhs rhs then lhs else rhs

-- A rectangle inside another of the given size at the origin.
pub record IsInside (width height : ℕ) (r : Rect) : Type 0 where
  pub across : r.x + r.width ≤ width
  pub down : r.y + r.height ≤ height

-- The second lies to the right of the first, or below it.
pub Follows : Rect → Rect → Type 0
Follows r s = (r.x + r.width ≤ s.x) ⊎ (r.y + r.height ≤ s.y)

pub clamp_u32-range :
    (v low high : ℕ) → low ≤ high → (low ≤ clamp_u32 v low high) × (clamp_u32 v low high ≤ high)
unfolding clamp_u32
clamp_u32-range v low high h = (ground arith, ground arith)

pub max_u32-least : (a b : ℕ) → (a ≤ max_u32 a b) × (b ≤ max_u32 a b)
unfolding max_u32
max_u32-least a b = (ground arith, ground arith)
