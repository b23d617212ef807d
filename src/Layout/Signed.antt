-- ===== src/Layout/Signed.antt =====
-- The ints of compositor/src/shell/shell_ui.c that can be negative: the positions of a few rectangles.
use lumo_compositor.Base.{
  ℕ, ◌+◌, ◌-◌, ◌/◌, ◌≤◌, Bool, true, ◌&&◌, leb, ltb, if◌then◌else◌, ◌≡◌, arith,
}
use lumo_compositor.Layout.{Rect}

-- A number that is not negative, or one below zero: negsuc n is -(n + 1).
pub data ℤ : Type 0 where
  pos : ℕ → ℤ
  negsuc : ℕ → ℤ

-- a - b on ints.
unfoldable pub difference : ℕ → ℕ → ℤ
difference a b = if ltb a b then negsuc (b - a - 1) else pos (a - b)

-- Division by two, which rounds towards zero.
unfoldable pub half : ℤ → ℤ
half (pos n) = pos (n / 2)
half (negsuc n) = if ltb n 1 then pos 0 else negsuc ((n + 1) / 2 - 1)

-- struct lumo_rect with a position that may be negative.
pub record SignedRect : Type 0 where
  pub left : ℤ
  pub top : ℤ
  pub width : ℕ
  pub height : ℕ

abbrev pub signed : Rect → SignedRect
signed r = record { left = pos r.x; top = pos r.y; width = r.width; height = r.height }

-- Whether an int is at most a pixel's coordinate.
abbrev le_pixel : ℤ → ℕ → Bool
le_pixel (pos a) x = leb a x
le_pixel (negsuc n) x = true

-- Whether a pixel's coordinate is below an int and a length.
abbrev pixel_lt : ℕ → ℤ → ℕ → Bool
pixel_lt x (pos a) n = ltb x (a + n)
pixel_lt x (negsuc m) n = ltb (x + m + 1) n

-- lumo_rect_contains at a pixel's coordinates.
abbrev pub contains : ℕ → ℕ → SignedRect → Bool
contains x y r =
    le_pixel r.left x
    && le_pixel r.top y
    && (pixel_lt x r.left r.width && pixel_lt y r.top r.height)

pub difference-pos : (a b : ℕ) → b ≤ a → difference a b ≡ pos (a - b)
unfolding difference
difference-pos a b h = ground arith
