-- ===== src/Screenshot.antt =====
-- The screenshot tool's conversion of rows, compositor/src/tools/screenshot_common.c. The source row is memory,
-- a function from offsets to bytes.
pub mod Pixels
use lumo_compositor.Base.{
  ℕ, zero, suc, ◌+◌, ◌-◌, ◌*◌, Bool, not, ◌||◌, List, [], ◌∷◌, ◌++◌, Option, none, some, ltb, leb,
  ◌==◌, if◌then◌else◌,
}
use lumo_compositor.CString.{Bytes, codes, str_eq}

-- The formats of wl_shm that are supported, and any other.
pub data ShmFormat : Type 0 where
  xrgb8888 argb8888 rgb888 bgr888 xbgr8888 abgr8888 rgbx8888 rgba8888 bgrx8888 bgra8888
        other_format :
      ShmFormat

unfoldable pub display_name : Option Bytes → Option Bytes → Bytes
display_name env (some (c ∷ cs)) = c ∷ cs
display_name (some (c ∷ cs)) override = c ∷ cs
display_name env override = codes "lumo-shell"

unfoldable pub source_row : ℕ → ℕ → Bool → ℕ
source_row row height y_invert = if not y_invert || leb height row then row else height - row - 1

unfoldable pub format_stride_unit : ShmFormat → ℕ
format_stride_unit rgb888 = 3
format_stride_unit bgr888 = 3
format_stride_unit other_format = 0
format_stride_unit xrgb8888 = 4
format_stride_unit argb8888 = 4
format_stride_unit xbgr8888 = 4
format_stride_unit abgr8888 = 4
format_stride_unit rgbx8888 = 4
format_stride_unit rgba8888 = 4
format_stride_unit bgrx8888 = 4
format_stride_unit bgra8888 = 4

pub record Pixel : Type 0 where
  pub red : ℕ
  pub green : ℕ
  pub blue : ℕ

abbrev pub rgb : ℕ → ℕ → ℕ → Pixel
rgb red green blue = record { red = red; green = green; blue = blue }

-- The switch over the format, at a pixel's offset.
unfoldable pub read_pixel : ShmFormat → (ℕ → ℕ) → ℕ → Pixel
read_pixel xrgb8888 src offset = rgb (src (offset + 2)) (src (offset + 1)) (src offset)
read_pixel argb8888 src offset = rgb (src (offset + 2)) (src (offset + 1)) (src offset)
read_pixel rgb888 src offset = rgb (src offset) (src (offset + 1)) (src (offset + 2))
read_pixel bgr888 src offset = rgb (src (offset + 2)) (src (offset + 1)) (src offset)
read_pixel xbgr8888 src offset = rgb (src offset) (src (offset + 1)) (src (offset + 2))
read_pixel abgr8888 src offset = rgb (src offset) (src (offset + 1)) (src (offset + 2))
read_pixel rgbx8888 src offset = rgb (src (offset + 3)) (src (offset + 2)) (src (offset + 1))
read_pixel rgba8888 src offset = rgb (src (offset + 3)) (src (offset + 2)) (src (offset + 1))
read_pixel bgrx8888 src offset = rgb (src (offset + 1)) (src (offset + 2)) (src (offset + 3))
read_pixel bgra8888 src offset = rgb (src (offset + 1)) (src (offset + 2)) (src (offset + 3))
read_pixel other_format src offset = rgb 0 0 0

unfoldable pub convert_from : ShmFormat → (ℕ → ℕ) → ℕ → ℕ → Bytes
convert_from format src zero i = []
convert_from format src (suc n) i =
    let p = read_pixel format src (i * format_stride_unit format) in
    p.red ∷ p.green ∷ p.blue ∷ convert_from format src n (i + 1)

-- The bytes written to `dst`; none where the row is left as it was.
unfoldable pub convert_shm_row : ℕ → ShmFormat → (ℕ → ℕ) → ℕ → Option Bytes
unfolding convert_from
convert_shm_row dst_size format src width =
    if ltb dst_size (width * 3) || format_stride_unit format == 0
    then none
    else some (convert_from format src width 0)
