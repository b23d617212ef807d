-- ===== src/Screenshot/Pixels.antt =====
-- A pixel against the packed word that its format describes (compositor/src/tools/screenshot_common.c): wl_shm
-- names the channels of a little-endian word from its highest bits down.
use lumo_compositor.Base.{ℕ, ◌+◌, ◌*◌, ◌/◌, ◌%◌, ◌^◌, ◌<◌, ◌≡◌, refl, arith}
use lumo_compositor.Screenshot.{
  ShmFormat, xrgb8888, argb8888, rgb888, bgr888, xbgr8888, abgr8888, rgbx8888, rgba8888, bgrx8888,
  bgra8888, other_format, Pixel, rgb, read_pixel, format_stride_unit,
}

abbrev channel : ℕ → ℕ → ℕ
channel word shift = word / 2 ^ shift % 256

-- The bytes of a pixel as a word, the first byte lowest.
abbrev pub word24 : (ℕ → ℕ) → ℕ → ℕ
word24 src o = src o + 256 * src (o + 1) + 65536 * src (o + 2)

abbrev pub word32 : (ℕ → ℕ) → ℕ → ℕ
word32 src o = word24 src o + 16777216 * src (o + 3)

-- The channels that the format's name gives to a word.
abbrev pub channels : ShmFormat → ℕ → Pixel
channels xrgb8888 w = rgb (channel w 16) (channel w 8) (channel w 0)
channels argb8888 w = rgb (channel w 16) (channel w 8) (channel w 0)
channels rgb888 w = rgb (channel w 16) (channel w 8) (channel w 0)
channels bgr888 w = rgb (channel w 0) (channel w 8) (channel w 16)
channels xbgr8888 w = rgb (channel w 0) (channel w 8) (channel w 16)
channels abgr8888 w = rgb (channel w 0) (channel w 8) (channel w 16)
channels rgbx8888 w = rgb (channel w 24) (channel w 16) (channel w 8)
channels rgba8888 w = rgb (channel w 24) (channel w 16) (channel w 8)
channels bgrx8888 w = rgb (channel w 8) (channel w 16) (channel w 24)
channels bgra8888 w = rgb (channel w 8) (channel w 16) (channel w 24)
channels other_format w = rgb 0 0 0

abbrev pub swapped : Pixel → Pixel
swapped p = rgb p.blue p.green p.red

bytes_of_word :
    (a b c d : ℕ)
    → a < 256
    → b < 256
    → c < 256
    → d < 256
    → (channel (a + 256 * b + 65536 * c + 16777216 * d) 0 ≡ a)
      × (channel (a + 256 * b + 65536 * c + 16777216 * d) 8 ≡ b)
      × (channel (a + 256 * b + 65536 * c + 16777216 * d) 16 ≡ c)
      × (channel (a + 256 * b + 65536 * c + 16777216 * d) 24 ≡ d)
bytes_of_word a b c d la lb lc ld = (omega arith, omega arith, omega arith, omega arith)

three_four : ◌≡◌ {A = ℕ} 3 4 → ⊥
three_four h = omega arith

four_three : ◌≡◌ {A = ℕ} 4 3 → ⊥
four_three h = omega arith

bytes_of_word24 :
    (a b c : ℕ)
    → a < 256
    → b < 256
    → c < 256
    → (channel (a + 256 * b + 65536 * c) 0 ≡ a)
      × (channel (a + 256 * b + 65536 * c) 8 ≡ b)
      × (channel (a + 256 * b + 65536 * c) 16 ≡ c)
bytes_of_word24 a b c la lb lc = (omega arith, omega arith, omega arith)

rgb_cong : {r g b r' g' b' : ℕ} → r' ≡ r → g' ≡ g → b' ≡ b → rgb r g b ≡ rgb r' g' b'
rgb_cong er eg eb = cc

module _ (src : ℕ → ℕ) (o : ℕ) (small : (i : ℕ) → src i < 256) where
  four_bytes :
      (format : ShmFormat)
      → format_stride_unit format ≡ 4
      → read_pixel format src o ≡ channels format (word32 src o)
  unfolding read_pixel format_stride_unit
  four_bytes format h = by_format format h (
      bytes_of_word (src o) (src (o + 1)) (src (o + 2)) (src (o + 3)) (small o) (small (o + 1))
        (small (o + 2)) (small (o + 3)))
    where
      by_format :
          (f : ShmFormat)
          → format_stride_unit f ≡ 4
          → (channel (word32 src o) 0 ≡ src o)
            × (channel (word32 src o) 8 ≡ src (o + 1))
            × (channel (word32 src o) 16 ≡ src (o + 2))
            × (channel (word32 src o) 24 ≡ src (o + 3))
          → read_pixel f src o ≡ channels f (word32 src o)
      by_format xrgb8888 e w = rgb_cong w.2 w.1 w.0
      by_format argb8888 e w = rgb_cong w.2 w.1 w.0
      by_format rgb888 e w = elim (three_four e) [ ]
      by_format bgr888 e w = elim (three_four e) [ ]
      by_format xbgr8888 e w = rgb_cong w.0 w.1 w.2
      by_format abgr8888 e w = rgb_cong w.0 w.1 w.2
      by_format rgbx8888 e w = rgb_cong w.3 w.2 w.1
      by_format rgba8888 e w = rgb_cong w.3 w.2 w.1
      by_format bgrx8888 e w = rgb_cong w.1 w.2 w.3
      by_format bgra8888 e w = rgb_cong w.1 w.2 w.3
      by_format other_format e w = refl

  three_bytes :
      (format : ShmFormat)
      → format_stride_unit format ≡ 3
      → read_pixel format src o ≡ swapped (channels format (word24 src o))
  unfolding read_pixel format_stride_unit
  three_bytes format h = by_format format h (
      bytes_of_word24 (src o) (src (o + 1)) (src (o + 2)) (small o) (small (o + 1)) (small (o + 2)))
    where
      by_format :
          (f : ShmFormat)
          → format_stride_unit f ≡ 3
          → (channel (word24 src o) 0 ≡ src o)
            × (channel (word24 src o) 8 ≡ src (o + 1))
            × (channel (word24 src o) 16 ≡ src (o + 2))
          → read_pixel f src o ≡ swapped (channels f (word24 src o))
      by_format rgb888 e w = rgb_cong w.0 w.1 w.2
      by_format bgr888 e w = rgb_cong w.2 w.1 w.0
      by_format xrgb8888 e w = elim (four_three e) [ ]
      by_format argb8888 e w = elim (four_three e) [ ]
      by_format xbgr8888 e w = elim (four_three e) [ ]
      by_format abgr8888 e w = elim (four_three e) [ ]
      by_format rgbx8888 e w = elim (four_three e) [ ]
      by_format rgba8888 e w = elim (four_three e) [ ]
      by_format bgrx8888 e w = elim (four_three e) [ ]
      by_format bgra8888 e w = elim (four_three e) [ ]
      by_format other_format e w = refl

-- On a format of four bytes a pixel's channels are those that the format's name gives to its
-- little-endian word; on one of three bytes red and blue are exchanged.
pub read_pixel-channels :
    (format : ShmFormat) (src : ℕ → ℕ) (o : ℕ)
    → ((i : ℕ) → src i < 256)
    → (format_stride_unit format ≡ 4 → read_pixel format src o ≡ channels format (word32 src o))
      × (format_stride_unit format ≡ 3
          → read_pixel format src o ≡ swapped (channels format (word24 src o)))
read_pixel-channels format src o small =
    (four_bytes src o small format, three_bytes src o small format)
