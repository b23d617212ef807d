-- ===== src/Tests/Screenshot.antt =====
-- The screenshot tool on concrete rows.
use lumo_compositor.Base.{ℕ, ◌<◌, ◌≡◌, true, refl, some, none, [], ◌∷◌, arith, if◌then◌else◌, ltb}
use lumo_compositor.CString.{codes}
use lumo_compositor.Screenshot.{
  rgb888, xrgb8888, read_pixel, format_stride_unit, convert_shm_row, convert_from, source_row,
  display_name,
}
use lumo_compositor.Screenshot.Pixels.{swapped, channels, word24, word32, read_pixel-channels}

-- Memory of bytes that count up to 199.
abbrev memory : ℕ → ℕ
memory i = if ltb i 200 then i else 0

memory_bytes : (i : ℕ) → memory i < 256
memory_bytes i = ground arith

-- Two pixels of four bytes, the last row first, and a name that is set.
row_converted : convert_shm_row 6 xrgb8888 memory 2 ≡ some (2 ∷ 1 ∷ 0 ∷ 6 ∷ 5 ∷ 4 ∷ [])
unfolding convert_shm_row convert_from read_pixel format_stride_unit
row_converted = refl

last_row_first :
    (source_row 0 10 true ≡ 9) × (display_name (some (codes "wayland-1")) none ≡ codes "wayland-1")
unfolding source_row display_name
last_row_first = (refl, refl)

read_pixel-channels_example :
    (format_stride_unit rgb888 ≡ 4 → read_pixel rgb888 memory 3 ≡ channels rgb888 (word32 memory 3))
    × (format_stride_unit rgb888 ≡ 3
        → read_pixel rgb888 memory 3 ≡ swapped (channels rgb888 (word24 memory 3)))
read_pixel-channels_example = read_pixel-channels rgb888 memory 3 memory_bytes
