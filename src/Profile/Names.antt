-- ===== src/Profile/Names.antt =====
-- What the names of the touch profiles are made of (compositor/src/core/touch_audit.c).
use lumo_compositor.Base.{
  ℕ, ◌+◌, ◌/◌, ◌%◌, ◌≤◌, ◌<◌, Bool, true, false, ◌||◌, some, [], ◌∷◌, ◌++◌, ltb, ◌==◌, length,
  length-append, all, ◌≡◌, ◌≢◌, refl, arith, if◌then◌else◌, lt→ltb,
}
use lumo_compositor.CString.{Bytes, codes, is_digit}
use lumo_compositor.Bridge.{
  Rotation, rotation_normal, rotation_90, rotation_180, rotation_270, rotation_name,
}
use lumo_compositor.Profile.{
  is_lower, add_dash, sanitize_char, sanitize_chars, trim_dashes, in_order, or_touchscreen,
  sanitize_name, hex_digit, hex4, basename_text, profile_basename,
}

-- A lower-case letter, a digit or a dash.
abbrev pub is_slug_char : ℕ → Bool
is_slug_char c = is_lower c || is_digit c || c == b'-'

-- Such bytes, not none of them, and room for the NUL.
abbrev pub IsSlug : ℕ → Bytes → Type 0
IsSlug size text = (all is_slug_char text ≡ true) × (text ≢ []) × (length text < size)

add_dash_chars :
    (buffer : Bytes) → all is_slug_char buffer ≡ true → all is_slug_char (add_dash buffer) ≡ true
add_dash_chars [] h = refl
add_dash_chars (last ∷ rest) h = ground arith

length-add_dash : (buffer : Bytes) → length (add_dash buffer) ≤ length buffer + 1
length-add_dash [] = omega arith
length-add_dash (last ∷ rest) = ground arith

sanitize_char_chars :
    (c : ℕ) (buffer : Bytes)
    → all is_slug_char buffer ≡ true
    → all is_slug_char (sanitize_char c buffer) ≡ true
unfolding sanitize_char
sanitize_char_chars c buffer h = ground (arith, add_dash_chars buffer h)

length-sanitize_char :
    (c : ℕ) (buffer : Bytes) → length (sanitize_char c buffer) ≤ length buffer + 1
unfolding sanitize_char
length-sanitize_char c buffer = ground (arith, length-add_dash buffer)

abbrev Fits : ℕ → Bytes → Type 0
Fits size buffer = (all is_slug_char buffer ≡ true) × (length buffer < size)

sanitize_chars-Fits :
    (size : ℕ) (cs buffer : Bytes) → Fits size buffer → Fits size (sanitize_chars size cs buffer)
unfolding sanitize_chars
sanitize_chars-Fits size [] buffer w = w
sanitize_chars-Fits size (c ∷ cs) buffer w =
    go (ltb (length buffer + 1) size) refl (sanitize_chars-Fits size cs (sanitize_char c buffer))
  where
    go :
        (b : Bool)
        → ltb (length buffer + 1) size ≡ b
        → (Fits size (sanitize_char c buffer)
            → Fits size (sanitize_chars size cs (sanitize_char c buffer)))
        → Fits size (if b then sanitize_chars size cs (sanitize_char c buffer) else buffer)
    go true e more =
        let room : length buffer + 1 < size = ground arith in
        more (sanitize_char_chars c buffer w.0, omega (arith, length-sanitize_char c buffer))
    go false e more = w

trim_dashes-Fits : (size : ℕ) (buffer : Bytes) → Fits size buffer → Fits size (trim_dashes buffer)
unfolding trim_dashes
trim_dashes-Fits size [] w = w
trim_dashes-Fits size (last ∷ rest) w =
    let kept : Fits size rest = (ground (arith, w.0), omega (arith, w.1)) in
    either_fits (last == b'-') (trim_dashes rest) (last ∷ rest) (trim_dashes-Fits size rest kept) w
  where
    either_fits :
        (b : Bool) (x y : Bytes) → Fits size x → Fits size y → Fits size (if b then x else y)
    either_fits true x y h k = h
    either_fits false x y h k = k

in_order_chars :
    (buffer text : Bytes)
    → all is_slug_char buffer ≡ true
    → all is_slug_char text ≡ true
    → all is_slug_char (in_order buffer text) ≡ true
in_order_chars [] text h k = k
in_order_chars (last ∷ rest) text h k =
    in_order_chars rest (last ∷ text) (ground arith) (ground arith)

length-in_order :
    (buffer text : Bytes) → length (in_order buffer text) ≡ length buffer + length text
length-in_order [] text = omega arith
length-in_order (last ∷ rest) text = omega (arith, length-in_order rest (last ∷ text))

not_nil : (text : Bytes) → 1 ≤ length text → text ≢ []
not_nil [] h = λ e. elim (above_zero h) [ ]
  where
    above_zero : 1 ≤ 0 → ⊥
    above_zero h = omega arith
not_nil (c ∷ cs) h = λ e. cc

or_touchscreen-IsSlug : (buffer : Bytes) → Fits 96 buffer → IsSlug 96 (or_touchscreen 96 buffer)
or_touchscreen-IsSlug [] w = (refl, λ e. cc, omega arith)
or_touchscreen-IsSlug (c ∷ cs) w = (
  in_order_chars (c ∷ cs) [] w.0 refl,
  not_nil _ (omega (arith, length-in_order (c ∷ cs) [])),
  omega (arith, length-in_order (c ∷ cs) []),
)

-- Whatever the device calls itself, its name in a profile is made of lower-case letters, digits and
-- dashes, at least one, and fits its buffer.
pub sanitize_name-IsSlug : (device : Bytes) → IsSlug 96 (sanitize_name 96 device)
unfolding sanitize_name
sanitize_name-IsSlug [] = (refl, λ e. cc, omega arith)
sanitize_name-IsSlug (c ∷ cs) =
    or_touchscreen-IsSlug _
      (trim_dashes-Fits 96 _ (sanitize_chars-Fits 96 (c ∷ cs) [] (refl, omega arith)))

-- A byte of a slug or a dot.
abbrev pub is_file_char : ℕ → Bool
is_file_char c = is_slug_char c || c == b'.'

all-append :
    (xs ys : Bytes)
    → all is_file_char xs ≡ true
    → all is_file_char ys ≡ true
    → all is_file_char (xs ++ ys) ≡ true
all-append [] ys h k = k
all-append (x ∷ xs) ys h k = ground (arith, all-append xs ys)

slug_is_file : (xs : Bytes) → all is_slug_char xs ≡ true → all is_file_char xs ≡ true
slug_is_file [] h = refl
slug_is_file (x ∷ xs) h = ground (arith, slug_is_file xs)

hex_digit_char : (n : ℕ) → n < 16 → is_file_char (hex_digit n) ≡ true
hex_digit_char n h = ground arith

hex4_chars : (n : ℕ) → all is_file_char (hex4 n) ≡ true
hex4_chars n = ground (
  arith,
  hex_digit_char (n / 4096 % 16) (omega arith),
  hex_digit_char (n / 256 % 16) (omega arith),
  hex_digit_char (n / 16 % 16) (omega arith),
  hex_digit_char (n % 16) (omega arith),
)

rotation_chars :
    (turned : Rotation)
    → (all is_file_char (rotation_name turned) ≡ true) × (length (rotation_name turned) ≤ 6)
unfolding rotation_name
rotation_chars rotation_normal = (refl, omega arith)
rotation_chars rotation_90 = (refl, omega arith)
rotation_chars rotation_180 = (refl, omega arith)
rotation_chars rotation_270 = (refl, omega arith)

basename_chars :
    (slug : Bytes) (vendor product : ℕ) (turned : Rotation)
    → IsSlug 96 slug
    → (all is_file_char (basename_text slug vendor product turned) ≡ true)
      × (length (basename_text slug vendor product turned) < 160)
basename_chars slug vendor product turned w =
    let tail = rotation_name turned ++ codes ".json" in
    let name = rotation_chars turned in
    let last = all-append (rotation_name turned) (codes ".json") name.0 refl in
    let second = all-append (hex4 product) (b'-' ∷ tail) (hex4_chars product) last in
    let first =
      all-append (hex4 vendor) (b'-' ∷ (hex4 product ++ (b'-' ∷ tail))) (hex4_chars vendor)
        second in
    (
      all-append slug (b'-' ∷ (hex4 vendor ++ (b'-' ∷ (hex4 product ++ (b'-' ∷ tail)))))
          (slug_is_file slug w.0) first,
      omega (
        arith,
        w.2,
        name.1,
        length-append (rotation_name turned) (codes ".json"),
        length-append slug (b'-' ∷ (hex4 vendor ++ (b'-' ∷ (hex4 product ++ (b'-' ∷ tail))))),
      ),
    )

-- Whatever the device calls itself, the name of its profile fits the 160 bytes it is written to, and is
-- made of lower-case letters, digits, dashes and dots: no slash leads out of the directory.
pub profile_basename-fits :
    (device : Bytes) (vendor product : ℕ) (turned : Rotation)
    → (name : Bytes) × (profile_basename 160 device vendor product turned ≡ some name)
      × (all is_file_char name ≡ true)
unfolding profile_basename
profile_basename-fits device vendor product turned =
    let w =
      basename_chars (sanitize_name 96 device) vendor product turned
        (sanitize_name-IsSlug device) in
    (basename_text (sanitize_name 96 device) vendor product turned, rw (lt→ltb _ _ w.1) refl, w.0)
