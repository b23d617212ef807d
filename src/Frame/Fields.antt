-- ===== src/Frame/Fields.antt =====
-- Reading fields back: the first field with a key wins, and each typed reader undoes its writer.
use lumo_compositor.Base.{
  ℕ, Bool, true, false, ◌≡◌, refl, ◌∙◌, ◌^◌, ◌<◌, Option, none, some, List, [], ◌∷◌, ◌++◌, arith,
  all, if◌then◌else◌,
}
use lumo_compositor.CString.{Bytes, codes, str_eq, decimal, ulong_mod, is_digit}
use lumo_compositor.CString.Equality.{str_eq_refl, not_nul}
use lumo_compositor.CString.Decimal.{strtoul-decimal, all-is_digit-decimal, length-decimal}
use lumo_compositor.Frame.{
  Field, Frame, find_field, frame_get, frame_get_bool, frame_get_u32, frame_add_field,
  frame_add_bool, frame_add_u32, bool_of_text, uint32_of_text,
}
use lumo_compositor.Frame.Text.{frame_add_field-eq-some}

abbrev pub or_else : Option Bytes → Option Bytes → Option Bytes
or_else none later = later
or_else (some v) later = some v

find_field-concat :
    (key : Bytes) (fs : List Field) (x : Field)
    → find_field key (fs ++ x ∷ [])
      ≡ or_else (find_field key fs) (if str_eq x.key key then some x.value else none)
unfolding find_field
find_field-concat key [] x = refl
find_field-concat key (f ∷ fs) x = ground (arith, find_field-concat key fs x)

-- Once a field is added, a key that had a value keeps it, the new key reads the new value if it
-- had none, and no other key is touched.
pub frame_get-frame_add_field :
    (f : Frame) (key value other : Bytes) {g : Frame}
    → all not_nul value ≡ true
    → frame_add_field f key value ≡ some g
    → frame_get g other
      ≡ or_else (frame_get f other) (if str_eq key other then some value else none)
unfolding frame_get
frame_get-frame_add_field f key value other n h =
    let (_, _, e) = frame_add_field-eq-some f key value n h in
    rw e (find_field-concat other f.fields (record { key = key; value = value }))

get_added :
    (f : Frame) (key value : Bytes) {g : Frame}
    → all not_nul value ≡ true
    → frame_get f key ≡ none
    → frame_add_field f key value ≡ some g
    → frame_get g key ≡ some value
get_added f key value n free h =
    frame_get-frame_add_field f key value key n h ∙ rw (free, str_eq_refl)

-- A Boolean written under a new key is read back.
pub frame_get_bool-frame_add_bool :
    (f : Frame) (key : Bytes) (value : Bool) {g : Frame}
    → frame_get f key ≡ none
    → frame_add_bool f key value ≡ some g
    → frame_get_bool g key ≡ some value
unfolding frame_add_bool frame_get_bool bool_of_text
frame_get_bool-frame_add_bool f key true free h = rw (get_added f key (codes "1") refl free h)
frame_get_bool-frame_add_bool f key false free h = rw (get_added f key (codes "0") refl free h)

pub uint32_of_text-decimal : (n : ℕ) → n < 2 ^ 32 → uint32_of_text (decimal n) ≡ some n
unfolding uint32_of_text
uint32_of_text-decimal n h =
    let small : n < ulong_mod = omega arith in
    rw (strtoul-decimal n small) (ground (arith, str_eq_refl []))

pub digits-not_nul : (s : Bytes) → all is_digit s ≡ true → all not_nul s ≡ true
digits-not_nul [] h = refl
digits-not_nul (c ∷ cs) h = ground (arith, digits-not_nul cs)

-- A 32-bit number written under a new key is read back.
pub frame_get_u32-frame_add_u32 :
    (f : Frame) (key : Bytes) (value : ℕ) {g : Frame}
    → value < 2 ^ 32
    → frame_get f key ≡ none
    → frame_add_u32 f key value ≡ some g
    → frame_get_u32 g key ≡ some value
unfolding frame_add_u32 frame_get_u32
frame_get_u32-frame_add_u32 f key value {g} small free h =
    let digits = digits-not_nul (decimal value) (all-is_digit-decimal value) in
    let added : frame_add_field f key (decimal value) ≡ some g =
      ground (arith, length-decimal value) in
    rw (get_added f key (decimal value) digits free added) (uint32_of_text-decimal value small)
