-- ===== src/Bridge/Entries.antt =====
-- Adding the fields of a list of calls to a frame: it stays well formed, keeps the values it has,
-- and gets those of the list.
use mathlib.Core.Path.{subst}
use lumo_compositor.Base.{
  ℕ, ◌⊎◌, inl, inr, Bool, true, false, List, [], ◌∷◌, ◌++◌, Option, none, some, if◌then◌else◌, all,
  All, ◌≡◌, refl, sym, ap, ◌∙◌, arith, ◌>>=◌, >>=-eq-some, some-inj,
}
use lumo_compositor.CString.{Bytes, codes, str_eq, decimal}
use lumo_compositor.CString.Equality.{not_nul}
use lumo_compositor.CString.Decimal.{all-is_digit-decimal}
use lumo_compositor.Frame.{
  Frame, IsFrame, frame_get, frame_add_field, frame_add_bool, frame_add_u32, frame_add_string,
}
use lumo_compositor.Frame.Text.{frame_add_field-IsFrame}
use lumo_compositor.Frame.Fields.{or_else, frame_get-frame_add_field, digits-not_nul}
use lumo_compositor.Bridge.{
  Entry, flag, number, text, printed, tried_text, tried_number, frame_add_printed, keep, add_entry,
  add_entries,
}

abbrev pub bool_text : Bool → Bytes
bool_text value = if value then codes "1" else codes "0"

abbrev pub entry_key : Entry → Bytes
entry_key (flag key value) = key
entry_key (number key value) = key
entry_key (text key value) = key
entry_key (printed key value) = key
entry_key (tried_text key value) = key
entry_key (tried_number key value) = key

abbrev pub entry_value : Entry → Bytes
entry_value (flag key value) = bool_text value
entry_value (number key value) = decimal value
entry_value (text key value) = value
entry_value (printed key value) = value
entry_value (tried_text key value) = value
entry_value (tried_number key value) = decimal value

-- The strings of a call hold no NUL.
abbrev pub IsString : Bytes → Type 0
IsString s = all not_nul s ≡ true

abbrev pub IsText : Entry → Type 0
IsText e = IsString (entry_value e)

pub bool_text-IsString : (b : Bool) → IsString (bool_text b)
bool_text-IsString true = refl
bool_text-IsString false = refl

pub decimal-IsString : (n : ℕ) → IsString (decimal n)
decimal-IsString n = digits-not_nul (decimal n) (all-is_digit-decimal n)

-- A call that succeeds added its field, or left the frame as it was.
abbrev pub Added : Entry → Frame → Frame → Type 0
Added e f g = (g ≡ f) ⊎ (frame_add_field f (entry_key e) (entry_value e) ≡ some g)

u32_added :
    (f : Frame) (key : Bytes) (n : ℕ) {g : Frame}
    → frame_add_u32 f key n ≡ some g
    → frame_add_field f key (decimal n) ≡ some g
unfolding frame_add_u32
u32_added f key n h = ground arith

printed_added :
    (f : Frame) (key value : Bytes) {g : Frame}
    → frame_add_printed f key value ≡ some g
    → frame_add_field f key value ≡ some g
unfolding frame_add_printed
printed_added f key value h = ground arith

-- A call whose answer is not looked at.
tried_added :
    (f : Frame) (o : Option Frame) (g : Frame) → some (keep f o) ≡ some g → (g ≡ f) ⊎ (o ≡ some g)
tried_added f none g h = inl (sym (some-inj h))
tried_added f (some k) g h = inr h

pub add_entry-Added : (e : Entry) (f g : Frame) → add_entry e f ≡ some g → Added e f g
unfolding add_entry frame_add_bool frame_add_string
add_entry-Added (flag key value) f g h = inr h
add_entry-Added (number key value) f g h = inr (u32_added f key value h)
add_entry-Added (text key value) f g h = inr h
add_entry-Added (printed key value) f g h = inr (printed_added f key value h)
add_entry-Added (tried_text key value) f g h = tried_added f (frame_add_field f key value) g h
add_entry-Added (tried_number key value) f g h =
    elim (tried_added f (frame_add_u32 f key value) g h) [
      | inl same ↦ inl same
      | inr added ↦ inr (u32_added f key value added)
    ]

add_entry-IsFrame :
    (e : Entry) (f g : Frame) → IsText e → IsFrame f → add_entry e f ≡ some g → IsFrame g
add_entry-IsFrame e f g t w h = elim (add_entry-Added e f g h) [
  | inl same ↦ subst IsFrame (sym same) w
  | inr added ↦ frame_add_field-IsFrame f (entry_key e) (entry_value e) t w added
]

pub add_entries-IsFrame :
    (es : List Entry) (f g : Frame)
    → All IsText es
    → IsFrame f
    → add_entries es f ≡ some g
    → IsFrame g
unfolding add_entries
add_entries-IsFrame [] f g t w h = subst IsFrame (some-inj h) w
add_entries-IsFrame (e ∷ es) f g t w h =
    let more = >>=-eq-some (add_entry e f) _ h in
    add_entries-IsFrame es more.0 g t.1 (add_entry-IsFrame e f more.0 t.0 w more.1) more.2

-- A value that is there stays.
pub add_entries-keep :
    (es : List Entry) (f g : Frame) (key value : Bytes)
    → All IsText es
    → frame_get f key ≡ some value
    → add_entries es f ≡ some g
    → frame_get g key ≡ some value
unfolding add_entries
add_entries-keep [] f g key value t at h = ap (λ x. frame_get x key) (sym (some-inj h)) ∙ at
add_entries-keep (e ∷ es) f g key value t at h =
    let more = >>=-eq-some (add_entry e f) _ h in
    add_entries-keep es more.0 g key value t.1 (kept more.0 (add_entry-Added e f more.0 more.1))
      more.2
  where
    kept : (k : Frame) → Added e f k → frame_get k key ≡ some value
    kept k (inl same) = ap (λ x. frame_get x key) same ∙ at
    kept k (inr added) =
        frame_get-frame_add_field f (entry_key e) (entry_value e) key t.0 added
        ∙ ap (λ o. or_else o (if str_eq (entry_key e) key then some (entry_value e) else none)) at

-- The calls whose answers are looked at.
abbrev pub IsChecked : Entry → Type 0
IsChecked e =
    (f g : Frame)
    → add_entry e f ≡ some g
    → frame_add_field f (entry_key e) (entry_value e) ≡ some g

pub flag-IsChecked : (key : Bytes) (b : Bool) → IsChecked (flag key b)
unfolding add_entry frame_add_bool
flag-IsChecked key b f g h = h

pub number-IsChecked : (key : Bytes) (n : ℕ) → IsChecked (number key n)
unfolding add_entry
number-IsChecked key n f g h = u32_added f key n h

-- The value of the first call with the key.
unfoldable pub find_entry : Bytes → List Entry → Option Bytes
find_entry key [] = none
find_entry key (e ∷ es) =
    or_else (if str_eq (entry_key e) key then some (entry_value e) else none) (find_entry key es)

or_else-none : (o : Option Bytes) → or_else o none ≡ o
or_else-none none = refl
or_else-none (some v) = refl

or_else_assoc : (a b c : Option Bytes) → or_else (or_else a b) c ≡ or_else a (or_else b c)
or_else_assoc none b c = refl
or_else_assoc (some v) b c = refl

pub add_entries-find_entry :
    (es : List Entry) (f g : Frame) (key : Bytes)
    → All IsText es
    → All IsChecked es
    → add_entries es f ≡ some g
    → frame_get g key ≡ or_else (frame_get f key) (find_entry key es)
unfolding add_entries find_entry
add_entries-find_entry [] f g key t c h =
    ap (λ x. frame_get x key) (sym (some-inj h)) ∙ sym (or_else-none (frame_get f key))
add_entries-find_entry (e ∷ es) f g key t c h =
    let more = >>=-eq-some (add_entry e f) _ h in
    let here : Option Bytes = if str_eq (entry_key e) key then some (entry_value e) else none in
    add_entries-find_entry es more.0 g key t.1 c.1 more.2
    ∙ ap (λ o. or_else o (find_entry key es))
        (frame_get-frame_add_field f (entry_key e) (entry_value e) key t.0 (c.0 f more.0 more.1))
    ∙ or_else_assoc (frame_get f key) here (find_entry key es)

pub add_entries-append :
    (front back : List Entry) (f h : Frame)
    → add_entries (front ++ back) f ≡ some h
    → (g : Frame) × (add_entries front f ≡ some g) × (add_entries back g ≡ some h)
unfolding add_entries
add_entries-append [] back f h e = (f, refl, e)
add_entries-append (a ∷ front) back f h e =
    let more = >>=-eq-some (add_entry a f) _ e in
    let rest = add_entries-append front back more.0 h more.2 in
    (rest.0, ap (λ o. o >>= add_entries front) more.1 ∙ rest.1, rest.2)
