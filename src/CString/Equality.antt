-- ===== src/CString/Equality.antt =====
-- strcmp decides equality, and a string holds no NUL.
use lumo_compositor.Base.{ℕ, Bool, true, not, ◌≡◌, refl, ◌↔◌, [], ◌∷◌, arith, ◌==◌, all}
use lumo_compositor.CString.{Bytes, c_str, str_eq}

pub str_eq_iff : (a b : Bytes) → (str_eq a b ≡ true) ↔ (a ≡ b)
unfolding str_eq
str_eq_iff (x ∷ a) (y ∷ b) = ground (arith, str_eq_iff a b)
str_eq_iff _ _ = ground arith

pub str_eq_refl : (a : Bytes) → str_eq a a ≡ true
str_eq_refl a = (str_eq_iff a a).1 refl

abbrev pub not_nul : ℕ → Bool
not_nul c = not (c == 0)

pub all-not_nul-c_str : (s : Bytes) → all not_nul (c_str s) ≡ true
unfolding c_str
all-not_nul-c_str [] = refl
all-not_nul-c_str (c ∷ cs) = ground (arith, all-not_nul-c_str cs)

pub c_str-of_not_nul : (s : Bytes) → all not_nul s ≡ true → c_str s ≡ s
unfolding c_str
c_str-of_not_nul [] h = refl
c_str-of_not_nul (c ∷ cs) h = ground (arith, c_str-of_not_nul cs)
