-- ===== src/CString/Decimal.antt =====
-- strtoul reads back what %u prints.
use native.Mathlib.Nat.{pow-suc}
use lumo_compositor.Base.{
  ℕ, zero, suc, ◌+◌, ◌*◌, ◌/◌, ◌%◌, ◌^◌, ◌≤◌, ◌<◌, true, false, ◌≡◌, ◌≢◌, refl, [], ◌∷◌, inl, inr,
  ◌∙◌, arith, Bool-cases, ltb, length, all,
}
use lumo_compositor.CString.{
  Bytes, decimal_onto, decimal, is_digit, read_digits, strtoul, ulong_mod,
}

read_digits-cons :
    (acc d : ℕ) (rest : Bytes)
    → d < 10
    → read_digits acc ((b'0' + d) ∷ rest) ≡ read_digits (acc * 10 + d) rest
unfolding read_digits
read_digits-cons acc d rest h = ground arith

read_digits-decimal_onto :
    (f n : ℕ) (rest : Bytes) → n < f → read_digits 0 (decimal_onto f n rest) ≡ read_digits n rest
unfolding decimal_onto
read_digits-decimal_onto zero n rest h = elim h [ ]
read_digits-decimal_onto (suc f) n rest h = elim (Bool-cases (ltb n 10)) [
  | inl small ↦ rw small (ground (arith, read_digits-cons 0 n rest))
  | inr large ↦ rw large (
      ground (
        arith,
        read_digits-decimal_onto f (n / 10) ((b'0' + n % 10) ∷ rest),
        read_digits-cons (n / 10) (n % 10) rest,
      ))
]

pub read_digits-decimal : (n : ℕ) → read_digits 0 (decimal n) ≡ record { value = n; rest = [] }
unfolding decimal
read_digits-decimal n =
    read_digits-decimal_onto (suc n) n [] (omega arith) ∙ unfold read_digits in refl

-- Every byte of a decimal is a digit.
all-is_digit-decimal_onto :
    (f n : ℕ) (rest : Bytes)
    → all is_digit rest ≡ true
    → all is_digit (decimal_onto f n rest) ≡ true
unfolding decimal_onto
all-is_digit-decimal_onto zero n rest h = h
all-is_digit-decimal_onto (suc f) n rest h =
    ground (arith, all-is_digit-decimal_onto f (n / 10) ((b'0' + n % 10) ∷ rest))

pub all-is_digit-decimal : (n : ℕ) → all is_digit (decimal n) ≡ true
unfolding decimal
all-is_digit-decimal n = all-is_digit-decimal_onto (suc n) n [] refl

decimal_onto-ne-nil : (f n : ℕ) (rest : Bytes) → (rest ≢ []) → decimal_onto f n rest ≢ []
unfolding decimal_onto
decimal_onto-ne-nil zero n rest h = h
decimal_onto-ne-nil (suc f) n rest h =
    ground (arith, decimal_onto-ne-nil f (n / 10) ((b'0' + n % 10) ∷ rest))

pub decimal-ne-nil : (n : ℕ) → decimal n ≢ []
unfolding decimal decimal_onto
decimal-ne-nil n = ground (arith, decimal_onto-ne-nil n (n / 10) ((b'0' + n % 10) ∷ []))

-- The value of a nonempty run of digits.
strtoul-digits :
    (s : Bytes)
    → all is_digit s ≡ true
    → s ≢ []
    → (read_digits 0 s).value < ulong_mod
    → strtoul s ≡ record {
      value = (read_digits 0 s).value;
      rest = (read_digits 0 s).rest;
      consumed = true;
      out_of_range = false;
    }
unfolding strtoul
strtoul-digits [] h ne lt = absurd (ne refl)
strtoul-digits (c ∷ cs) h ne lt = ground arith

pub strtoul-decimal :
    (n : ℕ)
    → n < ulong_mod
    → strtoul (decimal n) ≡ record { value = n; rest = []; consumed = true; out_of_range = false }
strtoul-decimal n h =
    strtoul-digits (decimal n) (all-is_digit-decimal n) (decimal-ne-nil n)
      (rw (read_digits-decimal n) h)
    ∙ rw (read_digits-decimal n)

-- The digits that are put in front number at most `k` for a value below 10^k.
length-decimal_onto :
    (k f n : ℕ) (rest : Bytes)
    → n < f
    → n < 10 ^ k
    → k ≢ 0
    → length (decimal_onto f n rest) ≤ k + length rest
unfolding decimal_onto
length-decimal_onto k zero n rest h p e = elim h [ ]
length-decimal_onto zero (suc f) n rest h p e = absurd (e refl)
length-decimal_onto (suc zero) (suc f) n rest h p e = ground arith
length-decimal_onto (suc (suc k)) (suc f) n rest h p e =
    let q : n < 10 ^ suc k * 10 = rw pow-suc at p in
    ground (arith, length-decimal_onto (suc k) f (n / 10) ((b'0' + n % 10) ∷ rest))

pub length-decimal : (n : ℕ) → n < 2 ^ 32 → length (decimal n) ≤ 10
unfolding decimal
length-decimal n h = length-decimal_onto 10 (suc n) n [] (omega arith) (omega arith) (omega arith)
