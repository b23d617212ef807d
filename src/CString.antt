-- ===== src/CString.antt =====
-- What the sources use of the C library's strings: a string is the list of its bytes in front of
-- the terminating NUL.
pub mod Equality
pub mod Decimal
use Prim.Native.Char.{code}
use Prim.Native.String.{String}
use lumo_compositor.Base.{
  ℕ, zero, suc, ◌+◌, ◌-◌, ◌*◌, ◌/◌, ◌%◌, ◌^◌, Bool, true, false, ◌&&◌, ◌||◌, not, List, [], ◌∷◌,
  ltb, leb, ◌==◌, if◌then◌else◌, take,
}

abbrev pub Bytes : Type 0
Bytes = List ℕ

-- The bytes of an ASCII literal.
abbrev pub codes : String → Bytes
codes String.[] = []
codes (String.◌∷◌ c s) = code c ∷ codes s

-- The string that starts at a buffer's first byte.
unfoldable pub c_str : Bytes → Bytes
c_str [] = []
c_str (c ∷ cs) = if c == 0 then [] else c ∷ c_str cs

-- strcmp(a, b) == 0
unfoldable pub str_eq : Bytes → Bytes → Bool
str_eq [] [] = true
str_eq [] (y ∷ ys) = false
str_eq (x ∷ xs) [] = false
str_eq (x ∷ xs) (y ∷ ys) = x == y && str_eq xs ys

-- snprintf(buffer, size, "%s", text): what fits with its NUL.
abbrev pub snprintf_text : ℕ → Bytes → Bytes
snprintf_text size text = take (size - 1) text

-- printf's %u: the digits of `n` in front of `rest`, on fuel above `n`.
unfoldable pub decimal_onto : ℕ → ℕ → Bytes → Bytes
decimal_onto zero n rest = rest
decimal_onto (suc f) n rest =
    let more = decimal_onto f (n / 10) ((b'0' + n % 10) ∷ rest) in
    if ltb n 10 then (b'0' + n) ∷ rest else more

unfoldable pub decimal : ℕ → Bytes
unfolding decimal_onto
decimal n = decimal_onto (suc n) n []

abbrev pub is_digit : ℕ → Bool
is_digit c = leb b'0' c && leb c b'9'

-- isspace in the C locale.
abbrev pub is_space : ℕ → Bool
is_space c = c == b' ' || (leb 9 c && leb c 13)

-- The value of the digits in front, from the value so far, and what follows them.
pub record Digits : Type 0 where
  pub value : ℕ
  pub rest : Bytes

unfoldable pub read_digits : ℕ → Bytes → Digits
read_digits acc [] = record { value = acc; rest = [] }
read_digits acc (c ∷ cs) =
    let more = read_digits (acc * 10 + (c - b'0')) cs in
    if is_digit c then more else record { value = acc; rest = c ∷ cs }

-- strtoul in base 10 over a 64-bit unsigned long: `consumed` is `end != start`, `out_of_range` is
-- `errno == ERANGE`. A minus sign negates modulo 2^64.
pub record Strtoul : Type 0 where
  pub value : ℕ
  pub rest : Bytes
  pub consumed : Bool
  pub out_of_range : Bool

abbrev pub ulong_mod : ℕ
ulong_mod = 2 ^ 64

strtoul_digits : Bool → Bytes → Bytes → Strtoul
strtoul_digits negative start [] = record {
  value = 0;
  rest = start;
  consumed = false;
  out_of_range = false;
}
strtoul_digits negative start (c ∷ cs) =
    let d = read_digits 0 (c ∷ cs) in
    if not (is_digit c)
    then record { value = 0; rest = start; consumed = false; out_of_range = false }
    else if leb ulong_mod d.value
    then record { value = ulong_mod - 1; rest = d.rest; consumed = true; out_of_range = true }
    else record {
      value = if negative then (ulong_mod - d.value) % ulong_mod else d.value;
      rest = d.rest;
      consumed = true;
      out_of_range = false;
    }

strtoul_sign : Bytes → Bytes → Strtoul
strtoul_sign start [] = strtoul_digits false start []
strtoul_sign start (c ∷ cs) =
    if c == b'-'
    then strtoul_digits true start cs
    else if c == b'+'
    then strtoul_digits false start cs
    else strtoul_digits false start (c ∷ cs)

strtoul_from : Bytes → Bytes → Strtoul
strtoul_from start [] = strtoul_sign start []
strtoul_from start (c ∷ cs) =
    let later = strtoul_from start cs in if is_space c then later else strtoul_sign start (c ∷ cs)

unfoldable pub strtoul : Bytes → Strtoul
unfolding strtoul_from strtoul_sign strtoul_digits read_digits
strtoul s = strtoul_from s s

abbrev pub uint32_mod : ℕ
uint32_mod = 2 ^ 32

unfoldable pub starts_exactly : Bytes → Bytes → Bool
starts_exactly text [] = true
starts_exactly [] (c ∷ cs) = false
starts_exactly (t ∷ ts) (c ∷ cs) = t == c && starts_exactly ts cs

-- strstr(text, part) != NULL for a part that is not empty
unfoldable pub strstr : Bytes → Bytes → Bool
unfolding starts_exactly
strstr [] part = false
strstr (t ∷ ts) part = starts_exactly (t ∷ ts) part || strstr ts part
