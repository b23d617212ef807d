-- ===== src/Stream/Fuel.antt =====
-- The fuel of the header's option loop is enough: it reads at least one byte a round.
use lumo_compositor.Base.{
  ℕ, zero, suc, ◌<◌, ◌≤◌, ◌≡◌, refl, sym, Bool, true, false, Option, none, some, [], ◌∷◌, arith,
  length, ◌>>=◌, if◌then◌else◌,
}
use lumo_compositor.CString.{Bytes, str_eq}
use lumo_compositor.Frame.{uint32_of_text}
use lumo_compositor.Stream.{skip_spaces, token, after_token, strip_id, parse_options}

length-skip_spaces : (cs : Bytes) → length (skip_spaces cs) ≤ length cs
unfolding skip_spaces
length-skip_spaces [] = omega arith
length-skip_spaces (c ∷ cs) = ground (arith, length-skip_spaces cs)

length-after_token : (cs : Bytes) → length (after_token cs) ≤ length cs
unfolding after_token
length-after_token [] = omega arith
length-after_token (c ∷ cs) = ground (arith, length-after_token cs)

length-next : (c : ℕ) (cs : Bytes) → length (skip_spaces (after_token (c ∷ cs))) ≤ length cs
unfolding after_token
length-next c cs =
    ground (
      arith,
      length-skip_spaces (after_token (c ∷ cs)),
      length-skip_spaces cs,
      length-after_token cs,
    )

-- The id that a word of the header gives.
abbrev word_id : Bytes → Option ℕ
word_id word = strip_id word >>= uint32_of_text

-- Reading the options one word after another, each behind the one before it: the id so far and what
-- comes out, the last id that was given, or nothing when a word gives none.
pub data Options : Bytes → ℕ → Option ℕ → Type 0 where
  at_end : (id : ℕ) → Options [] id (some id)
  no_word :
      (c : ℕ) (cs : Bytes) (id : ℕ) (r : Option ℕ)
      → str_eq (token (c ∷ cs)) [] ≡ true
      → Options (skip_spaces (after_token (c ∷ cs))) id r
      → Options (c ∷ cs) id r
  unknown :
      (c : ℕ) (cs : Bytes) (id : ℕ)
      → str_eq (token (c ∷ cs)) [] ≡ false
      → word_id (token (c ∷ cs)) ≡ none
      → Options (c ∷ cs) id none
  known :
      (c : ℕ) (cs : Bytes) (id value : ℕ) (r : Option ℕ)
      → str_eq (token (c ∷ cs)) [] ≡ false
      → word_id (token (c ∷ cs)) ≡ some value
      → Options (skip_spaces (after_token (c ∷ cs))) value r
      → Options (c ∷ cs) id r

-- One round of the loop, with what a round gives behind it.
round :
    (c : ℕ) (cs : Bytes) (id : ℕ) (rest : ℕ → Option ℕ)
    → ((i : ℕ) → Options (skip_spaces (after_token (c ∷ cs))) i (rest i))
    → Options (c ∷ cs) id (
        if str_eq (token (c ∷ cs)) []
        then rest id
        else (strip_id (token (c ∷ cs)) >>= λ text. uint32_of_text text >>= rest))
round c cs id rest later = on_word _ refl
  where
    on_id :
        str_eq (token (c ∷ cs)) [] ≡ false
        → (o : Option Bytes) → (o >>= uint32_of_text) ≡ word_id (token (c ∷ cs))
        → Options (c ∷ cs) id (o >>= λ text. uint32_of_text text >>= rest)
    on_id e none h = unknown c cs id e (sym h)
    on_id e (some text) h = on_value (uint32_of_text text) h
      where
        on_value : (v : Option ℕ) → v ≡ word_id (token (c ∷ cs)) → Options (c ∷ cs) id (v >>= rest)
        on_value none k = unknown c cs id e (sym k)
        on_value (some value) k = known c cs id value (rest value) e (sym k) (later value)

    on_word :
        (b : Bool)
        → str_eq (token (c ∷ cs)) [] ≡ b
        → Options (c ∷ cs) id (
            if b
            then rest id
            else (strip_id (token (c ∷ cs)) >>= λ text. uint32_of_text text >>= rest))
    on_word true e = no_word c cs id (rest id) e (later id)
    on_word false e = on_id e (strip_id (token (c ∷ cs))) refl

-- With more fuel than bytes, the loop over a header's options comes to its end and gives what reading
-- the words one after another gives: the last id, or a refusal only for a word that gives no id.
pub parse_options-Options :
    (f : ℕ) (cursor : Bytes) (id : ℕ)
    → length cursor < f
    → Options cursor id (parse_options f cursor id)
unfolding parse_options
parse_options-Options zero cursor id h = elim h [ ]
parse_options-Options (suc f) [] id h = at_end id
parse_options-Options (suc f) (c ∷ cs) id h =
    let shorter = length-next c cs in
    round c cs id (parse_options f (skip_spaces (after_token (c ∷ cs))))
      (λ i. parse_options-Options f _ i (omega arith))
