-- ===== src/Bridge/Writing.antt =====
-- Writing a text to a client's socket, lumo_shell_bridge_write_all of compositor/src/shell/shell_bridge.c. What the
-- calls of send and poll answer is an explicit list.
use lumo_compositor.Base.{
  ℕ, zero, suc, ◌≤◌, Bool, true, false, List, [], ◌∷◌, ◌++◌, Option, none, some, ◌==◌,
  if◌then◌else◌, length, take, drop, ◌≡◌, refl, sym, ap, ◌∙◌, arith, append_assoc, append-nil, map,
}
use lumo_compositor.CString.{Bytes}

-- send: a number of bytes, an interrupt, a full socket that can be written again in time or not, or
-- another error.
pub data SendAnswer : Type 0 where
  sent : ℕ → SendAnswer
  interrupted : SendAnswer
  would_block : Bool → SendAnswer
  failed : SendAnswer

-- The bytes that went out and those left, with the answer once there is one.
pub record Written : Type 0 where
  pub out : Bytes
  pub left : Bytes
  pub answer : Option Bool

abbrev refused : Bytes → Bytes → Written
refused out left = record { out = out; left = left; answer = some false }

-- The loop, as long as bytes are left and the socket answers. `send` takes no more than it is given.
unfoldable pub write_left : List SendAnswer → Bytes → Bytes → Written
write_left answers out [] = record { out = out; left = []; answer = some true }
write_left [] out (b ∷ bs) = record { out = out; left = b ∷ bs; answer = none }
write_left (interrupted ∷ rest) out (b ∷ bs) = write_left rest out (b ∷ bs)
write_left (would_block again ∷ rest) out (b ∷ bs) =
    let later = write_left rest out (b ∷ bs) in if again then later else refused out (b ∷ bs)
write_left (failed ∷ rest) out (b ∷ bs) = refused out (b ∷ bs)
write_left (sent n ∷ rest) out (b ∷ bs) =
    let later = write_left rest (out ++ take n (b ∷ bs)) (drop n (b ∷ bs)) in
    if n == 0 then refused out (b ∷ bs) else later

unfoldable pub write_all : List SendAnswer → Bytes → Written
unfolding write_left
write_all answers [] = refused [] []
write_all answers (b ∷ bs) = write_left answers [] (b ∷ bs)

take-drop : (n : ℕ) (xs : Bytes) → take n xs ++ drop n xs ≡ xs
take-drop zero xs = refl
take-drop (suc n) [] = refl
take-drop (suc n) (x ∷ xs) = ap (λ t. x ∷ t) (take-drop n xs)

-- What went out and what is left make the whole.
abbrev IsWhole : Bytes → Written → Type 0
IsWhole whole w = (w.out ++ w.left ≡ whole) × (w.answer ≡ some true → w.left ≡ [])

either-IsWhole :
    (whole : Bytes) (b : Bool) (u v : Written)
    → IsWhole whole u
    → IsWhole whole v
    → IsWhole whole (if b then u else v)
either-IsWhole whole true u v h k = h
either-IsWhole whole false u v h k = k

write_left-IsWhole :
    (answers : List SendAnswer) (out left : Bytes)
    → IsWhole (out ++ left) (write_left answers out left)
unfolding write_left
write_left-IsWhole answers out [] = (refl, λ h. refl)
write_left-IsWhole [] out (b ∷ bs) = (refl, λ h. cc)
write_left-IsWhole (interrupted ∷ rest) out (b ∷ bs) = write_left-IsWhole rest out (b ∷ bs)
write_left-IsWhole (would_block again ∷ rest) out (b ∷ bs) =
    either-IsWhole _ again _ _ (write_left-IsWhole rest out (b ∷ bs)) (refl, λ h. cc)
write_left-IsWhole (failed ∷ rest) out (b ∷ bs) = (refl, λ h. cc)
write_left-IsWhole (sent n ∷ rest) out (b ∷ bs) =
    either-IsWhole _ (n == 0) _ _ (refl, λ h. cc)
      (sent_more (write_left-IsWhole rest (out ++ take n (b ∷ bs)) (drop n (b ∷ bs))))
  where
    sent_more :
        IsWhole
          ((out ++ take n (b ∷ bs)) ++ drop n (b ∷ bs))
          (write_left rest (out ++ take n (b ∷ bs)) (drop n (b ∷ bs)))
        → IsWhole (out ++ b ∷ bs) (write_left rest (out ++ take n (b ∷ bs)) (drop n (b ∷ bs)))
    sent_more h = (
      h.0
          ∙ append_assoc out (take n (b ∷ bs)) (drop n (b ∷ bs))
          ∙ ap (λ t. out ++ t) (take-drop n (b ∷ bs)),
      h.1,
    )

all_out : (w : Written) (text : Bytes) → IsWhole text w → w.answer ≡ some true → w.out ≡ text
all_out w text h done = sym (append-nil w.out) ∙ ap (λ t. w.out ++ t) (sym (h.1 done)) ∙ h.0

-- Whatever the socket answers, the bytes that went out are the front of the text, and all of it when
-- the answer is true.
pub write_all-prefix :
    (answers : List SendAnswer) (text : Bytes)
    → ((write_all answers text).out ++ (write_all answers text).left ≡ text)
      × ((write_all answers text).answer ≡ some true → (write_all answers text).out ≡ text)
unfolding write_all
write_all-prefix answers [] = (refl, λ h. refl)
write_all-prefix answers (b ∷ bs) =
    let whole = write_left-IsWhole answers [] (b ∷ bs) in
    (whole.0, all_out (write_left answers [] (b ∷ bs)) (b ∷ bs) whole)

-- A socket that takes at least one byte whenever it is asked, each number here plus one.
abbrev pub sends : List ℕ → List SendAnswer
sends ns = map (λ n. sent (suc n)) ns

none_left : (n : ℕ) → suc n ≤ 0 → ⊥
none_left n h = omega arith

length-drop_le : (n : ℕ) (xs : Bytes) → length (drop n xs) ≤ length xs
length-drop_le zero xs = omega arith
length-drop_le (suc n) [] = omega arith
length-drop_le (suc n) (x ∷ xs) = omega (arith, length-drop_le n xs)

write_left-sends :
    (ns : List ℕ) (out left : Bytes)
    → length left ≤ length ns
    → (write_left (sends ns) out left).answer ≡ some true
unfolding write_left
write_left-sends ns out [] h = refl
write_left-sends [] out (b ∷ bs) h = elim (none_left (length bs) h) [ ]
write_left-sends (n ∷ ns) out (b ∷ bs) h =
    go (suc n == 0) (ground arith)
      (write_left-sends ns (out ++ b ∷ take n bs) (drop n bs) (omega (arith, length-drop_le n bs)))
  where
    go :
        (t : Bool)
        → t ≡ false
        → (write_left (sends ns) (out ++ b ∷ take n bs) (drop n bs)).answer ≡ some true
        → (if t
            then refused out (b ∷ bs)
            else write_left (sends ns) (out ++ b ∷ take n bs) (drop n bs)).answer
          ≡ some true
    go true wrong later = cc
    go false wrong later = later

-- Over a socket that takes at least one byte whenever it is asked, a text that is not empty is
-- written whole, in as many calls as it has bytes at most.
pub write_all-sends :
    (ns : List ℕ) (b : ℕ) (bs : Bytes)
    → length (b ∷ bs) ≤ length ns
    → ((write_all (sends ns) (b ∷ bs)).answer ≡ some true)
      × ((write_all (sends ns) (b ∷ bs)).out ≡ b ∷ bs)
unfolding write_all
write_all-sends ns b bs h =
    let done = write_left-sends ns [] (b ∷ bs) h in
    (done, (write_all-prefix (sends ns) (b ∷ bs)).1 done)
