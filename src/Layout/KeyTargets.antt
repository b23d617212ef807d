-- ===== src/Layout/KeyTargets.antt =====
-- Which key a touch on the keyboard hits (lumo_shell_target_for_mode of compositor/src/shell/shell_ui.c).
use mathlib.Core.Path.{subst}
use lumo_compositor.Base.{
  ℕ, zero, suc, ◌+◌, ◌*◌, ◌≤◌, ◌<◌, ◌⊎◌, inl, inr, Bool, true, false, not, ◌||◌, Option, none, some,
  ◌==◌, if◌then◌else◌, ◌>>=◌, ◌>>◌, require, ◌≡◌, ◌≢◌, ap, ◌∙◌, arith, Option-cases,
  require-eq-some,
}
use lumo_compositor.Layout.{Rect, Follows}
use lumo_compositor.Layout.Signed.{SignedRect, signed, contains}
use lumo_compositor.Layout.Keys.{
  osk_key_rect, osk_key_count, row_col_for_index, find_row, key_gap, Position,
}
use lumo_compositor.Layout.KeyRects.{osk_key_rect-FromCell}
use lumo_compositor.Layout.KeyOrder.{osk_key_rect-Follows, space_key_covers_enter}
use lumo_compositor.Layout.Modes.{osk, osk_key}
use lumo_compositor.Layout.Targets.{
  Target, target_at, if_hit, or_else, first_hit, osk_key_target, mode_target, target_with_query,
  target_for_mode,
}

here_or_later : (i k : ℕ) → i ≤ k → (i ≡ k) ⊎ (i < k)
here_or_later i k h = ground arith

-- The loop finds the candidate behind those that are not hit.
first_hit-found :
    (hit : SignedRect → Bool) (candidate : ℕ → Option Target) (n i k : ℕ) (t : Target)
    → i ≤ k
    → k < i + n
    → ((j : ℕ) → j < k → if_hit hit (candidate j) ≡ none)
    → if_hit hit (candidate k) ≡ some t
    → first_hit hit candidate n i ≡ some t
unfolding first_hit
first_hit-found hit candidate zero i k t from lt missed at = ground arith
first_hit-found hit candidate (suc n) i k t from lt missed at = elim (here_or_later i k from) [
  | inl same ↦
      let now : if_hit hit (candidate i) ≡ some t = ap (λ j. if_hit hit (candidate j)) same ∙ at in
      ap (λ o. or_else o (first_hit hit candidate n (i + 1))) now
  | inr before ↦
      ap (λ o. or_else o (first_hit hit candidate n (i + 1))) (missed i before)
      ∙ first_hit-found hit candidate n (i + 1) k t (omega arith) (omega arith) missed at
]

Follows-contains :
    (x y : ℕ) (r s : Rect)
    → Follows r s
    → contains x y (signed s) ≡ true
    → contains x y (signed r) ≡ false
unfolding Follows
Follows-contains x y r s follows h = ground arith

row_below : (key : ℕ) (p : Position) → row_col_for_index key ≡ some p → key < osk_key_count
unfolding row_col_for_index find_row
row_below key p at = ground arith

some_size :
    (width height key : ℕ) (r : Rect)
    → osk_key_rect width height key ≡ some r
    → not (width == 0 || height == 0) ≡ true
unfolding osk_key_rect
some_size width height key r h = (require-eq-some (not (width == 0 || height == 0)) _ h).0

-- A key that does not hold the pixel is passed over.
key_missed :
    (width height x y key : ℕ)
    → ((r : Rect) → osk_key_rect width height key ≡ some r → contains x y (signed r) ≡ false)
    → if_hit (contains x y) (osk_key_target width height key) ≡ none
key_missed width height x y key miss = elim (Option-cases (osk_key_rect width height key)) [
  | inl absent ↦
      ap (λ o. if_hit (contains x y) (o >>= λ r. some (target_at osk_key key (signed r)))) absent
  | inr there ↦
      ap (λ o. if_hit (contains x y) (o >>= λ r. some (target_at osk_key key (signed r)))) there.1
      ∙ ap (λ b. if b then some (target_at osk_key key (signed there.0)) else none)
          (miss there.0 there.1)
]

key_hit :
    (width height x y key : ℕ) (r : Rect)
    → osk_key_rect width height key ≡ some r
    → contains x y (signed r) ≡ true
    → if_hit (contains x y) (osk_key_target width height key)
      ≡ some (target_at osk_key key (signed r))
key_hit width height x y key r at inside =
    ap (λ o. if_hit (contains x y) (o >>= λ q. some (target_at osk_key key (signed q)))) at
    ∙ ap (λ b. if b then some (target_at osk_key key (signed r)) else none) inside

space_and_enter : (i k : ℕ) → ((i ≡ 30) × (k ≡ 31)) ⊎ (i ≡ 30 → k ≢ 31)
space_and_enter i k = ground arith

beyond :
    (x y : ℕ) (r s : Rect) (g : ℕ)
    → s.x + 2 * g ≤ x
    → r.x + r.width ≡ s.x + 2 * g
    → contains x y (signed r) ≡ false
beyond x y r s g right edge = ground arith

same_row :
    (x y : ℕ) (r s : Rect) (g : ℕ)
    → contains x y (signed s) ≡ true
    → x < s.x + 2 * g
    → r.y ≡ s.y
    → r.height ≡ s.height
    → r.x ≤ s.x
    → r.x + r.width ≡ s.x + 2 * g
    → contains x y (signed r) ≡ true
same_row x y r s g inside left level high from edge = ground arith

-- The key in front of another does not hold its pixels, the space key not those two gaps inside the
-- enter key.
earlier_misses :
    (width height x y i k : ℕ) (r s : Rect)
    → osk_key_rect width height i ≡ some r
    → osk_key_rect width height k ≡ some s
    → i < k
    → contains x y (signed s) ≡ true
    → (k ≡ 31 → s.x + 2 * key_gap width ≤ x)
    → contains x y (signed r) ≡ false
earlier_misses width height x y i k r s at_i at_k lt inside inner = elim (space_and_enter i k) [
  | inl pair ↦
      let cover =
        space_key_covers_enter width height r s
          (subst (λ j. osk_key_rect width height j ≡ some r) pair.0 at_i)
          (subst (λ j. osk_key_rect width height j ≡ some s) pair.1 at_k) in
      let right : s.x + 2 * key_gap width ≤ x = inner pair.1 in
      beyond x y r s (key_gap width) right cover.3
  | inr apart ↦
      Follows-contains x y r s (osk_key_rect-Follows width height i k r s at_i at_k lt apart) inside
]

-- A touch at a pixel of a key finds that key; of the enter key, at a pixel two gaps or more from its
-- left edge.
pub osk_target_of_pixel :
    (width height x y key : ℕ) (r : Rect)
    → osk_key_rect width height key ≡ some r
    → contains x y (signed r) ≡ true
    → (key ≡ 31 → r.x + 2 * key_gap width ≤ x)
    → target_for_mode (contains x y) osk width height ≡ some (target_at osk_key key (signed r))
unfolding target_for_mode target_with_query mode_target
osk_target_of_pixel width height x y key r at inside inner =
    let sized = some_size width height key r at in
    let from = osk_key_rect-FromCell width height key r at in
    let found =
      first_hit-found (contains x y) (osk_key_target width height) osk_key_count 0 key
        (target_at osk_key key (signed r)) (omega arith) (row_below key from.position from.at)
        (λ j lt.
          key_missed width height x y j
            (λ q at_j. earlier_misses width height x y j key q r at_j at lt inside inner))
        (key_hit width height x y key r at inside) in
    ap (λ b. require b >> first_hit (contains x y) (osk_key_target width height) osk_key_count 0)
      sized
    ∙ found

-- A touch on the enter key within two gaps of its left edge finds the space key.
pub enter_edge_hits_space :
    (width height x y : ℕ) (r s : Rect)
    → osk_key_rect width height 30 ≡ some r
    → osk_key_rect width height 31 ≡ some s
    → contains x y (signed s) ≡ true
    → x < s.x + 2 * key_gap width
    → target_for_mode (contains x y) osk width height ≡ some (target_at osk_key 30 (signed r))
enter_edge_hits_space width height x y r s space enter inside edge =
    let cover = space_key_covers_enter width height r s space enter in
    osk_target_of_pixel width height x y 30 r space
      (same_row x y r s (key_gap width) inside edge cover.0 cover.1 cover.2 cover.3) (ground arith)
