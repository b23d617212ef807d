-- ===== src/Layout/SearchLaws.antt =====
-- What the launcher's search (compositor/src/shell/shell_ui.c) finds: labels that hold the query in any case.
use mathlib.Core.Path.{ap₂}
use lumo_compositor.Base.{
  ℕ, zero, suc, ◌+◌, ◌≤◌, ◌<◌, ◌↔◌, Bool, true, false, not, List, [], ◌∷◌, ◌++◌, map, Option, some,
  ltb, if◌then◌else◌, ◌≡◌, ◌≢◌, refl, sym, ap, ◌∙◌, arith, length, take, append-nil, length-append,
  append_assoc,
}
use lumo_compositor.CString.{Bytes, str_eq}
use lumo_compositor.Layout.Search.{
  tolower, starts_with, occurs, query_active, query_matches, launcher_labels, Collected, collect,
  collect_filtered_tiles, found, filtered_tile_count, matching,
}

-- The query in lower case stands somewhere in the label in lower case.
abbrev pub Occurs : Bytes → Bytes → Type 0
Occurs query label =
    (before : Bytes) × (after : Bytes) × (map tolower label ≡ before ++ map tolower query ++ after)

starts_with-prefix :
    (label query : Bytes)
    → starts_with label query ≡ true
    → (after : Bytes) × (map tolower label ≡ map tolower query ++ after)
unfolding starts_with
starts_with-prefix label [] h = (map tolower label, refl)
starts_with-prefix [] (q ∷ qs) h = cc
starts_with-prefix (l ∷ ls) (q ∷ qs) h =
    let same : tolower l ≡ tolower q = ground arith in
    let matched : starts_with ls qs ≡ true = ground arith in
    let rest = starts_with-prefix ls qs matched in (rest.0, cc)

prefix-starts_with :
    (label query after : Bytes)
    → map tolower label ≡ map tolower query ++ after
    → starts_with label query ≡ true
unfolding starts_with
prefix-starts_with label [] after h = refl
prefix-starts_with [] (q ∷ qs) after h = cc
prefix-starts_with (l ∷ ls) (q ∷ qs) after h =
    let same : tolower l ≡ tolower q = cc in
    let rest = prefix-starts_with ls qs after cc in ground (arith, rest)

occurs-Occurs : (label query : Bytes) → occurs label query ≡ true → Occurs query label
unfolding occurs
occurs-Occurs [] query h = cc
occurs-Occurs (l ∷ ls) query h = go (starts_with (l ∷ ls) query) refl (occurs-Occurs ls query)
  where
    go :
        (b : Bool)
        → starts_with (l ∷ ls) query ≡ b
        → (occurs ls query ≡ true → Occurs query ls)
        → Occurs query (l ∷ ls)
    go true at later = let front = starts_with-prefix (l ∷ ls) query at in ([], front.0, front.1)
    go false at later = let rest = later (ground arith) in (tolower l ∷ rest.0, rest.1, cc)

Occurs-occurs :
    (label query before after : Bytes)
    → query ≢ []
    → map tolower label ≡ before ++ map tolower query ++ after
    → occurs label query ≡ true
unfolding occurs
Occurs-occurs [] [] before after some_query h = elim (some_query refl) [ ]
Occurs-occurs [] (q ∷ qs) [] after some_query h = cc
Occurs-occurs [] (q ∷ qs) (b ∷ before) after some_query h = cc
Occurs-occurs (l ∷ ls) query [] after some_query h =
    let front = prefix-starts_with (l ∷ ls) query after h in ground (arith, front)
Occurs-occurs (l ∷ ls) query (b ∷ before) after some_query h =
    let later = Occurs-occurs ls query before after some_query cc in ground (arith, later)

active-nonempty : (query : Bytes) → query_active (some query) ≡ true → query ≢ []
unfolding query_active str_eq
active-nonempty [] active = cc
active-nonempty (q ∷ qs) active = cc

query_matches-occurs :
    (label query : Bytes)
    → query_active (some query) ≡ true
    → query_matches label (some query) ≡ occurs label query
unfolding query_matches
query_matches-occurs label query active = ground arith

-- A label matches an active query exactly when it holds the query, letters compared in lower case.
pub query_matches_iff :
    (label query : Bytes)
    → query_active (some query) ≡ true
    → (query_matches label (some query) ≡ true) ↔ Occurs query label
query_matches_iff label query active =
    let same = query_matches-occurs label query active in
    (
      (λ h. occurs-Occurs label query (sym same ∙ h)),
      (λ at. same ∙ Occurs-occurs label query at.0 at.1 (active-nonempty query active) at.2),
    )

-- The state of the loop once the matches of `done` were stored.
abbrev the_collected : List ℕ → ℕ → Collected
the_collected indices count = record { indices = indices; count = count }

abbrev collected : ℕ → List ℕ → Collected
collected capacity done = record { indices = take capacity done; count = length done }

not-lt-zero : {n : ℕ} → n < 0 → ⊥
not-lt-zero h = omega arith

not-le-zero : {n : ℕ} → suc n ≤ 0 → ⊥
not-le-zero h = omega arith

take-nil : (n : ℕ) → take {A = ℕ} n [] ≡ []
take-nil zero = refl
take-nil (suc n) = refl

take_room :
    (capacity i : ℕ) (done : List ℕ)
    → length done < capacity
    → take capacity done ++ i ∷ [] ≡ take capacity (done ++ i ∷ [])
take_room zero i done h = elim (not-lt-zero h) [ ]
take_room (suc n) i [] h = take_one n
  where
    take_one : (m : ℕ) → i ∷ [] ≡ i ∷ take m []
    take_one zero = refl
    take_one (suc m) = refl
take_room (suc n) i (d ∷ done) h = ap (λ t. d ∷ t) (take_room n i done (omega arith))

take_full :
    (capacity i : ℕ) (done : List ℕ)
    → capacity ≤ length done
    → take capacity done ≡ take capacity (done ++ i ∷ [])
take_full zero i done h = refl
take_full (suc n) i [] h = elim (not-le-zero h) [ ]
take_full (suc n) i (d ∷ done) h = ap (λ t. d ∷ t) (take_full n i done (omega arith))

found-collected :
    (capacity i : ℕ) (done : List ℕ)
    → found capacity i (collected capacity done) ≡ collected capacity (done ++ i ∷ [])
found-collected capacity i done = go (ltb (length done) capacity) refl
  where
    counted : length done + 1 ≡ length (done ++ i ∷ [])
    counted = omega (arith, length-append done (i ∷ []))

    stored :
        ltb (length done) capacity ≡ true
        → take capacity done ++ i ∷ [] ≡ take capacity (done ++ i ∷ [])
    stored h = take_room capacity i done (ground arith)

    kept : ltb (length done) capacity ≡ false → take capacity done ≡ take capacity (done ++ i ∷ [])
    kept h = take_full capacity i done (ground arith)

    go :
        (b : Bool)
        → ltb (length done) capacity ≡ b
        → the_collected
            (if b then take capacity done ++ i ∷ [] else take capacity done)
            (length done + 1)
          ≡ collected capacity (done ++ i ∷ [])
    go true h = ap₂ the_collected (stored h) counted
    go false h = ap₂ the_collected (kept h) counted

collect-matching :
    (query : Option Bytes) (capacity : ℕ) (labels : List Bytes) (i : ℕ) (done : List ℕ)
    → collect query capacity labels i (collected capacity done)
      ≡ collected capacity (done ++ matching query labels i)
unfolding collect matching
collect-matching query capacity [] i done = ap (collected capacity) (sym (append-nil done))
collect-matching query capacity (label ∷ labels) i done =
    go (query_matches label query) (λ d. collect-matching query capacity labels (i + 1) d)
  where
    go :
        (b : Bool)
        → ((d : List ℕ)
            → collect query capacity labels (i + 1) (collected capacity d)
              ≡ collected capacity (d ++ matching query labels (i + 1)))
        → collect query capacity labels
            (i + 1)
            (if not b then collected capacity done else found capacity i (collected capacity done))
          ≡ collected capacity (
              done
              ++ (if b then i ∷ matching query labels (i + 1) else matching query labels (i + 1)))
    go true later =
        ap (collect query capacity labels (i + 1)) (found-collected capacity i done)
        ∙ later (done ++ i ∷ [])
        ∙ ap (collected capacity) (append_assoc done (i ∷ []) (matching query labels (i + 1)))
    go false later = later done

-- The launcher's search stores the indices of the matching labels in order, as many as fit the
-- array, and counts all of them, whatever the array holds.
pub collect_filtered_tiles-matching :
    (query : Option Bytes) (capacity : ℕ)
    → (collect_filtered_tiles query capacity ≡ record {
      indices = take capacity (matching query launcher_labels 0);
      count = length (matching query launcher_labels 0);
    })
      × (filtered_tile_count query ≡ (collect_filtered_tiles query capacity).count)
unfolding collect_filtered_tiles filtered_tile_count
collect_filtered_tiles-matching query capacity =
    (loop capacity, ap count_of (loop 0) ∙ sym (ap count_of (loop capacity)))
  where
    count_of : Collected → ℕ
    count_of c = c.count

    loop :
        (n : ℕ)
        → collect query n launcher_labels 0 (the_collected [] 0)
          ≡ collected n (matching query launcher_labels 0)
    loop n =
        ap (λ t. collect query n launcher_labels 0 (the_collected t 0)) (sym (take-nil n))
        ∙ collect-matching query n launcher_labels 0 []
