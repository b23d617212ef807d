-- ===== src/Layout/Search.antt =====
-- The launcher's search (compositor/src/shell/shell_ui.c): which labels a query matches, and the tiles it keeps.
use lumo_compositor.Base.{
  ℕ, ◌+◌, Bool, true, false, not, ◌&&◌, ◌||◌, List, [], ◌∷◌, ◌++◌, Option, none, some, ltb, leb,
  ◌==◌, if◌then◌else◌,
}
use lumo_compositor.CString.{Bytes, codes, str_eq}

-- tolower in the C locale.
unfoldable pub tolower : ℕ → ℕ
tolower c = if leb b'A' c && leb c b'Z' then c + 32 else c

abbrev pub launcher_labels : List Bytes
launcher_labels =
    codes "PHONE"
    ∷ codes "TERMINAL"
    ∷ codes "BROWSER"
    ∷ codes "CAMERA"
    ∷ codes "MAPS"
    ∷ codes "MUSIC"
    ∷ codes "PHOTOS"
    ∷ codes "VIDEOS"
    ∷ codes "CLOCK"
    ∷ codes "NOTES"
    ∷ codes "FILES"
    ∷ codes "SETTINGS"
    ∷ codes "SYSMON"
    ∷ codes "GITHUB"
    ∷ codes "CALCULATOR"
    ∷ codes "CALENDAR"
    ∷ codes "WEATHER"
    ∷ codes "CONTACTS"
    ∷ codes "RECORDER"
    ∷ codes "TASKS"
    ∷ codes "DOWNLOADS"
    ∷ codes "PACKAGES"
    ∷ codes "SYSLOG"
    ∷ codes "PDF READER"
    ∷ []

-- NULL, the empty query and "-" filter nothing.
unfoldable pub query_active : Option Bytes → Bool
query_active none = false
query_active (some query) = not (str_eq query []) && not (str_eq query (codes "-"))

-- The inner loop: does the query stand at the front of the label?
unfoldable pub starts_with : Bytes → Bytes → Bool
starts_with label [] = true
starts_with [] (q ∷ qs) = false
starts_with (l ∷ ls) (q ∷ qs) = tolower l == tolower q && starts_with ls qs

unfoldable pub occurs : Bytes → Bytes → Bool
unfolding starts_with
occurs [] query = false
occurs (l ∷ ls) query = starts_with (l ∷ ls) query || occurs ls query

abbrev matches_text : Bytes → Option Bytes → Bool
matches_text label none = true
matches_text label (some query) = occurs label query

unfoldable pub query_matches : Bytes → Option Bytes → Bool
unfolding occurs
query_matches label query = if not (query_active query) then true else matches_text label query

-- The indices that fit the caller's array, and the number of all matches.
pub record Collected : Type 0 where
  pub indices : List ℕ
  pub count : ℕ

abbrev pub found : ℕ → ℕ → Collected → Collected
found capacity i c = record {
  indices = if ltb c.count capacity then c.indices ++ i ∷ [] else c.indices;
  count = c.count + 1;
}

unfoldable pub collect : Option Bytes → ℕ → List Bytes → ℕ → Collected → Collected
collect query capacity [] i c = c
collect query capacity (label ∷ labels) i c =
    collect query capacity labels (i + 1)
      (if not (query_matches label query) then c else found capacity i c)

unfoldable pub collect_filtered_tiles : Option Bytes → ℕ → Collected
unfolding collect
collect_filtered_tiles query capacity =
    collect query capacity launcher_labels 0 (record { indices = []; count = 0 })

unfoldable pub filtered_tile_count : Option Bytes → ℕ
filtered_tile_count query = (collect_filtered_tiles query 0).count

-- The matching labels' indices, in order.
unfoldable pub matching : Option Bytes → List Bytes → ℕ → List ℕ
matching query [] i = []
matching query (label ∷ labels) i =
    let rest = matching query labels (i + 1) in if query_matches label query then i ∷ rest else rest
