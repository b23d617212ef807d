-- ===== src/Launch/Beside.antt =====
-- A shell is looked for beside the compositor (compositor/src/shell/shell_launch.c).
use lumo_compositor.Base.{
  ℕ, ◌+◌, ◌≤◌, Bool, true, false, ◌||◌, none, some, [], ◌∷◌, ◌++◌, ◌==◌, length, ◌≡◌, refl, ap, ◌∙◌,
  arith, if◌then◌else◌,
}
use lumo_compositor.CString.{Bytes}
use lumo_compositor.Launch.{
  path_max, has_path_separator, copy_path, join_path, in_front, before_last_slash, if_room,
  parent_directory, beside_or_bare, resolve_binary_path,
}

no_slash : (name : Bytes) → has_path_separator name ≡ false → before_last_slash name ≡ none
unfolding before_last_slash has_path_separator
no_slash [] h = refl
no_slash (c ∷ cs) h = ground (arith, no_slash cs)

-- What stands in front of the last slash.
before_last_slash-append :
    (directory name : Bytes)
    → has_path_separator name ≡ false
    → before_last_slash (directory ++ (b'/' ∷ name)) ≡ some directory
unfolding before_last_slash
before_last_slash-append [] name h = ap (λ o. in_front b'/' o) (no_slash name h)
before_last_slash-append (c ∷ cs) name h =
    ap (λ o. in_front c o) (before_last_slash-append cs name h)

room_enough :
    (size : ℕ) (text : Bytes) → length text + 1 ≤ size → if_room size (some text) ≡ some text
room_enough size text h = ground arith

-- The directory of a file is what it was joined with, when the file's own name has no slash and the
-- directory fits.
parent_directory-join :
    (directory name : Bytes)
    → has_path_separator name ≡ false
    → length directory + 1 ≤ path_max
    → parent_directory path_max (some (directory ++ (b'/' ∷ name))) ≡ some directory
unfolding parent_directory
parent_directory-join directory name h room =
    ap (λ o. if_room path_max o) (before_last_slash-append directory name h)
    ∙ room_enough path_max directory room

join_fits :
    (size : ℕ) (prefix suffix : Bytes)
    → length prefix + 1 + length suffix + 1 ≤ size
    → join_path size prefix suffix ≡ some (prefix ++ (b'/' ∷ suffix))
unfolding join_path
join_fits size prefix suffix h = ground arith

not_taken :
    {A : Type 0} (b h : Bool) (x y : A) → (b || h) ≡ false → (if b || (b || h) then x else y) ≡ y
not_taken true h x y e = cc
not_taken false true x y e = cc
not_taken false false x y e = refl

-- A shell that is asked for by a bare name, by a program that runs from a directory, is the file of that name
-- in the same directory, when the path fits.
pub resolve_binary_path-beside :
    (size : ℕ) (directory program : Bytes) (c : ℕ) (cs : Bytes)
    → has_path_separator program ≡ false
    → has_path_separator (c ∷ cs) ≡ false
    → length directory + 1 ≤ path_max
    → length directory + 1 + length (c ∷ cs) + 1 ≤ size
    → resolve_binary_path size (some (c ∷ cs)) (some (directory ++ (b'/' ∷ program)))
      ≡ some (directory ++ (b'/' ∷ (c ∷ cs)))
unfolding resolve_binary_path has_path_separator
resolve_binary_path-beside size directory program c cs bare name fits room =
    let found = parent_directory-join directory program bare fits in
    not_taken (c == b'/') (has_path_separator cs) (copy_path size (c ∷ cs))
      (beside_or_bare size (parent_directory path_max (some (directory ++ (b'/' ∷ program))))
        (c ∷ cs))
      name
    ∙ ap (λ o. beside_or_bare size o (c ∷ cs)) found
    ∙ join_fits size directory (c ∷ cs) room
