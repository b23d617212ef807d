-- ===== src/Launch.antt =====
-- The paths and arguments that compositor/src/shell/shell_launch.c starts its shells with, and its socket's path.
pub mod Beside
use lumo_compositor.Base.{
  ℕ, ◌+◌, Bool, true, false, ◌||◌, Option, none, some, List, [], ◌∷◌, ◌++◌, ltb, ◌==◌, length,
  if◌then◌else◌,
}
use lumo_compositor.CString.{Bytes, codes}
use lumo_compositor.Layout.Modes.{ShellMode, mode_name}

abbrev pub default_binary_name : Bytes
default_binary_name = codes "lumo-shell"

abbrev pub path_max : ℕ
path_max = 4096

-- strchr(path, '/') != NULL
unfoldable pub has_path_separator : Bytes → Bool
has_path_separator [] = false
has_path_separator (c ∷ cs) = c == b'/' || has_path_separator cs

unfoldable pub copy_path : ℕ → Bytes → Option Bytes
copy_path size path = if ltb size (length path + 1) then none else some path

unfoldable pub join_path : ℕ → Bytes → Bytes → Option Bytes
join_path size prefix suffix =
    if ltb size (length prefix + 1 + length suffix + 1)
    then none
    else some (prefix ++ (b'/' ∷ suffix))

unfoldable pub state_socket_path : ℕ → Bytes → Option Bytes
unfolding join_path
state_socket_path size [] = none
state_socket_path size (c ∷ cs) = join_path size (c ∷ cs) (codes "lumo-shell-state.sock")

unfoldable pub state_format_line : ℕ → Bytes → Bytes → Option Bytes
state_format_line size key value =
    let text = key ++ (b'=' ∷ (value ++ (b'\n' ∷ []))) in
    if ltb (length text) size then some text else none

abbrev pub in_front : ℕ → Option Bytes → Option Bytes
in_front c (some front) = some (c ∷ front)
in_front c none = if c == b'/' then some [] else none

-- What stands in front of strrchr(path, '/').
unfoldable pub before_last_slash : Bytes → Option Bytes
before_last_slash [] = none
before_last_slash (c ∷ cs) = in_front c (before_last_slash cs)

abbrev pub if_room : ℕ → Option Bytes → Option Bytes
if_room size none = none
if_room size (some front) = if ltb size (length front + 1) then none else some front

-- The path is none where it is NULL.
unfoldable pub parent_directory : ℕ → Option Bytes → Option Bytes
unfolding before_last_slash
parent_directory size none = none
parent_directory size (some path) = if_room size (before_last_slash path)

abbrev pub beside_or_bare : ℕ → Option Bytes → Bytes → Option Bytes
beside_or_bare size none name = copy_path size name
beside_or_bare size (some directory) name = join_path size directory name

-- What is asked for, none where it is NULL, and where this program is.
unfoldable pub resolve_binary_path : ℕ → Option Bytes → Option Bytes → Option Bytes
unfolding copy_path join_path parent_directory has_path_separator
resolve_binary_path size none executable =
    beside_or_bare size (parent_directory path_max executable) default_binary_name
resolve_binary_path size (some []) executable =
    beside_or_bare size (parent_directory path_max executable) default_binary_name
resolve_binary_path size (some (c ∷ cs)) executable =
    if c == b'/' || has_path_separator (c ∷ cs)
    then copy_path size (c ∷ cs)
    else beside_or_bare size (parent_directory path_max executable) (c ∷ cs)

-- The arguments in front of the NULL.
unfoldable pub build_argv : ShellMode → Bytes → ℕ → Option (List Bytes)
unfolding mode_name
build_argv mode binary capacity =
    if ltb capacity 4 then none else some (binary ∷ codes "--mode" ∷ mode_name mode ∷ [])
