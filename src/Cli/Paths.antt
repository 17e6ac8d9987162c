-- ===== src/Cli/Paths.antt =====
-- The paths of cli/src/utils.c.
use simple_file_system.Base.{
  ℕ, zero, suc, ◌-◌, ◌||◌, Option, none, some, List, [], ◌∷◌, ◌++◌, ltb, ◌==◌, if◌then◌else◌,
}
use simple_file_system.Base.Text.{Text, length, same, take}
use simple_file_system.Config.{max_filename_length}
use simple_file_system.Dir.{dot, dot_dot}
use simple_file_system.Vfs.Path.{slash, max_path_length}

-- cli_utils_build_absolute_path, at a path that is no null pointer; what does not fit into the buffer
-- is cut off.
unfoldable pub build_absolute_path : (current relative : Text) (buffer_size : ℕ) → Text
build_absolute_path current [] buffer_size = take (buffer_size - 1) current
build_absolute_path current (c ∷ s) buffer_size =
    if c == slash
    then take (buffer_size - 1) (c ∷ s)
    else if same current []
    then take (buffer_size - 1) (slash ∷ c ∷ s)
    else if same current (slash ∷ [])
    then take (buffer_size - 1) (slash ∷ c ∷ s)
    else take (buffer_size - 1) (current ++ (slash ∷ c ∷ s))

-- The part that is found, or else the other.
abbrev pub part_or : Option Text → Option Text → Option Text
part_or other (some part) = some part
part_or other none = other

abbrev pub name_from : Text → Option Text → Text
name_from path (some part) = part
name_from path none = path

-- The part of a path behind its last slash or backslash, as cli_utils_extract_disk_name_from_path
-- finds it with two calls of `strrchr`; `none` if there is none.
unfoldable pub last_part : Text → Option Text
last_part [] = none
last_part (c ∷ s) = part_or (if c == slash || c == 92 then some s else none) (last_part s)

-- cli_utils_extract_disk_name_from_path, at pointers that are not null
unfoldable pub extract_disk_name : (disk_path : Text) (name_buffer_size : ℕ) → Text
extract_disk_name path size = take (size - 1) (name_from path (last_part path))

-- CLI_MAX_PATH_DEPTH
abbrev pub max_depth : ℕ
max_depth = 64

unfoldable pub skip_slashes : Text → Text
skip_slashes [] = []
skip_slashes (c ∷ s) = let rest = skip_slashes s in if c == slash then rest else c ∷ s

-- The characters before the next slash, and the rest from the slash on.
unfoldable pub split_component : Text → Text × Text
split_component [] = ([], [])
split_component (c ∷ s) =
    let (name, rest) = split_component s in if c == slash then ([], c ∷ s) else (c ∷ name, rest)

-- The components without the last one; the last one stands first.
abbrev pub drop_last : List Text → List Text
drop_last [] = []
drop_last (name ∷ names) = names

-- What a round of cli_utils_normalize_fs_path does with a component.
unfoldable pub add_name : Text → List Text → List Text
add_name name names =
    if same name dot
    then names
    else if same name dot_dot
    then drop_last names
    else if ltb (length names) max_depth
    then name ∷ names
    else names

-- The component at the front of a path without slashes before it, and the rest of the loop.
unfoldable pub component_at : (rest : Text → List Text → List Text) → Text → List Text → List Text
component_at rest [] names = names
component_at rest (c ∷ s) names =
    let (name, behind) = split_component (c ∷ s) in
    rest behind (add_name (take max_filename_length name) names)

-- The loop of cli_utils_normalize_fs_path; a round that does not end it takes at least a character.
unfoldable pub collect : (rounds : ℕ) → Text → List Text → List Text
collect zero path names = names
collect (suc rounds) path names = component_at (collect rounds) (skip_slashes path) names

-- The loop that writes the components, from the last one on: each call of `snprintf` adds a slash and
-- a component as far as there is room.
unfoldable pub print : (buffer_size : ℕ) → List Text → Text
print buffer_size [] = []
print buffer_size (name ∷ names) =
    let written = print buffer_size names in
    written ++ take (buffer_size - length written - 1) (slash ∷ name)

-- The end of cli_utils_normalize_fs_path.
unfoldable pub print_or_root : (buffer_size : ℕ) → List Text → Text
print_or_root buffer_size [] = take (buffer_size - 1) (slash ∷ [])
print_or_root buffer_size (name ∷ names) = print buffer_size (name ∷ names)

-- cli_utils_normalize_fs_path
unfoldable pub normalize_fs_path : Text → ℕ → Text
normalize_fs_path path buffer_size =
    let input = take (max_path_length - 1) path in
    print_or_root buffer_size (collect (length input) input [])
