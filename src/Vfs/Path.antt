-- ===== src/Vfs/Path.antt =====
-- src/vfs/path.c: normal paths, and the way from a path to an inode.
pub mod Normal
pub mod Rounds
use simple_file_system.Base.{
  ℕ, zero, suc, ◌+◌, ◌-◌, ◌*◌, ◌/◌, ◌%◌, ◌^◌, ◌<◌, ◌≤◌, ◌≡◌, ◌≢◌, ◌⊎◌, refl, sym, ap, ◌∙◌, fun_ext,
  inl, inr, Bool, true, false, not, ◌&&◌, ◌||◌, Option, none, some, List, [], ◌∷◌, ◌++◌, arith,
  Bytes, zeros, copy, store, AreBytes, u32_at, set_u32, byte_of_u32, u32_word, u32_at-agree,
  u32_at_of_bytes, u32_at-set_u32, u32_at-set_u32_ne, Status, file_access, invalid_argument,
  out_of_bounds, memory_allocation, read_only, no_space, Result, ok, err, Exec, pure, fail,
  reject_if, lift_result, continue, ◌>>=◌, ◌>>◌, bind-ok, ltb, leb, ◌==◌, if◌then◌else◌, Bool-cases,
  ltb→lt, lt→ltb, le→ltb, le→leb, lt→leb, ==→eq, ==-ne, ==-refl, ne→==, lt_or_le, min, max,
}
use simple_file_system.Base.Text.{Text, length, same, take, drop}
use simple_file_system.Config.{max_filename_length}
use simple_file_system.Platform.{Stdio}
use simple_file_system.Index.{Inode, type_symlink}
use simple_file_system.Dir.{Stdlib, dot, dot_dot, text_at}
use simple_file_system.Dir.Table.{find_entry, read_from_start}
use simple_file_system.Vfs.{Context, on_work, on_directories, get_inode}

-- FS_MAX_PATH_LENGTH
abbrev pub max_path_length : ℕ
max_path_length = 1024

-- `'/'`
abbrev pub slash : ℕ
slash = 47

-- The loop of vfs_normalize_path_component, which writes into the path that it reads, never past the
-- character that it reads.
unfoldable pub collapse : (previous_was_slash : Bool) → Text → Text
collapse previous [] = []
collapse previous (c ∷ s) =
    let others = collapse false s in
    let slashes = collapse true s in
    if c == slash then (if previous then slashes else slash ∷ slashes) else c ∷ others

-- A text without a slash at its end.
unfoldable pub without_slash : Text → Text
without_slash [] = []
without_slash (c ∷ []) = if c == slash then [] else c ∷ []
without_slash (c ∷ d ∷ s) = c ∷ without_slash (d ∷ s)

-- A slash at the end is dropped, unless it is all of the path.
unfoldable pub trim : Text → Text
unfolding without_slash
trim [] = []
trim (c ∷ []) = c ∷ []
trim (c ∷ d ∷ s) = without_slash (c ∷ d ∷ s)

-- vfs_normalize_path_component
unfoldable pub normalize_path : Text → Text
unfolding collapse trim
normalize_path path = trim (collapse false path)

-- How many characters stand before the next slash, at most `bound`.
unfoldable pub component_length : (bound : ℕ) → Text → ℕ
component_length zero s = 0
component_length (suc bound) [] = 0
component_length (suc bound) (c ∷ s) =
    let rest = component_length bound s in if c == slash then 0 else suc rest

-- The step back of vfs_resolve_relative_components at `..`, on the path written so far, last character
-- first: what stands behind the slash before is dropped.
unfoldable pub back_to_slash : Text → Text
back_to_slash [] = []
back_to_slash (c ∷ s) = let rest = back_to_slash s in if c == slash then c ∷ s else rest

abbrev pub step_back : Text → Text
step_back [] = []
step_back (c ∷ []) = c ∷ []
step_back (c ∷ d ∷ s) = back_to_slash (d ∷ s)

-- The last characters first.
unfoldable pub reverse_onto : Text → Text → Text
reverse_onto [] t = t
reverse_onto (c ∷ s) t = reverse_onto s (c ∷ t)

-- What a component that is no slash adds to the path written so far.
unfoldable pub add_component : (component written : Text) → Result Text
unfolding same back_to_slash length reverse_onto
add_component component written =
    if same component dot
    then ok written
    else if same component dot_dot
    then ok (step_back written)
    else if ltb max_path_length (length written + length component + 1)
    then err out_of_bounds
    else ok (reverse_onto component written)

abbrev pub and_then : {A B : Type 0} → Result A → (A → Result B) → Result B
and_then (ok a) f = f a
and_then (err e) f = err e

-- The loop of vfs_resolve_relative_components. A round takes at least a character.
unfoldable pub relative_loop : (rounds : ℕ) → (path written : Text) → Result Text
unfolding component_length take drop add_component
relative_loop zero path written = ok written
relative_loop (suc rounds) [] written = ok written
relative_loop (suc rounds) (c ∷ s) written =
    let n = component_length (length (c ∷ s)) (c ∷ s) in
    let after : Text → Result Text = λ w. relative_loop rounds (drop n (c ∷ s)) w in
    let behind = relative_loop rounds s (slash ∷ written) in
    if c == slash then behind else and_then (add_component (take n (c ∷ s)) written) after

-- vfs_resolve_relative_components
unfoldable pub resolve_relative : Text → Result Text
unfolding relative_loop trim reverse_onto
resolve_relative path =
    and_then (relative_loop (length path) path []) (λ w. ok (trim (reverse_onto w [])))

-- How a walk along a path ends: at an inode, or at a symbolic link with its target. The last is no end of
-- the source's loop: the rounds were too few.
pub data Walk : Type 0 where
  arrived : ℕ → Walk
  linked : (target : Text) (current_inode_id : ℕ) → Walk
  out_of_rounds : Walk

-- `if (symlink_target[0] == '/')`
unfoldable pub follow_target : (root current_inode_id : ℕ) → Text → Walk
follow_target root current [] = linked [] current
follow_target root current (c ∷ s) = if c == slash then linked s root else linked (c ∷ s) current

-- `if (*path_cursor == '/') ++path_cursor;`
abbrev pub skip_slash : Text → Text
skip_slash [] = []
skip_slash (c ∷ s) = if c == slash then s else c ∷ s

-- `strrchr(path, '/')`: what stands before the last slash, and behind it.
unfoldable pub split_last : Text → Option (Text × Text)
split_last [] = none
split_last (c ∷ s) = elim (split_last s) [
  | some (parent, name) ↦ some (c ∷ parent, name)
  | none ↦ if c == slash then some ([], s) else none
]

-- The last part of a path, and what stands before the slash in front of it.
abbrev pub parent_and_name : Text → Text × Text
parent_and_name path = elim (split_last path) [ some p ↦ p | none ↦ ([], path) ]

-- The number of symbolic links that end the search.
abbrev pub max_symlink_depth : ℕ
max_symlink_depth = 8

module _ (io : Stdio) (lib : Stdlib) where
  -- The text of a symbolic link, of at most 1023 characters.
  unfoldable pub read_link : Inode → Exec (Context io) Text
  unfolding on_work read_from_start text_at
  read_link inode = do
    ((buffer, bytes_read), _) ← on_work io inode (read_from_start io lib (max_path_length - 1))
    pure (text_at buffer bytes_read 0)

  -- The start of the pass behind a symbolic link.
  unfoldable pub at_target : (current_inode_id : ℕ) → Text → Exec (Context io) Walk
  unfolding follow_target
  at_target current target v = (ok (follow_target v.root_inode_id current target), v)

  -- A round of the loop of vfs_resolve_path at a component: the loop goes on, at the next inode, or ends
  -- at a symbolic link.
  unfoldable pub enter :
      (component : Text) (current_inode_id : ℕ) (next : ℕ → Exec (Context io) Walk)
      → Exec (Context io) Walk
  unfolding same on_directories find_entry get_inode read_link at_target
  enter component current next =
      if same component dot
      then next current
      else if same component dot_dot
      then (on_directories io (find_entry io lib current dot_dot) >>= next)
      else do
        next_inode_id ← on_directories io (find_entry io lib current component)
        next_inode ← get_inode io next_inode_id
        if next_inode.type == type_symlink
            then (read_link next_inode >>= at_target current)
            else next next_inode_id

  -- The loop of vfs_resolve_path up to its end or a symbolic link. A round takes at least a character.
  unfoldable pub walk :
      (rounds : ℕ) → (path_cursor : Text) (current_inode_id : ℕ) → Exec (Context io) Walk
  unfolding component_length take drop enter
  walk zero [] current = pure (arrived current)
  walk zero (c ∷ s) current = pure out_of_rounds
  walk (suc rounds) [] current = pure (arrived current)
  walk (suc rounds) (c ∷ s) current =
      let n = component_length max_filename_length (c ∷ s) in
      let next : ℕ → Exec (Context io) Walk = λ id. walk rounds (drop n (c ∷ s)) id in
      let behind = walk rounds s current in
      if c == slash then behind else enter (take n (c ∷ s)) current next

  -- `goto start_resolution` at a symbolic link.
  unfoldable pub next_pass : (Text → ℕ → Exec (Context io) ℕ) → Walk → Exec (Context io) ℕ
  next_pass start (arrived id) = pure id
  next_pass start (linked target at) = start target at
  next_pass start out_of_rounds = fail out_of_bounds

  -- The passes of the loop, of which each but the last ends at a symbolic link.
  unfoldable pub follow :
      (links : ℕ) → (path_cursor : Text) (current_inode_id : ℕ) → Exec (Context io) ℕ
  unfolding walk length next_pass
  follow zero cursor current = fail out_of_bounds
  follow (suc links) cursor current =
      walk (length cursor) cursor current >>= next_pass (λ target at. follow links target at)

  -- vfs_resolve_path
  unfoldable pub resolve_path : Text → Exec (Context io) ℕ
  unfolding normalize_path resolve_relative follow length
  resolve_path file_path v =
      (do
        reject_if (leb max_path_length (length file_path)) out_of_bounds
        path ← lift_result (resolve_relative (normalize_path file_path))
        follow max_symlink_depth (skip_slash path) v.root_inode_id)
        v

  -- The parent of vfs_resolve_parent_and_name.
  unfoldable pub resolve_parent : Text → Exec (Context io) ℕ
  unfolding resolve_path length
  resolve_parent [] v = (ok v.root_inode_id, v)
  resolve_parent (c ∷ s) v =
      (reject_if (leb max_path_length (length (c ∷ s))) invalid_argument >> resolve_path (c ∷ s)) v

  -- vfs_resolve_parent_and_name
  unfoldable pub resolve_parent_and_name : Text → Exec (Context io) (ℕ × Text)
  unfolding split_last length resolve_parent
  resolve_parent_and_name file_path = do
    let (parent, name) = parent_and_name file_path
    reject_if (length name == 0 || ltb max_filename_length (length name)) invalid_argument
    parent_inode_id ← resolve_parent parent
    pure (parent_inode_id, name)
