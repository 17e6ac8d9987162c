-- ===== src/Vfs/Descriptors.antt =====
-- src/vfs/path.c and src/vfs/operations.c: what is asked of a path leaves the table of open files alone.
use simple_file_system.Base.{
  ℕ, zero, suc, ◌-◌, ◌≡◌, ◌||◌, [], ◌∷◌, invalid_argument, out_of_bounds, Exec, ltb, leb, ◌==◌,
}
use simple_file_system.Base.Keeps.{
  Keeps, Keeps-pure, Keeps-lift_result, Keeps-reject_if, Keeps-if, Keeps-bind,
}
use simple_file_system.Base.Text.{Text, length, same, take, drop}
use simple_file_system.Config.{max_filename_length}
use simple_file_system.Platform.{Stdio}
use simple_file_system.Index.{Inode, Index, type_symlink}
use simple_file_system.Alloc.{Work}
use simple_file_system.Dir.{text_at, Stdlib, dot, dot_dot}
use simple_file_system.Dir.Table.{find_entry, read_from_start}
use simple_file_system.Vfs.{Context, FileDescriptor, on_work, on_directories, on_inodes, get_inode}
use simple_file_system.Vfs.Path.{
  slash, component_length, Walk, arrived, linked, out_of_rounds, read_link, at_target, enter, walk,
  next_pass, follow, resolve_path, resolve_parent, resolve_parent_and_name, parent_and_name,
  normalize_path, resolve_relative, max_path_length, skip_slash, max_symlink_depth,
}
use simple_file_system.Vfs.Operations.{locate}

module _ (io : Stdio) (lib : Stdlib) (open_files : ℕ → FileDescriptor) (root_inode_id : ℕ) where
  -- A context with these open files and this root.
  abbrev pub HasFiles : Context io → Type 0
  HasFiles v = (v.open_files ≡ open_files) × (v.root_inode_id ≡ root_inode_id)

  pub on_work-HasFiles :
      {A : Type 0} (inode : Inode) (m : Exec (Work io) A) → Keeps HasFiles (on_work io inode m)
  unfolding on_work
  on_work-HasFiles inode m = record { at = λ v h. h }

  pub on_directories-HasFiles :
      {A : Type 0} (m : Exec (Work io) A) → Keeps HasFiles (on_directories io m)
  unfolding on_directories
  on_directories-HasFiles m = Keeps-bind _ _ (on_work-HasFiles _ m) (λ (a, inode). Keeps-pure a)

  pub on_inodes-HasFiles : {A : Type 0} (m : Exec Index A) → Keeps HasFiles (on_inodes io m)
  unfolding on_inodes
  on_inodes-HasFiles m = record { at = λ v h. h }

  pub get_inode-HasFiles : (id : ℕ) → Keeps HasFiles (get_inode io id)
  unfolding get_inode
  get_inode-HasFiles id = record { at = λ v h. h }

  read_link-HasFiles : (inode : Inode) → Keeps HasFiles (read_link io lib inode)
  unfolding read_link
  read_link-HasFiles inode =
      Keeps-bind _ _ (on_work-HasFiles inode (read_from_start io lib (max_path_length - 1)))
        (λ ((b, n), w). Keeps-pure (text_at b n 0))

  at_target-HasFiles :
      (current : ℕ) (target : Text) → Keeps HasFiles (at_target io lib current target)
  unfolding at_target
  at_target-HasFiles current target = record { at = λ v h. h }

  enter-HasFiles :
      (component : Text) (current : ℕ) (next : ℕ → Exec (Context io) Walk)
      → ((id : ℕ) → Keeps HasFiles (next id))
      → Keeps HasFiles (enter io lib component current next)
  unfolding enter
  enter-HasFiles component current next k = Keeps-if (same component dot) _ _ (k current) (
      Keeps-if (same component dot_dot) _ _
        (Keeps-bind _ _ (on_directories-HasFiles (find_entry io lib current dot_dot)) k)
        (Keeps-bind _ _ (on_directories-HasFiles (find_entry io lib current component)) (λ id.
          Keeps-bind _ _ (get_inode-HasFiles id) (λ inode.
            Keeps-if (inode.type == type_symlink) _ _
              (Keeps-bind _ _ (read_link-HasFiles inode)
                (λ target. at_target-HasFiles current target))
              (k id)))))

  walk-HasFiles : (rounds : ℕ) (path : Text) (id : ℕ) → Keeps HasFiles (walk io lib rounds path id)
  unfolding walk
  walk-HasFiles zero [] id = Keeps-pure (arrived id)
  walk-HasFiles zero (c ∷ s) id = Keeps-pure out_of_rounds
  walk-HasFiles (suc rounds) [] id = Keeps-pure (arrived id)
  walk-HasFiles (suc rounds) (c ∷ s) id =
      let n = component_length max_filename_length (c ∷ s) in
      let rest : Text = drop n (c ∷ s) in
      Keeps-if (c == slash) _ _ (walk-HasFiles rounds s id) (
        enter-HasFiles (take n (c ∷ s)) id (λ next. walk io lib rounds rest next)
          (λ next. walk-HasFiles rounds rest next))

  next_pass-HasFiles :
      (start : Text → ℕ → Exec (Context io) ℕ)
      → ((target : Text) (at : ℕ) → Keeps HasFiles (start target at))
      → (r : Walk) → Keeps HasFiles (next_pass io lib start r)
  unfolding next_pass
  next_pass-HasFiles start k (arrived id) = Keeps-pure id
  next_pass-HasFiles start k (linked target at) = k target at
  next_pass-HasFiles start k out_of_rounds = record { at = λ v h. h }

  follow-HasFiles :
      (links : ℕ) (path : Text) (id : ℕ) → Keeps HasFiles (follow io lib links path id)
  unfolding follow
  follow-HasFiles zero path id = record { at = λ v h. h }
  follow-HasFiles (suc links) path id = Keeps-bind _ _ (walk-HasFiles (length path) path id) (
      next_pass-HasFiles (λ target at. follow io lib links target at)
        (λ target at. follow-HasFiles links target at))

  pub resolve_path-HasFiles : (path : Text) → Keeps HasFiles (resolve_path io lib path)
  unfolding resolve_path
  resolve_path-HasFiles path = record {
    at = λ v h.
        (Keeps-bind _ _ (Keeps-reject_if (leb max_path_length (length path)) out_of_bounds) (λ _.
            Keeps-bind _ _ (Keeps-lift_result (resolve_relative (normalize_path path)))
              (λ p. follow-HasFiles max_symlink_depth (skip_slash p) v.root_inode_id))).at
          v h;
  }

  resolve_parent-HasFiles : (path : Text) → Keeps HasFiles (resolve_parent io lib path)
  unfolding resolve_parent
  resolve_parent-HasFiles [] = record { at = λ v h. h }
  resolve_parent-HasFiles (c ∷ s) =
      Keeps-bind _ _ (Keeps-reject_if (leb max_path_length (length (c ∷ s))) invalid_argument)
        (λ _. resolve_path-HasFiles (c ∷ s))

  pub resolve_parent_and_name-HasFiles :
      (path : Text) → Keeps HasFiles (resolve_parent_and_name io lib path)
  unfolding resolve_parent_and_name
  resolve_parent_and_name-HasFiles path =
      let (parent, name) = parent_and_name path in
      Keeps-bind _ _
        (Keeps-reject_if (length name == 0 || ltb max_filename_length (length name))
          invalid_argument)
        (λ _. Keeps-bind _ _ (resolve_parent-HasFiles parent) (λ id. Keeps-pure (id, name)))

  -- Finding a file by its path changes no descriptor.
  pub locate-HasFiles : (path : Text) → Keeps HasFiles (locate io lib path)
  unfolding locate
  locate-HasFiles path = Keeps-bind _ _ (resolve_parent_and_name-HasFiles path) (λ (parent, name).
      Keeps-bind _ _ (on_directories-HasFiles (find_entry io lib parent name))
        (λ id. Keeps-pure (parent, name, id)))
