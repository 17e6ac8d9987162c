-- ===== src/Checks/Shell.antt =====
-- The shell of cli/src at short lines, paths and keys.
use simple_file_system.Base.{
  ◌≡◌, refl, true, List, [], ◌∷◌, arith, some, zeros, ◌==◌, if◌then◌else◌, ltb, ltb→lt,
}
use simple_file_system.Base.Text.{Text, length, take, contains, same}
use simple_file_system.Vfs.Path.{max_path_length}
use simple_file_system.History.{initial_history, reset_browse}
use simple_file_system.Cli.Tokens.{ArePlain, tokenize_line, quoted_line, tokenize_line-quoted_line}
use simple_file_system.Cli.Paths.{
  normalize_fs_path, skip_slashes, split_component, add_name, component_at, collect, print,
  print_or_root, build_absolute_path,
}
use simple_file_system.Cli.Again.{normalize_fs_path-again}
use simple_file_system.Cli.Editor.{
  returns, press_all, first_editor, Key, up, character, paste, backspace,
}
use simple_file_system.Cli.Editor.Bounds.{IsValid, IsValidRound, press_all-IsValid}
use simple_file_system.Cli.Editor.Typing.{ArePrintable, typed, press_all-returns_typed}
use simple_file_system.Cli.Packing.{Heap, Report, compress}
use simple_file_system.Cli.Packing.Reports.{Says, compress-Says}
use simple_file_system.Checks.{memory, small_file}
use simple_file_system.Checks.Paths.{one_open}
use simple_file_system.Vfs.{Context}
use simple_file_system.Checks.Sorting.{simple}

-- "a b" and the empty text.
abbrev two_texts : List Text
two_texts = (97 ∷ 32 ∷ 98 ∷ []) ∷ [] ∷ []

two_texts-ArePlain : ArePlain two_texts
unfolding ArePlain contains
two_texts-ArePlain = (refl, (refl, tt))

tokenize_line-quoted_line_example : tokenize_line (quoted_line two_texts) 5 ≡ two_texts
tokenize_line-quoted_line_example =
    tokenize_line-quoted_line two_texts 5 two_texts-ArePlain (unfold length in omega arith)

-- "a/./../b//c"
abbrev crooked_path : Text
crooked_path = 97 ∷ 47 ∷ 46 ∷ 47 ∷ 46 ∷ 46 ∷ 47 ∷ 98 ∷ 47 ∷ 47 ∷ 99 ∷ []

crooked_path_short : ltb (length (normalize_fs_path crooked_path 1024)) 1023 ≡ true
unfolding length normalize_fs_path print_or_root collect take component_at skip_slashes
    split_component add_name same print
crooked_path_short = refl

normalize_fs_path-again_example :
    normalize_fs_path (normalize_fs_path crooked_path 1024) 1024
    ≡ normalize_fs_path crooked_path 1024
normalize_fs_path-again_example =
    normalize_fs_path-again crooked_path 1024 (omega arith) (ltb→lt _ _ crooked_path_short)

-- A history without entries is within its bounds, and so is an editor that begins with it.
first-IsValid : IsValid 8 (first_editor initial_history)
unfolding length
first-IsValid = record {
  cursor = omega arith;
  fits = omega arith;
  history = record { few = omega arith; inside = omega arith };
}

some_keys : List Key
some_keys = up ∷ character 97 ∷ paste crooked_path ∷ backspace ∷ []

press_all-IsValid_example : IsValidRound 8 (press_all 8 some_keys (first_editor initial_history))
press_all-IsValid_example =
    press_all-IsValid 8 (omega arith) some_keys (first_editor initial_history) first-IsValid

ab-ArePrintable : ArePrintable (97 ∷ 98 ∷ [])
unfolding ArePrintable
ab-ArePrintable = (omega arith, omega arith, (omega arith, omega arith, tt))

press_all-returns_typed_example :
    press_all 8 (typed (97 ∷ 98 ∷ [])) (first_editor initial_history)
    ≡ returns true (97 ∷ 98 ∷ []) (reset_browse initial_history)
press_all-returns_typed_example =
    press_all-returns_typed 8 (97 ∷ 98 ∷ []) initial_history ab-ArePrintable
      (unfold length in omega arith)

abbrev some_heap : Heap
some_heap = record { input = some zeros; output = some zeros; has_nodes = true; has_marks = true }

-- The file "a" of the root directory has ten bytes.
abbrev with_a : Context memory
with_a = record one_open {
  index = record one_open.index {
    inode_table =
        λ j. if j == 1 then record small_file { is_used = true } else one_open.index.inode_table j;
  };
}

-- What `compress a` does in the root directory.
abbrev compressing : Report × Context memory
compressing = compress memory simple some_heap [] ((97 ∷ []) ∷ []) with_a

compress-Says_example :
    Says memory simple some_heap
      (build_absolute_path [] (97 ∷ []) max_path_length)
      with_a
      compressing.1
      compressing.0
compress-Says_example = compress-Says memory simple some_heap [] (97 ∷ []) [] with_a
