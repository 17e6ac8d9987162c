-- ===== src/Cli/Packing.antt =====
-- The commands `compress` and `decompress` of cli/src/commands/file_compress_commands.c. What a command
-- prints is a value of `Report`; warnings and percentages are left out.
pub mod Success
pub mod Reports
use simple_file_system.Base.{
  ℕ, zero, suc, ◌+◌, ◌-◌, ◌*◌, ◌/◌, ◌%◌, ◌^◌, ◌<◌, ◌≤◌, ◌≡◌, ◌≢◌, ◌⊎◌, refl, sym, ap, ◌∙◌, fun_ext,
  inl, inr, Bool, true, false, not, ◌&&◌, ◌||◌, Option, none, some, List, [], ◌∷◌, ◌++◌, arith,
  Bytes, zeros, copy, store, AreBytes, u32_at, set_u32, byte_of_u32, u32_word, u32_at-agree,
  u32_at_of_bytes, u32_at-set_u32, u32_at-set_u32_ne, Status, file_access, invalid_argument,
  out_of_bounds, memory_allocation, read_only, no_space, Result, ok, err, Exec, pure, fail,
  reject_if, lift_result, continue, ◌>>=◌, ◌>>◌, bind-ok, by_result, ltb, leb, ◌==◌, if◌then◌else◌,
  Bool-cases, ltb→lt, lt→ltb, le→ltb, le→leb, lt→leb, ==→eq, ==-ne, ==-refl, ne→==, lt_or_le, min,
  max,
}
use simple_file_system.Base.Integer.{pos}
use simple_file_system.Base.Text.{Text, length, same, take, drop}
use simple_file_system.Platform.{Stdio}
use simple_file_system.Dir.{Stdlib}
use simple_file_system.Vfs.{Context}
use simple_file_system.Vfs.Path.{max_path_length}
use simple_file_system.Vfs.Files.{close}
use simple_file_system.Vfs.Io.{read, write}
use simple_file_system.Vfs.Operations.{get_info}
use simple_file_system.Vfs.Open.{open_file}
use simple_file_system.Huffman.{header_size}
use simple_file_system.Huffman.Coder.{huffman_compress, huffman_decompress}
use simple_file_system.Cli.Paths.{build_absolute_path}

-- What a command prints: a message of an error, or the paths and the sizes.
pub data Report : Type 0 where
  usage wrong_extension no_info file_is_empty cannot_open no_memory read_error too_small : Report
  coder_failed cannot_create write_error : Report
  done : (from to : Text) (read_size written_size : ℕ) → Report

-- What the calls of `malloc` return, with the bytes that the memory holds, and whether the two calls of
-- `calloc` in the coder return memory.
pub record Heap : Type 0 where
  pub input : Option Bytes
  pub output : Option Bytes
  pub has_nodes : Bool
  pub has_marks : Bool

-- FS_OPEN_READ_ONLY
abbrev pub open_read_only : ℕ
open_read_only = 1

-- `FS_OPEN_CREATE | FS_OPEN_WRITE_ONLY | FS_OPEN_TRUNCATE`
abbrev pub open_new : ℕ
open_new = 26

-- ".sz"
abbrev pub extension : Text
extension = 46 ∷ 115 ∷ 122 ∷ []

module _ (io : Stdio) (lib : Stdlib) where
  abbrev pub Command : Type 0
  Command = Context io → Report × Context io

  abbrev pub report : Report → Command
  report r v = (r, v)

  -- The rest of a command if a call succeeds, and what it prints if it fails.
  abbrev pub on_result :
      {A : Type 0} → Report → (A → Command) → Result A × Context io → Report × Context io
  on_result failed next (ok a, v) = next a v
  on_result failed next (err e, v) = (failed, v)

  abbrev pub attempt : {A : Type 0} → Exec (Context io) A → Report → (A → Command) → Command
  attempt call failed next v = on_result failed next (call v)

  -- `(void)fs_vfs_close(...)` behind a call whose status is looked at later.
  abbrev pub and_close : {A : Type 0} → ℕ → Exec (Context io) A → Exec (Context io) A
  and_close descriptor call v =
      let (result, v') = call v in (result, (close io (pos descriptor) v').1)

  -- The end of both commands: the bytes go into a new file.
  unfoldable pub store_file : (from to : Text) (read_size : ℕ) → Bytes → (size : ℕ) → Command
  unfolding open_file write close
  store_file from to read_size contents size =
      attempt (open_file io lib to open_new) cannot_create (λ descriptor.
        attempt (and_close descriptor (write io (pos descriptor) contents size)) write_error
          (λ count. report (done from to read_size size)))

  -- `bytes_read != inode_info.size`
  unfoldable pub check_count : (size : ℕ) → (Bytes → Command) → ℕ × Bytes → Command
  check_count size next (count, contents) =
      if count == size then next contents else report read_error

  -- The bytes of an open file, read into the memory that there is for them.
  unfoldable pub load_into : (descriptor size : ℕ) → Option Bytes → (Bytes → Command) → Command
  unfolding read close check_count
  load_into descriptor size none next = λ v. (no_memory, (close io (pos descriptor) v).1)
  load_into descriptor size (some buffer) next =
      attempt (and_close descriptor (read io (pos descriptor) size buffer)) read_error
        (check_count size next)

  -- The middle of both commands: the file is opened, read and closed.
  unfoldable pub load_file : (path : Text) (size : ℕ) → Option Bytes → (Bytes → Command) → Command
  unfolding open_file load_into
  load_file path size memory next =
      attempt (open_file io lib path open_read_only) cannot_open
        (λ descriptor. load_into descriptor size memory next)

  -- What cli_command_compress does with the result of huffman_compress.
  unfoldable pub store_packed : (path : Text) (size : ℕ) → Option (ℕ × Bytes) → Command
  unfolding store_file
  store_packed path size none = report coder_failed
  store_packed path size (some (packed_size, packed)) =
      if packed_size == 0
      then report coder_failed
      else store_file path (take (max_path_length - 1) (path ++ extension)) size packed packed_size

  -- cli_command_compress behind the reading of the file.
  unfoldable pub pack : Heap → (path : Text) (size : ℕ) → Option Bytes → Bytes → Command
  unfolding store_packed huffman_compress
  pack heap path size none contents = report no_memory
  pack heap path size (some output) contents = store_packed path size (
      huffman_compress heap.has_nodes heap.has_marks contents size output
        (size + header_size + 1024))

  -- cli_command_compress, with the arguments behind the name of the command.
  unfoldable pub compress : Heap → (current : Text) (arguments : List Text) → Command
  unfolding build_absolute_path get_info load_file pack
  compress heap current [] = report usage
  compress heap current (argument ∷ arguments) =
      let path = build_absolute_path current argument max_path_length in
      attempt (get_info io lib path) no_info (λ inode.
        if inode.size == 0
        then report file_is_empty
        else load_file path inode.size heap.input (pack heap path inode.size heap.output))

  -- What cli_command_decompress does with the result of huffman_decompress.
  unfoldable pub store_unpacked : (path : Text) (size : ℕ) → ℕ × Bytes → Command
  unfolding store_file
  store_unpacked path size (unpacked_size, unpacked) =
      if unpacked_size == 0
      then report coder_failed
      else store_file path (take (length path - 3) path) size unpacked unpacked_size

  -- cli_command_decompress behind the reading of the file.
  unfoldable pub unpack : (path : Text) (size : ℕ) → Option Bytes → Bytes → Command
  unfolding store_unpacked huffman_decompress
  unpack path size none contents =
      if ltb size header_size then report too_small else report no_memory
  unpack path size (some output) contents =
      if ltb size header_size
      then report too_small
      else store_unpacked path size
          (huffman_decompress contents size output (u32_at contents 1 + 1024))

  -- `path_length < 3 || strcmp(absolute_path + path_length - 3, ".sz") != 0`
  unfoldable pub has_extension : Text → Bool
  unfolding length drop same
  has_extension path = not (ltb (length path) 3) && same (drop (length path - 3) path) extension

  -- cli_command_decompress
  unfoldable pub decompress : Heap → (current : Text) (arguments : List Text) → Command
  unfolding build_absolute_path get_info load_file unpack has_extension
  decompress heap current [] = report usage
  decompress heap current (argument ∷ arguments) =
      let path = build_absolute_path current argument max_path_length in
      if not (has_extension path)
      then report wrong_extension
      else attempt (get_info io lib path) no_info
          (λ inode. load_file path inode.size heap.input (unpack path inode.size heap.output))
