-- ===== src/Checks/Paths.antt =====
-- The theorems on paths, open files and formatting at concrete states.
use simple_file_system.Base.{
  ℕ, ◌+◌, ◌-◌, ◌≤◌, ◌≡◌, ◌⊎◌, refl, ap, true, [], ◌∷◌, arith, Bytes, zeros, Status,
  invalid_argument, ok, err, ◌==◌,
}
use simple_file_system.Base.Text.{Text, length, before}
use simple_file_system.Disk.{read_cluster}
use simple_file_system.Alloc.{resolve_cluster}
use simple_file_system.Bitmap.{Bitmap}
use simple_file_system.Dir.{fill_entries}
use simple_file_system.Vfs.{Context}
use simple_file_system.Vfs.Path.{normalize_path, Walk, walk}
use simple_file_system.Vfs.Path.Normal.{IsNormal, components, normalize_path-normalizes}
use simple_file_system.Vfs.Path.Rounds.{IsFinished, walk-rounds}
use simple_file_system.Vfs.Io.{read_file, write_file}
use simple_file_system.Vfs.Operations.{locate, remove, remove_directory}
use simple_file_system.Vfs.Busy.{remove-refuses_open}
use simple_file_system.Vfs.Transfer.{LoadFails, read_file-reads}
use simple_file_system.Vfs.Writing.{Written, write_file-caches}
use simple_file_system.Format.{Memory, mark_system, new_bitmap, format_contents}
use simple_file_system.Format.Marked.{IsFresh}
use simple_file_system.Format.System.{IsFormatted, format_contents-IsFormatted}
use simple_file_system.Index.{empty_inode}
use simple_file_system.Alloc.{Work}
use simple_file_system.Checks.{
  memory, session, table, full_cache-IsCoherent, small_superblock, none_used, memory_file,
  blank_disk, four_slots,
}
use simple_file_system.Checks.Sorting.{simple}
use simple_file_system.Checks.Directory.{name_a, with_directory}

-- "//a/./b/"
abbrev long_path : Text
long_path = 47 ∷ 47 ∷ 97 ∷ 47 ∷ 46 ∷ 47 ∷ 98 ∷ 47 ∷ []

normalize_path-normalizes_example :
    IsNormal (normalize_path long_path)
    × (normalize_path (normalize_path long_path) ≡ normalize_path long_path)
    × (components (normalize_path long_path) ≡ components long_path)
normalize_path-normalizes_example = normalize_path-normalizes long_path

-- "/a"
abbrev path_a : Text
path_a = 47 ∷ name_a

walk-rounds_example :
    ((v : Context memory) (r : Walk) → (walk memory simple 9 path_a 0 v).0 ≡ ok r → IsFinished r)
    × (walk memory simple 9 path_a 0 ≡ walk memory simple 2 path_a 0)
unfolding length
walk-rounds_example = walk-rounds memory simple 9 2 path_a 0 (omega arith) (omega arith)

-- The first descriptor is open on the file "a".
abbrev pub one_open : Context memory
one_open = record {
  disk = with_directory.disk;
  bitmap = with_directory.bitmap;
  index = with_directory.index;
  open_files = λ k. record (table.open_files k) { is_open = k == 0; inode_id = 1 };
  root_inode_id = 0;
}

abbrev found_a : Context memory
found_a = (locate memory simple path_a one_open).1

finds_a : (locate memory simple path_a one_open).0 ≡ ok (0, name_a, 1)
unfolding locate resolve_cluster read_cluster fill_entries before
finds_a = refl

remove-refuses_open_example :
    (remove memory simple path_a one_open ≡ (err invalid_argument, found_a))
    × (remove_directory memory simple path_a one_open ≡ (err invalid_argument, found_a))
remove-refuses_open_example =
    remove-refuses_open memory simple path_a one_open found_a 0 name_a 1 0
      (ap (λ r. (r, found_a)) finds_a)
      (record { in_table = omega arith; opened = refl; on_inode = refl })

read_file-reads_example :
    (k : ℕ) × (buffer : Bytes) × ((read_file memory 5 zeros session).0 ≡ ok (k, buffer))
    × (k ≤ 5)
    × (k ≤ session.file.cached_file_size - session.file.current_position)
    × (((k ≡ 5) ⊎ (k ≡ session.file.cached_file_size - session.file.current_position))
        ⊎ LoadFails memory 5 0 (session, zeros) k)
    × ((i : ℕ) → buffer (k + i) ≡ zeros (k + i))
read_file-reads_example = read_file-reads memory 5 zeros session

writes_3 : (write_file memory zeros 3 session).0 ≡ ok 3
unfolding write_file
writes_3 = refl

-- The first three bytes of the source are 5, 6 and 7.
abbrev counted : Bytes
counted i = i + 5

write_file-caches_example :
    (((write_file memory counted 3 session).0 ≡ ok 3)
      × Written session counted 3 (write_file memory counted 3 session).1.file)
    ⊎ ((e : Status) × ((write_file memory counted 3 session).0 ≡ err e))
write_file-caches_example =
    write_file-caches memory counted session 3 full_cache-IsCoherent (omega arith) (omega arith)
      (omega arith)

abbrev plenty : Memory
plenty = record {
  got_bitmap = true;
  got_bitmap_buffer = true;
  got_index = true;
  got_inode_table = true;
  got_alloc_context = true;
  got_dir_context = true;
}

abbrev fresh : Bitmap
fresh = (mark_system small_superblock none_used).1

makes_fresh : new_bitmap plenty 16 small_superblock ≡ ok fresh
unfolding new_bitmap
makes_fresh = refl

-- The state in which the root directory is made, with four inodes free.
abbrev unformatted : Work memory
unformatted = record {
  disk = blank_disk;
  bitmap = fresh;
  index = record four_slots { inode_table = λ j. empty_inode 0 };
  inode = empty_inode 0;
}

format_contents-IsFormatted_example :
    IsFresh 16 small_superblock fresh
    × IsFormatted 16 small_superblock
        (format_contents memory simple plenty small_superblock unformatted).1.bitmap
format_contents-IsFormatted_example =
    format_contents-IsFormatted memory simple memory_file plenty 16 small_superblock unformatted
      (omega arith) makes_fresh
