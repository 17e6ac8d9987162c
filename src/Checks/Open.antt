-- ===== src/Checks/Open.antt =====
-- The theorems on open files at concrete states.
use simple_file_system.Base.{ℕ, ◌<◌, ◌≡◌, refl, true, some, ok, ◌==◌, if◌then◌else◌}
use simple_file_system.Index.{read_inode, write_inode}
use simple_file_system.Alloc.Files.{read_data}
use simple_file_system.Vfs.Cache.{find_slot, load_cluster}
use simple_file_system.Vfs.Cache.Load.{IsCoherent, load_cluster-finds}
use simple_file_system.Base.Integer.{◌+ℤ◌, pos, negsuc}
use simple_file_system.Vfs.Files.{max_open_files, from_end, seek, close}
use simple_file_system.Vfs.Files.Seek.{IsAimedAt, moved, seek-moves}
use simple_file_system.Checks.{memory, full_cache-IsCoherent, session, table}

load_in_slot_1 : (load_cluster memory 7 session).0 ≡ ok 1
unfolding load_cluster read_inode read_data
load_in_slot_1 = refl

load_cluster_example :
    let file = (load_cluster memory 7 session).1.file in
    IsCoherent file × (find_slot file 7 ≡ some 1)
load_cluster_example = load_cluster-finds memory session 7 1 full_cache-IsCoherent load_in_slot_1

seek_succeeds : (seek memory (pos 3) (negsuc 3) from_end table).0 ≡ ok tt
unfolding seek ◌+ℤ◌
seek_succeeds = refl

seek-moves_example :
    let v' = (seek memory (pos 3) (negsuc 3) from_end table).1 in
    (k : ℕ) × (pos 3 ≡ pos k)
    × (k < max_open_files)
    × ((table.open_files k).is_open ≡ true)
    × (position : ℕ) × IsAimedAt (table.open_files k) (negsuc 3) from_end (pos position)
    × ((j : ℕ)
        → v'.open_files j ≡ (
            if j == k
            then moved position (v'.open_files k).cache_slot_dirty (table.open_files k)
            else table.open_files j))
seek-moves_example = seek-moves memory table (pos 3) (negsuc 3) from_end seek_succeeds

close_succeeds : (close memory (pos 3) table).0 ≡ ok tt
unfolding close read_inode write_inode
close_succeeds = refl
