-- ===== src/Format.antt =====
-- src/storage/format.c: formatting a disk, and mounting one.
pub mod Marked
pub mod System
use simple_file_system.Base.{
  false, ℕ, zero, suc, ◌+◌, ◌-◌, ◌/◌, ◌%◌, ◌^◌, Bool, true, not, Option, none, some,
  invalid_argument, if◌then◌else◌, memory_allocation, Result, ok, err, Exec, pure, reject_if,
  lift_result, ◌>>=◌, ◌>>◌,
}
use simple_file_system.Config.{
  cluster_size, superblock_cluster_index, bitmap_start_cluster_index, bitmap_inode_id,
  index_table_inode_id,
}
use simple_file_system.Platform.{Stdio}
use simple_file_system.Disk.{Disk, flush_disk, read_cluster}
use simple_file_system.Bitmap.{Bitmap, mark_cluster_used, serialize_to_disk, deserialize_from_disk}
use simple_file_system.Bitmap
use simple_file_system.Superblock.{Superblock, initialize, write_to_disk, of_cluster, validate}
use simple_file_system.Index.{
  Inode, Index, empty_inode, type_regular, type_directory, write_inode, allocate_inode, flush,
  load_from_disk,
}
use simple_file_system.Index
use simple_file_system.Alloc.{Work, on_disk, on_index}
use simple_file_system.Dir.{Stdlib}
use simple_file_system.Dir.Table.{create_new}

-- Which calls of `calloc` return memory in fs_format_initialize_disk and fs_format_mount_disk.
pub record Memory : Type 0 where
  pub got_bitmap : Bool
  pub got_bitmap_buffer : Bool
  pub got_index : Bool
  pub got_inode_table : Bool
  pub got_alloc_context : Bool
  pub got_dir_context : Bool

-- A loop that marks clusters as used, with `rounds` left.
unfoldable pub mark_range : (rounds cluster_index : ℕ) → Exec Bitmap (Unit {0})
unfolding mark_cluster_used
mark_range zero cluster_index = pure tt
mark_range (suc rounds) cluster_index =
    mark_cluster_used cluster_index >> mark_range rounds (cluster_index + 1)

-- How many clusters the bitmap takes.
abbrev pub bitmap_cluster_count : Bitmap → ℕ
bitmap_cluster_count m = (m.bitmap_byte_length + cluster_size - 1) / cluster_size % 2 ^ 32

-- The clusters that formatting marks: those of the superblock, of the bitmap and of the inode table.
unfoldable pub mark_system : Superblock → Exec Bitmap (Unit {0})
unfolding mark_cluster_used mark_range
mark_system superblock m =
    (do
      mark_cluster_used superblock_cluster_index
      mark_range (bitmap_cluster_count m) bitmap_start_cluster_index
      mark_range superblock.inode_table_size_clusters superblock.inode_table_start_cluster)
      m

-- The bitmap, unless marking it has failed.
abbrev pub marked_or : Result (Unit {0}) → Bitmap → Result Bitmap
marked_or (ok _) marked = ok marked
marked_or (err e) marked = err e

unfoldable pub mark_created : Superblock → Result Bitmap → Result Bitmap
unfolding mark_system
mark_created superblock (err e) = err e
mark_created superblock (ok m) = let (r, marked) = mark_system superblock m in marked_or r marked

-- The bitmap that fs_format_initialize_disk makes.
unfoldable pub new_bitmap : Memory → (total_cluster_count : ℕ) → Superblock → Result Bitmap
unfolding Bitmap.create mark_created
new_bitmap memory total superblock =
    mark_created superblock (Bitmap.create memory.got_bitmap memory.got_bitmap_buffer total)

-- `fs_inode_t inode = {.id = id, .type = FS_TYPE_REGULAR, .is_used = true}`
abbrev pub system_inode : ℕ → Inode
system_inode id = record (empty_inode id) { type = type_regular; is_used = true }

module _ (io : Stdio) (lib : Stdlib) where
  -- fs_index_flush, on the index and the disk of the state.
  unfoldable pub flush_index : Exec (Work io) (Unit {0})
  unfolding flush
  flush_index w =
      let (r, (x, d)) = flush io (w.index, w.disk) in (r, record w { index = x; disk = d })

  -- fs_bitmap_serialize_to_disk, on the bitmap and the disk of the state.
  unfoldable pub save_bitmap : Exec (Work io) (Unit {0})
  unfolding serialize_to_disk
  save_bitmap w = on_disk io (serialize_to_disk io w.bitmap) w

  -- The part of fs_format_initialize_disk from the inodes to the root directory: the id of the root.
  unfoldable pub make_inodes : Memory → Exec (Work io) ℕ
  unfolding on_index write_inode allocate_inode create_new
  make_inodes memory = do
    on_index io (write_inode (system_inode bitmap_inode_id))
    on_index io (write_inode (system_inode index_table_inode_id))
    root_inode_id ← on_index io (allocate_inode type_directory)
    reject_if (not memory.got_alloc_context) memory_allocation
    reject_if (not memory.got_dir_context) memory_allocation
    create_new io lib root_inode_id root_inode_id
    pure root_inode_id

  -- The end of fs_format_initialize_disk, which writes everything out.
  unfoldable pub write_system : Superblock → Exec (Work io) (Unit {0})
  unfolding on_disk write_to_disk flush_index save_bitmap flush_disk
  write_system superblock = do
    on_disk io (write_to_disk io superblock)
    flush_index
    save_bitmap
    on_disk io (flush_disk io)

  -- The part of fs_format_initialize_disk on the contexts that it has made.
  unfoldable pub format_contents : Memory → Superblock → Exec (Work io) (Unit {0})
  unfolding make_inodes write_system
  format_contents memory superblock = do
    root_inode_id ← make_inodes memory
    write_system (record superblock { root_inode_id = root_inode_id })

  -- What is left of the state when the contexts are destroyed.
  abbrev with_contexts : {A : Type 0} → Bitmap → Index → Exec (Work io) A → Exec (Disk io) A
  with_contexts m x f d =
      let (r, w) = f (record { disk = d; bitmap = m; index = x; inode = empty_inode 0 }) in
      (r, w.disk)

  -- fs_format_initialize_disk
  unfoldable pub initialize_disk : Memory → (total_cluster_count : ℕ) → Exec (Disk io) (Unit {0})
  unfolding initialize write_to_disk new_bitmap Index.create format_contents
  initialize_disk memory total_cluster_count = do
    superblock ← lift_result (initialize total_cluster_count)
    write_to_disk io superblock
    m ← lift_result (new_bitmap memory total_cluster_count superblock)
    x ← lift_result (Index.create memory.got_index memory.got_inode_table superblock)
    with_contexts m x (format_contents memory superblock)

-- struct fs_format_context; a null pointer is `none`.
pub record FormatContext : Type 0 where
  pub superblock : Superblock
  pub bitmap_context : Option Bitmap
  pub index_context : Option Index
  pub is_mounted : Bool

-- fs_format_create_context
abbrev pub create_format_context : (got_memory : Bool) → Result FormatContext
create_format_context got_memory =
    if not got_memory
    then err memory_allocation
    else ok (record {
      superblock = record {
        magic = 0;
        total_clusters = 0;
        root_inode_id = 0;
        inode_table_start_cluster = 0;
        inode_table_size_clusters = 0;
        data_start_cluster = 0;
      };
      bitmap_context = none;
      index_context = none;
      is_mounted = false;
    })

module _ (io : Stdio) where
  -- The part of fs_format_destroy_context on the index.
  unfoldable pub flush_mounted : (is_mounted : Bool) → Option Index → Disk io → Disk io
  unfolding flush
  flush_mounted is_mounted none d = d
  flush_mounted is_mounted (some x) d = if is_mounted then (flush io (x, d)).1.1 else d

  -- fs_format_destroy_context: what is left is the disk.
  unfoldable pub destroy_format_context : FormatContext → Disk io → Disk io
  unfolding flush_mounted
  destroy_format_context c d = flush_mounted c.is_mounted c.index_context d

  -- fs_superblock_read_from_disk into the context: the structure is filled before it is validated.
  unfoldable pub read_superblock : Exec (FormatContext × Disk io) (Unit {0})
  unfolding read_cluster of_cluster validate
  read_superblock (c, d) =
      let (r, d') = read_cluster io 0 d in
      elim r [
        | err e ↦ (err e, (c, d'))
        | ok b ↦ (validate (of_cluster b), (record c { superblock = of_cluster b }, d'))
      ]

  -- fs_index_create and fs_index_load_from_disk; an index that is not loaded is destroyed.
  unfoldable pub mount_index : Memory → Exec (FormatContext × Disk io) (Unit {0})
  unfolding Index.create load_from_disk
  mount_index memory (c, d) =
      let none_yet = record c { index_context = none } in
      elim (Index.create memory.got_index memory.got_inode_table c.superblock) [
        | err e ↦ (err e, (none_yet, d))
        | ok x ↦
            let (r, (loaded, d')) = load_from_disk io (x, d) in
            elim r [
              | ok _ ↦ (ok tt, (record c { index_context = some loaded }, d'))
              | err e ↦ (err e, (none_yet, d'))
            ]
      ]

  -- fs_bitmap_create and fs_bitmap_deserialize_from_disk; if either fails, the index is destroyed too.
  unfoldable pub mount_bitmap : Memory → Exec (FormatContext × Disk io) (Unit {0})
  unfolding Bitmap.create deserialize_from_disk
  mount_bitmap memory (c, d) =
      let neither = record c { index_context = none; bitmap_context = none } in
      elim (Bitmap.create memory.got_bitmap memory.got_bitmap_buffer c.superblock.total_clusters) [
        | err e ↦ (err e, (neither, d))
        | ok m ↦
            let (r, (read, d')) = deserialize_from_disk io (m, d) in
            elim r [
              | ok _ ↦ (ok tt, (record c { bitmap_context = some read; is_mounted = true }, d'))
              | err e ↦ (err e, (neither, d'))
            ]
      ]

  -- fs_format_mount_disk
  unfoldable pub mount_disk : Memory → Exec (FormatContext × Disk io) (Unit {0})
  unfolding read_superblock mount_index mount_bitmap
  mount_disk memory (c, d) =
      (do
        reject_if c.is_mounted invalid_argument
        read_superblock
        mount_index memory
        mount_bitmap memory)
        (c, d)
