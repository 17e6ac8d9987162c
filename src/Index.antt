-- ===== src/Index.antt =====
-- src/metadata/index.c: the table of inodes, in memory and on the disk; include/fs/types.h, fs_inode_t.
pub mod Slots
pub mod Count
pub mod Persist
use simple_file_system.Disk.Chunks.{write_chunks, read_chunks}
use simple_file_system.Disk.{Disk}
use simple_file_system.Superblock.{inode_bytes}
use simple_file_system.Platform.{Stdio}
use simple_file_system.Base.{
  byte_of_u32, u32_at, Bytes, ◌*◌, ◌/◌, ◌%◌, ◌-◌, ℕ, zero, suc, ◌+◌, ◌-◌, ◌*◌, ◌/◌, ◌%◌, ◌^◌, ◌<◌,
  ◌≤◌, ◌≡◌, ◌≢◌, ◌⊎◌, refl, sym, ap, ◌∙◌, fun_ext, inl, inr, Bool, true, false, not, ◌&&◌, ◌||◌,
  Option, none, some, List, [], ◌∷◌, ◌++◌, arith, Bytes, zeros, copy, store, AreBytes, u32_at,
  set_u32, byte_of_u32, Status, file_access, invalid_argument, out_of_bounds, memory_allocation,
  read_only, no_space, Result, ok, err, Exec, pure, fail, reject_if, continue, ◌>>=◌, ◌>>◌, bind-ok,
  ltb, leb, ◌==◌, if◌then◌else◌, Bool-cases, ltb→lt, lt→ltb, le→ltb, le→leb, lt→leb, ==→eq, ==-ne,
  ==-refl, ne→==, lt_or_le, min, max,
}
use simple_file_system.Config.{inode_count, cluster_size}
use simple_file_system.Platform.{Stdio}
use simple_file_system.Disk.{Disk}
use simple_file_system.Disk.Chunks.{write_chunks, read_chunks}
use simple_file_system.Superblock.{Superblock, inode_bytes}

-- fs_file_type_t, as the number that is stored.
abbrev pub type_regular : ℕ
type_regular = 0

abbrev pub type_directory : ℕ
type_directory = 1

abbrev pub type_symlink : ℕ
type_symlink = 2

-- fs_inode_t
pub record Inode : Type 0 where
  pub id : ℕ
  pub type : ℕ
  pub is_used : Bool
  pub link_count : ℕ
  pub size : ℕ
  pub cluster_count : ℕ
  pub direct_clusters : ℕ → ℕ
  pub single_indirect_cluster : ℕ
  pub double_indirect_cluster : ℕ
  pub triple_indirect_cluster : ℕ

-- `fs_inode_t inode = {0}` with its id
abbrev pub empty_inode : ℕ → Inode
empty_inode i = record {
  id = i;
  type = type_regular;
  is_used = false;
  link_count = 0;
  size = 0;
  cluster_count = 0;
  direct_clusters = λ k. 0;
  single_indirect_cluster = 0;
  double_indirect_cluster = 0;
  triple_indirect_cluster = 0;
}

-- struct fs_index. The disk that it points at is passed to the operations that use it.
pub record Index : Type 0 where
  pub inode_table : ℕ → Inode
  pub total_inodes : ℕ
  pub start_cluster : ℕ
  pub table_size_clusters : ℕ
  pub is_dirty : Bool

-- fs_index_create; the flags tell whether the calls of `calloc` returned memory.
unfoldable pub create : (got_context got_table : Bool) → Superblock → Result Index
create got_context got_table superblock =
    if not got_context
    then err memory_allocation
    else if not got_table
    then err memory_allocation
    else ok (record {
      inode_table = λ i. empty_inode 0;
      total_inodes = inode_count;
      start_cluster = superblock.inode_table_start_cluster;
      table_size_clusters = superblock.inode_table_size_clusters;
      is_dirty = false;
    })

-- fs_index_read_inode
unfoldable pub read_inode : Index → ℕ → Result Inode
read_inode x inode_id =
    if leb x.total_inodes inode_id then err invalid_argument else ok (x.inode_table inode_id)

-- `table[i] = inode`
unfoldable pub put_inode : (ℕ → Inode) → ℕ → Inode → ℕ → Inode
put_inode table i inode j = if j == i then inode else table j

-- fs_index_write_inode
unfoldable pub write_inode : Inode → Exec Index (Unit {0})
unfolding put_inode
write_inode inode x =
    if leb x.total_inodes inode.id
    then (err invalid_argument, x)
    else (ok tt, record x { inode_table = put_inode x.inode_table inode.id inode; is_dirty = true })

-- The inode that fs_index_allocate_inode writes.
abbrev pub new_inode : ℕ → ℕ → Inode
new_inode i type = record (empty_inode i) { type = type; is_used = true; link_count = 1 }

-- The loop of fs_index_allocate_inode, with `rounds` slots left.
unfoldable pub allocate_from : (type rounds i : ℕ) → Exec Index ℕ
unfolding write_inode
allocate_from type zero i x = (err no_space, x)
allocate_from type (suc rounds) i x =
    let rest = allocate_from type rounds (i + 1) x in
    if not (x.inode_table i).is_used then (write_inode (new_inode i type) >> pure i) x else rest

-- fs_index_allocate_inode
unfoldable pub allocate_inode : ℕ → Exec Index ℕ
unfolding allocate_from
allocate_inode type x = allocate_from type x.total_inodes 0 x

-- fs_index_free_inode
unfoldable pub free_inode : ℕ → Exec Index (Unit {0})
unfolding write_inode
free_inode inode_id x =
    if leb x.total_inodes inode_id
    then (err invalid_argument, x)
    else write_inode (empty_inode inode_id) x

-- The loop of fs_index_count_used_inodes, with `rounds` slots left.
unfoldable pub count_used_from : Index → (rounds inode_index used_count : ℕ) → ℕ
count_used_from x zero inode_index used_count = used_count
count_used_from x (suc rounds) inode_index used_count =
    count_used_from x rounds (inode_index + 1)
      (if (x.inode_table inode_index).is_used then used_count + 1 else used_count)

-- fs_index_count_used_inodes
unfoldable pub count_used_inodes : Index → ℕ
unfolding count_used_from
count_used_inodes x = count_used_from x x.total_inodes 0 0

-- The 21 numbers of four bytes of an fs_inode_t; `is_used` and its padding are one of them.
unfoldable pub word_of_inode : Inode → ℕ → ℕ
word_of_inode n w =
    if w == 0
    then n.id
    else if w == 1
    then n.type
    else if w == 2
    then (if n.is_used then 1 else 0)
    else if w == 3
    then n.link_count
    else if w == 4
    then n.size
    else if w == 5
    then n.cluster_count
    else if ltb w 18
    then n.direct_clusters (w - 6)
    else if w == 18
    then n.single_indirect_cluster
    else if w == 19
    then n.double_indirect_cluster
    else n.triple_indirect_cluster

-- The table as the bytes that it takes in memory, and back.
unfoldable pub table_bytes : (ℕ → Inode) → Bytes
unfolding word_of_inode byte_of_u32
table_bytes table p =
    byte_of_u32 (word_of_inode (table (p / inode_bytes)) (p % inode_bytes / 4)) (p % 4)

unfoldable pub inode_of_bytes : Bytes → ℕ → Inode
unfolding u32_at
inode_of_bytes b j = record {
  id = u32_at b (21 * j);
  type = u32_at b (21 * j + 1);
  is_used = not (b (4 * (21 * j + 2)) == 0);
  link_count = u32_at b (21 * j + 3);
  size = u32_at b (21 * j + 4);
  cluster_count = u32_at b (21 * j + 5);
  direct_clusters = λ k. u32_at b (21 * j + (6 + k));
  single_indirect_cluster = u32_at b (21 * j + 18);
  double_indirect_cluster = u32_at b (21 * j + 19);
  triple_indirect_cluster = u32_at b (21 * j + 20);
}

module _ (io : Stdio) where
  -- fs_index_load_from_disk. What was read before an error stays in the table.
  unfoldable pub load_from_disk : Exec (Index × Disk io) (Unit {0})
  unfolding table_bytes inode_of_bytes read_chunks
  load_from_disk (x, d) =
      let len = x.total_inodes * inode_bytes in
      let (r, (buffer, d')) =
        read_chunks io x.start_cluster len len 0 (table_bytes x.inode_table, d) in
      let loaded = record x { inode_table = inode_of_bytes buffer } in
      elim r [
        | ok _ ↦ (ok tt, (record loaded { is_dirty = false }, d'))
        | err e ↦ (err e, (loaded, d'))
      ]

  -- fs_index_flush
  unfoldable pub flush : Exec (Index × Disk io) (Unit {0})
  unfolding table_bytes write_chunks
  flush (x, d) =
      if not x.is_dirty
      then (ok tt, (x, d))
      else let len = x.total_inodes * inode_bytes in
        let (r, d') = write_chunks io x.start_cluster (table_bytes x.inode_table) len len 0 d in
        elim r [ ok _ ↦ (ok tt, (record x { is_dirty = false }, d')) | err e ↦ (err e, (x, d')) ]
