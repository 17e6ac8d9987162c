-- ===== src/Alloc.antt =====
-- src/alloc/alloc.c: the clusters of a file, reached from its inode through direct pointers and up to
-- three levels of pointer clusters.
pub mod Resolve
pub mod Grow
pub mod Growth
pub mod Contents
pub mod Readback
pub mod Transfer
pub mod Shrinks
pub mod Truncate
pub mod Allocate
pub mod Files
use simple_file_system.Base.{
  ℕ, zero, suc, ◌+◌, ◌-◌, ◌*◌, ◌/◌, ◌%◌, ◌^◌, ◌<◌, ◌≤◌, ◌≡◌, ◌≢◌, ◌⊎◌, refl, sym, ap, ◌∙◌, fun_ext,
  inl, inr, Bool, true, false, not, ◌&&◌, ◌||◌, Option, none, some, List, [], ◌∷◌, ◌++◌, arith,
  Bytes, zeros, copy, store, AreBytes, u32_at, set_u32, byte_of_u32, u32_word, u32_at-agree,
  u32_at_of_bytes, u32_at-set_u32, u32_at-set_u32_ne, Status, file_access, invalid_argument,
  out_of_bounds, memory_allocation, read_only, no_space, Result, ok, err, Exec, pure, fail,
  reject_if, lift_result, continue, ◌>>=◌, ◌>>◌, bind-ok, ltb, leb, ◌==◌, if◌then◌else◌, Bool-cases,
  ltb→lt, lt→ltb, le→ltb, le→leb, lt→leb, ==→eq, ==-ne, ==-refl, ne→==, lt_or_le, min, max,
}
use simple_file_system.Config.{cluster_size, direct_pointers}
use simple_file_system.Platform.{Stdio}
use simple_file_system.Disk.{Disk, read_cluster, write_cluster}
use simple_file_system.Bitmap.{Bitmap, find_free_cluster, mark_cluster_used, mark_cluster_free}
use simple_file_system.Index.{Inode, Index, write_inode}

module _ (io : Stdio) where
  -- What a call works on: the disk, bitmap and index of struct fs_alloc_context, and the inode that
  -- the caller passes by pointer.
  pub record Work : Type 0 where
    pub disk : Disk io
    pub bitmap : Bitmap
    pub index : Index
    pub inode : Inode

  -- A call of another component on its part of the state.
  unfoldable pub on_disk : {A : Type 0} → Exec (Disk io) A → Exec Work A
  on_disk m w = let (r, d) = m w.disk in (r, record w { disk = d })

  unfoldable pub on_bitmap : {A : Type 0} → Exec Bitmap A → Exec Work A
  on_bitmap m w = let (r, b) = m w.bitmap in (r, record w { bitmap = b })

  unfoldable pub on_index : {A : Type 0} → Exec Index A → Exec Work A
  on_index m w = let (r, x) = m w.index in (r, record w { index = x })

  -- `(void)fs_bitmap_mark_cluster_free(...)`
  unfoldable pub release : ℕ → Work → Work
  unfolding on_bitmap
  release c w = (on_bitmap (mark_cluster_free c) w).1

  -- The write of zeros in fs_alloc_allocate_and_zero_cluster, and what follows if it fails.
  unfoldable pub zero_cluster : ℕ → Exec Work ℕ
  unfolding on_disk release
  zero_cluster c w =
      let (r, w') = on_disk (write_cluster io c zeros) w in
      elim r [ ok _ ↦ (ok c, w') | err e ↦ (err e, release c w') ]

  -- fs_alloc_allocate_and_zero_cluster
  unfoldable pub allocate_and_zero_cluster : Exec Work ℕ
  unfolding on_bitmap zero_cluster
  allocate_and_zero_cluster w =
      (do
        c ← lift_result (find_free_cluster w.bitmap)
        on_bitmap (mark_cluster_used c)
        zero_cluster c)
        w

  -- A pointer that stands in the inode: it is read and, if it is missing and the caller allows it,
  -- allocated and stored.
  unfoldable pub inode_slot : (get : Inode → ℕ) (put : ℕ → Inode → Inode) → Bool → Exec Work ℕ
  unfolding allocate_and_zero_cluster
  inode_slot get put allocate_on_missing w =
      let pointer = get w.inode in
      if pointer == 0 && allocate_on_missing
      then (do c ← allocate_and_zero_cluster; λ w'. (ok c, record w' { inode = put c w'.inode })) w
      else (ok pointer, w)

  -- `if (pointer == 0) return FS_STATUS_ERROR_OUT_OF_BOUNDS;`
  abbrev pub require : ℕ → Exec Work (Unit {0})
  require pointer = reject_if (pointer == 0) out_of_bounds

  -- The allocation of a missing pointer of a pointer cluster, whose old pointers are given.
  unfoldable pub fill_entry : (indirect offset : ℕ) (pointers : Bytes) → Exec Work ℕ
  unfolding on_disk allocate_and_zero_cluster set_u32
  fill_entry indirect offset pointers = do
    c ← allocate_and_zero_cluster
    on_disk (write_cluster io indirect (set_u32 pointers offset c))
    pure c

  -- A pointer that stands at an offset of a pointer cluster: the cluster is read, and written back if
  -- a missing pointer is allocated.
  unfoldable pub entry : (indirect offset : ℕ) → Bool → Exec Work ℕ
  unfolding on_disk fill_entry u32_at
  entry indirect offset allocate_on_missing = do
    pointers ← on_disk (read_cluster io indirect)
    let pointer = u32_at pointers offset
    if pointer == 0 && allocate_on_missing
        then fill_entry indirect offset pointers
        else pure pointer

  -- FS_CLUSTER_SIZE / sizeof(uint32_t)
  abbrev pub pointers_per_cluster : ℕ
  pointers_per_cluster = 1024

  -- `inode->direct_clusters[k] = c`
  abbrev pub put_direct : ℕ → ℕ → Inode → Inode
  put_direct k c n = record n { direct_clusters = λ j. if j == k then c else n.direct_clusters j }

  abbrev pub put_single : ℕ → Inode → Inode
  put_single c n = record n { single_indirect_cluster = c }

  abbrev pub put_double : ℕ → Inode → Inode
  put_double c n = record n { double_indirect_cluster = c }

  abbrev pub put_triple : ℕ → Inode → Inode
  put_triple c n = record n { triple_indirect_cluster = c }

  unfoldable pub resolve_direct : ℕ → Bool → Exec Work ℕ
  unfolding inode_slot
  resolve_direct logical = inode_slot (λ n. n.direct_clusters logical) (put_direct logical)

  unfoldable pub resolve_single : ℕ → Bool → Exec Work ℕ
  unfolding inode_slot entry
  resolve_single logical allocate_on_missing = do
    single ← inode_slot (λ n. n.single_indirect_cluster) put_single allocate_on_missing
    require single
    entry single (logical - direct_pointers) allocate_on_missing

  unfoldable pub resolve_double : ℕ → Bool → Exec Work ℕ
  unfolding inode_slot entry
  resolve_double logical allocate_on_missing = do
    double ← inode_slot (λ n. n.double_indirect_cluster) put_double allocate_on_missing
    require double
    let remaining = logical - direct_pointers - pointers_per_cluster
    single ← entry double (remaining / pointers_per_cluster) allocate_on_missing
    require single
    entry single (remaining % pointers_per_cluster) allocate_on_missing

  unfoldable pub resolve_triple : ℕ → Bool → Exec Work ℕ
  unfolding inode_slot entry
  resolve_triple logical allocate_on_missing = do
    triple ← inode_slot (λ n. n.triple_indirect_cluster) put_triple allocate_on_missing
    require triple
    let square = pointers_per_cluster * pointers_per_cluster
    let remaining = logical - direct_pointers - pointers_per_cluster - square
    let mid_remaining = remaining % square
    double ← entry triple (remaining / square) allocate_on_missing
    require double
    single ← entry double (mid_remaining / pointers_per_cluster) allocate_on_missing
    require single
    entry single (mid_remaining % pointers_per_cluster) allocate_on_missing

  -- The choice of the level in fs_alloc_resolve_cluster.
  unfoldable pub resolve_pointer : ℕ → Bool → Exec Work ℕ
  unfolding resolve_direct resolve_single resolve_double resolve_triple
  resolve_pointer logical allocate_on_missing =
      let square = pointers_per_cluster * pointers_per_cluster in
      if ltb logical direct_pointers
      then resolve_direct logical allocate_on_missing
      else if ltb logical (direct_pointers + pointers_per_cluster)
      then resolve_single logical allocate_on_missing
      else if ltb logical (direct_pointers + pointers_per_cluster + square)
      then resolve_double logical allocate_on_missing
      else resolve_triple logical allocate_on_missing

  -- fs_alloc_resolve_cluster
  unfoldable pub resolve_cluster : ℕ → Bool → Exec Work ℕ
  unfolding resolve_pointer
  resolve_cluster logical allocate_on_missing = do
    target ← resolve_pointer logical allocate_on_missing
    require target
    pure target
