-- ===== src/Index/Persist.antt =====
-- The inode table of src/metadata/index.c on the disk.
use native.Mathlib.Nat.{add-zero}
use simple_file_system.Base.{
  ℕ, ◌+◌, ◌*◌, ◌/◌, ◌%◌, ◌^◌, ◌<◌, ◌≤◌, ◌≡◌, refl, ◌∙◌, inl, true, false, arith, Bytes, u32_at,
  byte_of_u32, u32_at_of_bytes, ok,
}
use simple_file_system.Superblock.{inode_bytes}
use simple_file_system.Index.{
  Inode, Index, word_of_inode, table_bytes, inode_of_bytes, load_from_disk, flush,
}
use simple_file_system.Platform.{Stdio, IsFile, IsReliable}
use simple_file_system.Disk.{Disk}
use simple_file_system.Disk.Chunks.Write.{HasRoom, write_chunks-total, write_chunks-OnDisk}
use simple_file_system.Disk.Chunks.Read.{read_chunks-AgreeBelow}
use simple_file_system.Disk.Chunks.{read_chunks, write_chunks}

-- Every number of an inode fits in a `uint32_t`.
abbrev pub InRange : Inode → Type 0
InRange n = (w : ℕ) → w < 21 → word_of_inode n w < 2 ^ 32

-- Two inodes are equal in every field, of the pointers in the twelve that exist.
pub record SameInode (m n : Inode) : Type 0 where
  pub same_id : m.id ≡ n.id
  pub same_type : m.type ≡ n.type
  pub same_used : m.is_used ≡ n.is_used
  pub same_links : m.link_count ≡ n.link_count
  pub same_size : m.size ≡ n.size
  pub same_count : m.cluster_count ≡ n.cluster_count
  pub same_direct : (k : ℕ) → k < 12 → m.direct_clusters k ≡ n.direct_clusters k
  pub same_single : m.single_indirect_cluster ≡ n.single_indirect_cluster
  pub same_double : m.double_indirect_cluster ≡ n.double_indirect_cluster
  pub same_triple : m.triple_indirect_cluster ≡ n.triple_indirect_cluster

module _ (table : ℕ → Inode) (j w : ℕ) (hw : w < 21) where
  table_byte :
      (r : ℕ)
      → r < 4
      → table_bytes table (4 * (21 * j + w) + r) ≡ byte_of_u32 (word_of_inode (table j) w) r
  unfolding table_bytes
  table_byte r hr =
      let p : (4 * (21 * j + w) + r) / inode_bytes ≡ j = omega arith in
      let q : (4 * (21 * j + w) + r) % inode_bytes / 4 ≡ w = omega arith in
      let s : (4 * (21 * j + w) + r) % 4 ≡ r = omega arith in rw (p, q, s)

  -- A number that a buffer holds, if it agrees with the table's bytes.
  table_word :
      (b : Bytes) (limit : ℕ)
      → ((p : ℕ) → p < limit → b p ≡ table_bytes table p)
      → inode_bytes * (j + 1) ≤ limit
      → word_of_inode (table j) w < 2 ^ 32
      → u32_at b (21 * j + w) ≡ word_of_inode (table j) w
  table_word b limit same h fits =
      u32_at_of_bytes b (21 * j + w) (word_of_inode (table j) w) fits
        (λ r hr. same (4 * (21 * j + w) + r) (omega arith) ∙ table_byte r hr)

-- The inode at `j` of a buffer that agrees with the table's bytes is the table's.
SameInode-of_bytes :
    (table : ℕ → Inode) (b : Bytes) (limit j : ℕ)
    → ((p : ℕ) → p < limit → b p ≡ table_bytes table p)
    → inode_bytes * (j + 1) ≤ limit
    → InRange (table j)
    → SameInode (inode_of_bytes b j) (table j)
unfolding inode_of_bytes word_of_inode byte_of_u32
SameInode-of_bytes table b limit j same h fits =
    let at : (w : ℕ) → w < 21 → u32_at b (21 * j + w) ≡ word_of_inode (table j) w =
      λ w hw. table_word table j w hw b limit same h (fits w hw) in
    record {
      same_id = rw (← add-zero (21 * j)) (at 0 (omega arith));
      same_type = at 1 (omega arith);
      same_used =
          let byte : b (4 * (21 * j + 2)) ≡ byte_of_u32 (word_of_inode (table j) 2) 0 =
            same (4 * (21 * j + 2)) (omega arith)
            ∙ rw (← add-zero (4 * (21 * j + 2)))
                (table_byte table j 2 (omega arith) 0 (omega arith)) in
          rw byte (ground arith);
      same_links = at 3 (omega arith);
      same_size = at 4 (omega arith);
      same_count = at 5 (omega arith);
      same_direct = λ k hk. at (6 + k) (omega arith) ∙ ground arith;
      same_single = at 18 (omega arith);
      same_double = at 19 (omega arith);
      same_triple = at 20 (omega arith);
    }

module _ (io : Stdio) where
  flush-ok :
      (x : Index) (d : Disk io) (n : ℕ)
      → x.is_dirty ≡ true
      → x.total_inodes * inode_bytes ≡ n
      → (write_chunks io x.start_cluster (table_bytes x.inode_table) n n 0 d).0 ≡ ok tt
      → flush io (x, d) ≡ (
        ok tt,
        (
          record x { is_dirty = false },
          (write_chunks io x.start_cluster (table_bytes x.inode_table) n n 0 d).1,
        ),
      )
  unfolding flush
  flush-ok x d n dirty len e = ground arith

  load-ok :
      (y : Index) (d : Disk io) (start n : ℕ)
      → y.start_cluster ≡ start
      → y.total_inodes * inode_bytes ≡ n
      → (read_chunks io start n n 0 (table_bytes y.inode_table, d)).0 ≡ ok tt
      → let (_, (buffer, d')) = read_chunks io start n n 0 (table_bytes y.inode_table, d) in
        load_from_disk io (y, d)
        ≡ (ok tt, (record y { inode_table = inode_of_bytes buffer; is_dirty = false }, d'))
  unfolding load_from_disk
  load-ok y d start n same len e = ground arith

module _ (io : Stdio) (file : IsFile io) (reliable : IsReliable io) where
  -- On a medium where no call fails, a changed table whose numbers fit is written to a writable disk
  -- with room for it, and loading it into an index at the same place gives every inode back.
  pub load-flush :
      (x y : Index) (d : Disk io)
      → x.is_dirty ≡ true
      → y.start_cluster ≡ x.start_cluster
      → y.total_inodes ≡ x.total_inodes
      → ((j : ℕ) → j < x.total_inodes → InRange (x.inode_table j))
      → HasRoom io x.start_cluster (x.total_inodes * inode_bytes) d
      → let (wrote, (x', d')) = flush io (x, d) in
        let (read, (got, _)) = load_from_disk io (y, d') in
        (wrote ≡ ok tt)
        × (read ≡ ok tt)
        × (x'.is_dirty ≡ false)
        × ((j : ℕ) → j < x.total_inodes → SameInode (got.inode_table j) (x.inode_table j))
  load-flush x y d dirty same_start same_total fits room =
      let start = x.start_cluster in
      let buf = table_bytes x.inode_table in
      let n = x.total_inodes * inode_bytes in
      let d' = (write_chunks io start buf n n 0 d).1 in
      let (wrote, room') = write_chunks-total io file start buf n reliable n 0 d room in
      let on_disk =
        write_chunks-OnDisk io file start buf n n 0 d (omega arith) (inl refl)
          (λ i lt. absurd (omega arith)) wrote in
      let (read, agrees) =
        read_chunks-AgreeBelow io file start buf n reliable n 0 (table_bytes y.inode_table) d'
          (omega arith) (inl refl) room' on_disk (λ j lt. absurd (omega arith)) in
      let len : y.total_inodes * inode_bytes ≡ n = rw same_total in
      rw (flush-ok io x d n dirty refl wrote, load-ok io y d' start n same_start len read)
        (
          refl,
          refl,
          refl,
          λ j h. SameInode-of_bytes x.inode_table _ n j agrees (omega arith) (fits j h),
        )
