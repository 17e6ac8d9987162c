-- ===== src/Format/System.antt =====
-- fs_format_initialize_disk of src/storage/format.c: the clusters of the file system stay in use.
use simple_file_system.Base.{
  ℕ, ◌+◌, ◌^◌, ◌<◌, ◌≡◌, refl, ◌∙◌, Bool, true, false, not, ◌&&◌, ltb, ok, err, Result, Exec, zeros,
  Bytes, ◌==◌, memory_allocation, invalid_argument, by_result,
}
use simple_file_system.Base.Keeps.{Keeps, Keeps-pure, Keeps-reject_if, Keeps-bind}
use simple_file_system.Config.{bitmap_inode_id, index_table_inode_id}
use simple_file_system.Platform.{Stdio, IsFile}
use simple_file_system.Disk.{Disk, flush_disk}
use simple_file_system.Bitmap.{Bitmap, IsValid, is_cluster_free, serialize_to_disk}
use simple_file_system.Superblock.{Superblock, write_to_disk}
use simple_file_system.Index.{Index, read_inode, write_inode, allocate_inode, type_directory}
use simple_file_system.Alloc.{Work, on_disk, on_index}
use simple_file_system.Alloc.Files.{write_data}
use simple_file_system.Alloc.Growth.{write_data-Growth}
use simple_file_system.Dir.{Stdlib, fill_entries, total_size, new_entry, write_buffer}
use simple_file_system.Dir.Table.{
  read_directory, require_directory, first_entries, store_inode, create_new,
}
use simple_file_system.Format.{
  Memory, new_bitmap, system_inode, make_inodes, flush_index, save_bitmap, write_system,
  format_contents,
}
use simple_file_system.Format.Marked.{IsFresh, is_system, clusters_of_bits, new_bitmap-IsFresh}

module _ (io : Stdio) (lib : Stdlib) (file : IsFile io) (m : Bitmap) where
  -- The bitmap is valid and of the size of `m`, and no cluster is free in it that is used in `m`.
  record IsAbove (w : Work io) : Type 0 where
    valid : IsValid w.bitmap
    same_total : w.bitmap.total_cluster_count ≡ m.total_cluster_count
    still_used : (j : ℕ) → is_cluster_free m j ≡ false → is_cluster_free w.bitmap j ≡ false

  IsAbove-same : (w w' : Work io) → w'.bitmap ≡ w.bitmap → IsAbove w → IsAbove w'
  IsAbove-same w w' e h = record {
    valid = rw e h.valid;
    same_total = rw e h.same_total;
    still_used = λ j u. rw e (h.still_used j u);
  }

  on_index-IsAbove : {A : Type 0} (f : Exec Index A) → Keeps IsAbove (on_index io f)
  unfolding on_index
  on_index-IsAbove f = record { at = λ w h. IsAbove-same w _ refl h }

  on_disk-IsAbove : {A : Type 0} (f : Exec (Disk io) A) → Keeps IsAbove (on_disk io f)
  unfolding on_disk
  on_disk-IsAbove f = record { at = λ w h. IsAbove-same w _ refl h }

  read_directory-IsAbove : (id : ℕ) → Keeps IsAbove (read_directory io lib id)
  unfolding read_directory
  read_directory-IsAbove id = record {
    at = λ w h.
        by_result (λ (x : Result (Unit {0}) × Work io). IsAbove x.1) (read_inode w.index id)
          (λ n. (ok tt, record w { inode = n })) (λ e. (err e, w))
          (λ n q. IsAbove-same w (record w { inode = n }) refl h) (λ e q. h);
  }

  require_directory-IsAbove : Keeps IsAbove (require_directory io lib)
  unfolding require_directory
  require_directory-IsAbove = record {
    at = λ w h.
        (Keeps-reject_if {P = IsAbove} (not (w.inode.type == type_directory)) invalid_argument).at w
          h;
  }

  write_data-IsAbove :
      (off : ℕ) (source : Bytes) (n : ℕ) → Keeps IsAbove (write_data io off source n)
  write_data-IsAbove off source n = record {
    at = λ w h.
        let g = write_data-Growth io file w off source n h.valid in
        record {
          valid = g.valid;
          same_total = g.same_total ∙ h.same_total;
          still_used = λ j u. g.still_used j (h.still_used j u);
        };
  }

  store_inode-IsAbove : Keeps IsAbove (store_inode io lib)
  unfolding store_inode
  store_inode-IsAbove = record { at = λ w h. (on_index-IsAbove (write_inode w.inode)).at w h }

  create_new-IsAbove : (id parent : ℕ) → Keeps IsAbove (create_new io lib id parent)
  unfolding create_new
  create_new-IsAbove id parent =
      let es = first_entries id parent in
      Keeps-bind _ _ (read_directory-IsAbove id) (λ _.
        Keeps-bind _ _ require_directory-IsAbove (λ _.
          Keeps-bind _ _ (Keeps-reject_if (not (lib.has_memory new_entry)) memory_allocation) (λ _.
            Keeps-bind _ _ (Keeps-reject_if (not (lib.has_memory write_buffer)) memory_allocation)
              (λ _.
                Keeps-bind _ _ (write_data-IsAbove 0 (fill_entries es 0 zeros) (total_size es))
                  (λ k. store_inode-IsAbove)))))

  make_inodes-IsAbove : (memory : Memory) → Keeps IsAbove (make_inodes io lib memory)
  unfolding make_inodes
  make_inodes-IsAbove memory =
      Keeps-bind _ _ (on_index-IsAbove (write_inode (system_inode bitmap_inode_id))) (λ _.
        Keeps-bind _ _ (on_index-IsAbove (write_inode (system_inode index_table_inode_id))) (λ _.
          Keeps-bind _ _ (on_index-IsAbove (allocate_inode type_directory)) (λ id.
            Keeps-bind _ _ (Keeps-reject_if (not memory.got_alloc_context) memory_allocation) (λ _.
              Keeps-bind _ _ (Keeps-reject_if (not memory.got_dir_context) memory_allocation)
                (λ _. Keeps-bind _ _ (create_new-IsAbove id id) (λ _. Keeps-pure id))))))

  flush_index-IsAbove : Keeps IsAbove (flush_index io lib)
  unfolding flush_index
  flush_index-IsAbove = record { at = λ w h. IsAbove-same w _ refl h }

  save_bitmap-IsAbove : Keeps IsAbove (save_bitmap io lib)
  unfolding save_bitmap
  save_bitmap-IsAbove = record {
    at = λ w h. (on_disk-IsAbove (serialize_to_disk io w.bitmap)).at w h;
  }

  write_system-IsAbove : (superblock : Superblock) → Keeps IsAbove (write_system io lib superblock)
  unfolding write_system
  write_system-IsAbove superblock =
      Keeps-bind _ _ (on_disk-IsAbove (write_to_disk io superblock)) (λ _.
        Keeps-bind _ _ flush_index-IsAbove
          (λ _. Keeps-bind _ _ save_bitmap-IsAbove (λ _. on_disk-IsAbove (flush_disk io))))

  format_contents-IsAbove :
      (memory : Memory) (superblock : Superblock)
      → Keeps IsAbove (format_contents io lib memory superblock)
  unfolding format_contents
  format_contents-IsAbove memory superblock =
      Keeps-bind _ _ (make_inodes-IsAbove memory)
        (λ id. write_system-IsAbove (record superblock { root_inode_id = id }))

-- A bitmap in which no cluster of the system is free, nor one beyond the disk.
pub record IsFormatted (total : ℕ) (superblock : Superblock) (m : Bitmap) : Type 0 where
  pub valid : IsValid m
  pub has_total : m.total_cluster_count ≡ total
  pub system_used :
      (j : ℕ) → is_system (clusters_of_bits total) superblock j && is_cluster_free m j ≡ false
  pub inside : (j : ℕ) → not (ltb j total) && is_cluster_free m j ≡ false

not_free : (x b c : Bool) → (x && c) ≡ false → (c ≡ false → b ≡ false) → (x && b) ≡ false
not_free false b c h u = refl
not_free true b c h u = u h

system_not : (l s : Bool) → (s && (l && not s)) ≡ false
system_not true true = refl
system_not true false = refl
system_not false true = refl
system_not false false = refl

beyond_not : (l s : Bool) → (not l && (l && not s)) ≡ false
beyond_not true s = refl
beyond_not false s = refl

-- The bitmap that fs_format_initialize_disk begins with, when it gets it, for a number of clusters that
-- leaves room below 2 ^ 32, has free just the clusters of the disk that hold neither the superblock,
-- nor the bitmap, nor the inode table. All that follows, the making of the root directory included, also
-- when it fails, leaves the bitmap valid and with no cluster of the system and none beyond the
-- disk free.
pub format_contents-IsFormatted :
    (io : Stdio) (lib : Stdlib)
    → IsFile io
    → (memory : Memory) (total : ℕ) (superblock : Superblock) (w : Work io) → total + 7 < 2 ^ 32
    → new_bitmap memory total superblock ≡ ok w.bitmap
    → IsFresh total superblock w.bitmap
      × IsFormatted total superblock (format_contents io lib memory superblock w).1.bitmap
format_contents-IsFormatted io lib file memory total superblock w small e =
    let fresh = new_bitmap-IsFresh memory total superblock w.bitmap small e in
    let above =
      (format_contents-IsAbove io lib file w.bitmap memory superblock).at w
        (record { valid = fresh.valid; same_total = refl; still_used = λ j u. u }) in
    let after = (format_contents io lib memory superblock w).1.bitmap in
    let system : ℕ → Bool = λ j. is_system (clusters_of_bits total) superblock j in
    (
      fresh,
      record {
        valid = above.valid;
        has_total = above.same_total ∙ fresh.has_total;
        system_used = λ j.
            not_free (system j) (is_cluster_free after j) _ (system_not (ltb j total) (system j))
              (λ u. above.still_used j (fresh.free j ∙ u));
        inside = λ j.
            not_free (not (ltb j total)) (is_cluster_free after j) _
              (beyond_not (ltb j total) (system j)) (λ u. above.still_used j (fresh.free j ∙ u));
      },
    )
