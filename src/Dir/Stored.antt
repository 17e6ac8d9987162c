-- ===== src/Dir/Stored.antt =====
-- src/logical/dir.c: a directory that has been written is the one that is read, if it takes no more than
-- its first cluster.
use simple_file_system.Base.{
  ℕ, ◌%◌, ◌^◌, ◌<◌, ◌≤◌, ◌≡◌, ◌≢◌, refl, sym, ap, ◌∙◌, Bool, true, false, not, ◌&&◌, List, arith,
  Bytes, zeros, Status, file_access, memory_allocation, Result, ok, err, reject_if, ◌>>◌, by_result,
  ltb, ◌==◌, ne→==,
}
use simple_file_system.Config.{cluster_size}
use simple_file_system.Platform.{Stdio, IsFile}
use simple_file_system.Disk.Laws.{cluster}
use simple_file_system.Index.{Inode, Index, read_inode, write_inode}
use simple_file_system.Alloc.{Work, on_index}
use simple_file_system.Alloc.Files.{grown, read_data, clusters_of_size}
use simple_file_system.Alloc.Contents.{write_data-Gives}
use simple_file_system.Alloc.Readback.{read_data-first}
use simple_file_system.Base.Gives.{Gives, Gives-bind, Gives-keeps, Gives-pure, Gives-rest}
use simple_file_system.Base.Keeps.{Keeps-reject_if}
use simple_file_system.Base.Text.{length}
use simple_file_system.Dir.{
  Dentry, fill_entries, total_size, parse_entries, Stdlib, IsStdlib, directory_buffer, entry_array,
  parsed_entry, write_buffer,
}
use simple_file_system.Dir.Names.{Names, Represents}
use simple_file_system.Dir.Represents.{sorted-Represents}
use simple_file_system.Dir.Roundtrip.{AreEntries, parse_entries-agree}
use simple_file_system.Dir.Tables.{IsTable}
use simple_file_system.Dir.Table.{
  read_directory, read_from_start, load_bytes, load_entries, open_entries, set_size, store_inode,
  save_entries, need,
}

module _ (io : Stdio) (file : IsFile io) (lib : Stdlib) (c : ℕ) (held : c ≢ 0)
    (es : List Dentry) where
  -- The bytes of the entries are in the cluster.
  abbrev pub Holds : Work io → Type 0
  Holds w = (i : ℕ) → i < total_size es → cluster io file w.disk c i ≡ fill_entries es 0 zeros i

  -- An inode of a directory of one cluster that holds the entries.
  pub record IsOf (n : Inode) : Type 0 where
    pub first : n.direct_clusters 0 ≡ c
    pub size : n.size ≡ total_size es

  -- What is read from the cluster.
  abbrev Agrees : Bytes → Type 0
  Agrees buffer = (i : ℕ) → i < total_size es → buffer i ≡ fill_entries es 0 zeros i

  read_from_start-Agrees :
      0 < total_size es
      → total_size es ≤ cluster_size
      → Gives
          (λ w. IsOf w.inode × Holds w)
          (read_from_start io lib (total_size es))
          (λ p _. Agrees p.0)
  unfolding read_from_start
  read_from_start-Agrees p l = record {
    at = λ w h r e i b.
        let d = read_data io 0 (total_size es) (w, zeros) in
        by_result
          (λ (x : Result (Bytes × ℕ) × Work io). x.0 ≡ ok r → r.0 i ≡ fill_entries es 0 zeros i) d.0
          (λ n. (ok (d.1.1, n), d.1.0)) (λ x. (err x, d.1.0))
          (λ n q e'.
            let same : d.1.1 ≡ r.0 = cc in
            rw (← same) (
              read_data-first io file w.inode c h.0.first held (total_size es) w zeros n i p l
                (rw (h.0.size) (omega arith)) refl q b
              ∙ h.1 i b))
          (λ x q e'. cc) e;
  }

  load_bytes-stored :
      0 < total_size es
      → total_size es ≤ cluster_size
      → AreEntries es
      → Gives
          (λ w. IsOf w.inode × Holds w)
          (load_bytes io lib (total_size es))
          (λ r _. r ≡ lib.qsort es)
  unfolding load_bytes
  load_bytes-stored p l w =
      Gives-bind {Q = λ _ w. IsOf w.inode × Holds w}
        (Gives-keeps (Keeps-reject_if (not (lib.has_memory directory_buffer)) memory_allocation))
        (λ _. Gives-bind (read_from_start-Agrees p l) (λ (buffer, n). record {
          at = λ s h r e.
              let es' = parse_entries (total_size es) buffer in
              let same : lib.qsort es' ≡ lib.qsort es =
                ap lib.qsort (parse_entries-agree es zeros buffer w h) in
              (Gives-rest {P = λ (s : Work io). Unit {0}}
                  (reject_if (not (n == total_size es)) file_access)
                  (λ _. Gives-rest (need io lib entry_array) (λ _.
                    Gives-rest
                      (reject_if (ltb 0 (length es') && not (lib.has_memory parsed_entry))
                        memory_allocation)
                      (λ _.
                        Gives-pure {Q = λ r _. r ≡ lib.qsort es} (lib.qsort es')
                          (λ s h. same))))).at
                s tt r e;
        }))

  -- The entries that are read of a stored directory are those that were written, sorted.
  open_entries-stored :
      (id : ℕ) (n : Inode) (w at : Work io) (r : List Dentry)
      → 0 < total_size es
      → total_size es ≤ cluster_size
      → AreEntries es
      → IsOf n
      → Holds w
      → read_inode w.index id ≡ ok n
      → open_entries io lib id w ≡ (ok r, at)
      → r ≡ lib.qsort es
  unfolding open_entries read_directory load_entries
  open_entries-stored id n w at r p l a o h q e =
      let w1 = record w { inode = n } in
      let read : read_directory io lib id w ≡ (ok tt, w1) = rw (read_directory, q) refl in
      let some_size : (n.size == 0) ≡ false = ne→== n.size 0 (λ z. omega (arith, o.size)) in
      let loads : load_entries io lib w1 ≡ load_bytes io lib (total_size es) w1 =
        rw (some_size, o.size) refl in
      let opens : open_entries io lib id w ≡ load_entries io lib w1 = rw (read) refl in
      (load_bytes-stored p l a).at w1 (o, h) r (ap (λ x. x.0) (sym loads ∙ sym opens ∙ e))

  reject-Gives :
      {P : Work io → Type 0} (b : Bool) (x : Status)
      → Gives P (reject_if b x) (λ _ w. P w × (b ≡ false))
  reject-Gives true x = record { at = λ w h a e. cc }
  reject-Gives false x = record { at = λ w h a e. (h, refl) }

  written_all : (k n : ℕ) → not (k == n) ≡ false → k ≡ n
  written_all k n h = ground arith

  in_index :
      (n : Inode) (x : Index)
      → (write_inode n x).0 ≡ ok tt
      → read_inode (write_inode n x).1 n.id ≡ ok n
  unfolding write_inode read_inode
  in_index n x h = ground arith

  -- The end of save_directory_entries, behind the write.
  set_and_store :
      (n₀ : Inode) (k : ℕ)
      → total_size es ≤ cluster_size
      → Gives
          (λ w.
            ((w.inode.id ≡ n₀.id) × (w.inode.direct_clusters 0 ≡ c) × Holds w)
            × (not (k == total_size es) ≡ false))
          (set_size io lib k >> store_inode io lib)
          (λ _ w. IsOf w.inode × Holds w × (read_inode w.index n₀.id ≡ ok w.inode))
  unfolding set_size store_inode on_index
  set_and_store n₀ k l = record {
    at = λ w h a e.
        let (q, f, b) = h.0 in
        let all : k ≡ total_size es = written_all k (total_size es) h.1 in
        let n = record w.inode {
          size = k % 2 ^ 32;
          cluster_count = clusters_of_size io (k % 2 ^ 32);
        } in
        (record { first = f; size = omega (arith, all, l) }, b, rw (← q) (in_index n w.index e));
  }

  -- A directory that save_directory_entries has written is stored.
  save_entries-stored :
      (w : Work io)
      → w.inode.direct_clusters 0 ≡ c
      → 0 < total_size es
      → total_size es ≤ cluster_size
      → (save_entries io lib es w).0 ≡ ok tt
      → let w' = (save_entries io lib es w).1 in
        IsOf w'.inode × Holds w' × (read_inode w'.index w.inode.id ≡ ok w'.inode)
  unfolding save_entries
  save_entries-stored w f p l e =
      (Gives-bind {Q = λ _ s. s.inode ≡ w.inode}
          {R = λ _ s. IsOf s.inode × Holds s × (read_inode s.index w.inode.id ≡ ok s.inode)}
          (Gives-keeps (Keeps-reject_if (not (lib.has_memory write_buffer)) memory_allocation))
          (λ _.
            Gives-bind
              (write_data-Gives io file w.inode c f held (fill_entries es 0 zeros) (total_size es) p
                l)
              (λ k.
                Gives-bind
                  (reject-Gives
                    {P = λ s.
                      (s.inode.id ≡ w.inode.id)
                      × (s.inode.direct_clusters 0 ≡ c)
                      × (s.inode.size ≡ (grown io (total_size es) w.inode).size)
                      × Holds s}
                    (not (k == total_size es)) file_access)
                  (λ _. record {
                    at = λ s h a e.
                        let (x, y, z, t) = h.0 in
                        (set_and_store w.inode k l).at s ((x, y, t), h.1) a e;
                  })))).at
        w refl tt e

-- A directory that is written and read again.
module _ (io : Stdio) (file : IsFile io) (lib : Stdlib) (std : IsStdlib lib) where
  -- The entries that are read behind a write of a table stand for its map, sorted or not.
  pub open_entries-save_entries :
      (es : List Dentry) (names : Names) (w at : Work io) (r : List Dentry)
      → IsTable es names
      → w.inode.direct_clusters 0 ≢ 0
      → 0 < total_size es
      → total_size es ≤ cluster_size
      → (save_entries io lib es w).0 ≡ ok tt
      → open_entries io lib w.inode.id (save_entries io lib es w).1 ≡ (ok r, at)
      → Represents r names
  open_entries-save_entries es names w at r t held p l e o =
      let c = w.inode.direct_clusters 0 in
      let w' = (save_entries io lib es w).1 in
      let (a, b, q) = save_entries-stored io file lib c held es w refl p l e in
      let same =
        open_entries-stored io file lib c held es w.inode.id w'.inode w' at r p l t.are_entries a b
          q o in
      rw (same) (sorted-Represents lib es names std t.represents)
