-- ===== src/Alloc/Growth.antt =====
-- What resolving and writing of src/alloc/alloc.c leave alone, from any state with a valid bitmap.
use simple_file_system.Base.{ℕ, ◌≡◌, refl, Bool, Bytes}
use simple_file_system.Platform.{Stdio, IsFile}
use simple_file_system.Bitmap.{IsValid}
use simple_file_system.Alloc.{Work, resolve_cluster}
use simple_file_system.Alloc.Files.{write_data}
use simple_file_system.Alloc.Grow.{Grows, resolve-Grows, write_data-Grows}

module _ (io : Stdio) (file : IsFile io) where
  Grows-refl :
      (R : ℕ → Type 0) (w : Work io) → IsValid w.bitmap → R w.inode.size → Grows io file w R w
  Grows-refl R w v size = record {
    valid = v;
    same_total = refl;
    still_used = λ j used. used;
    same_index = refl;
    same_id = refl;
    same_type = refl;
    same_links = refl;
    size_in = size;
  }

  -- From a valid bitmap, whatever cluster of the file is asked for, whether or not a missing one is
  -- allocated, and whatever status is returned: the bitmap stays valid and of its size, each cluster
  -- in use stays in use, and the index and the inode's size, id, type and link count are as before.
  pub resolve_cluster-Growth :
      (w : Work io) (logical : ℕ) (allocate_on_missing : Bool)
      → IsValid w.bitmap
      → Grows io file w
          (λ size. size ≡ w.inode.size)
          (resolve_cluster io logical allocate_on_missing w).1
  resolve_cluster-Growth w logical allocate_on_missing v =
      (resolve-Grows io file w (λ size. size ≡ w.inode.size) logical allocate_on_missing).at w
        (Grows-refl _ w v refl)

  -- From a valid bitmap, after a write, also one that fails half way: the bitmap is valid and of its
  -- size, each cluster in use is still in use, and the index and the inode's id, type and link count
  -- are as before.
  pub write_data-Growth :
      (w : Work io) (byte_offset : ℕ) (source : Bytes) (bytes_to_write : ℕ)
      → IsValid w.bitmap
      → Grows io file w (λ _. Unit {0}) (write_data io byte_offset source bytes_to_write w).1
  write_data-Growth w byte_offset source bytes_to_write v =
      (write_data-Grows io file w (λ _. Unit {0}) (λ _. tt) byte_offset source bytes_to_write).at w
        (Grows-refl _ w v tt)
