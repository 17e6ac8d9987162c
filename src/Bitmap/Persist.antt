-- ===== src/Bitmap/Persist.antt =====
-- Writing the bitmap of src/alloc/bitmap.c to the disk and reading it back.
use simple_file_system.Base.{ℕ, ◌/◌, ◌≡◌, refl, inl, inr, arith, ok, lt_or_le}
use simple_file_system.Platform.{Stdio, IsFile, IsReliable}
use simple_file_system.Disk.{Disk}
use simple_file_system.Config.{bitmap_start_cluster_index}
use simple_file_system.Disk.Chunks.Write.{HasRoom, write_chunks-total, write_chunks-OnDisk}
use simple_file_system.Disk.Chunks.Read.{read_chunks-AgreeBelow}
use simple_file_system.Disk.Chunks.{write_chunks}
use simple_file_system.Bitmap.{
  Bitmap, IsValid, is_cluster_free, serialize_to_disk, deserialize_from_disk,
}

module _ (io : Stdio) (file : IsFile io) (reliable : IsReliable io) where
  -- On a medium where no call fails, a writable disk with room for the bitmap takes it, and reading
  -- it back into a bitmap of the same size succeeds and gives every cluster the same mark.
  pub deserialize-serialize :
      (m blank : Bitmap) (d : Disk io)
      → IsValid m
      → IsValid blank
      → blank.total_cluster_count ≡ m.total_cluster_count
      → HasRoom io bitmap_start_cluster_index m.bitmap_byte_length d
      → let (wrote, d') = serialize_to_disk io m d in
        let (read, (got, _)) = deserialize_from_disk io (blank, d') in
        (wrote ≡ ok tt) × (read ≡ ok tt) × ((c : ℕ) → is_cluster_free got c ≡ is_cluster_free m c)
  unfolding serialize_to_disk deserialize_from_disk is_cluster_free
  deserialize-serialize m blank d vm vb same_total room =
      let start = bitmap_start_cluster_index in
      let buf = m.bitmap_buffer in
      let n = m.bitmap_byte_length in
      let d' = (write_chunks io start buf n n 0 d).1 in
      let (wrote, room') = write_chunks-total io file start buf n reliable n 0 d room in
      let on_disk =
        write_chunks-OnDisk io file start buf n n 0 d (omega arith) (inl refl)
          (λ i lt. absurd (omega arith)) wrote in
      let e : blank.bitmap_byte_length ≡ n = omega (arith, vm.byte_length, vb.byte_length) in
      let (read, agrees) =
        read_chunks-AgreeBelow io file start buf n reliable n 0 blank.bitmap_buffer d' (omega arith)
          (inl refl) room' on_disk (λ j lt. absurd (omega arith)) in
      (
        wrote,
        rw e read,
        λ c. elim (lt_or_le c m.total_cluster_count) [
          | inl inside ↦
              rw (e, same_total) (ground (arith, agrees (c / 8) (omega (arith, vm.byte_length))))
          | inr outside ↦ ground arith
        ],
      )
