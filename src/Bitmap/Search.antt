-- ===== src/Bitmap/Search.antt =====
-- The search of src/alloc/bitmap.c for a free cluster, which skips full bytes.
use simple_file_system.Base.{
  ℕ, zero, suc, ◌+◌, ◌-◌, ◌*◌, ◌/◌, ◌%◌, ◌^◌, ◌<◌, ◌≡◌, refl, true, false, no_space, Result, ok,
  err, leb, ◌==◌, arith, Bool-cases, inl, inr, lt_or_le, ==→eq, lt→leb,
}
use simple_file_system.Base.Bits.{bit_at, bit_at_full}
use simple_file_system.Bitmap.{
  Bitmap, IsValid, Scan, found, past_end, all_used, scan_bits, scan_bytes, find_free_cluster,
  is_cluster_free,
}

-- No cluster below `n` is free.
abbrev pub UsedBelow : Bitmap → ℕ → Type 0
UsedBelow m n = (j : ℕ) → j < n → is_cluster_free m j ≡ false

-- The lowest free cluster, or `no_space` if the disk has none.
abbrev pub IsFirstFree : Bitmap → Result ℕ → Type 0
IsFirstFree m (ok c) = (c < m.total_cluster_count) × (is_cluster_free m c ≡ true) × UsedBelow m c
IsFirstFree m (err e) = (e ≡ no_space) × UsedBelow m m.total_cluster_count

abbrev ScanResult : Bitmap → ℕ → Scan → Type 0
ScanResult m byte_index (found c) = IsFirstFree m (ok c)
ScanResult m byte_index past_end = UsedBelow m m.total_cluster_count
ScanResult m byte_index all_used = UsedBelow m (byte_index * 8 + 8)

module _ (m : Bitmap) where
  used_step : (n : ℕ) → UsedBelow m n → is_cluster_free m n ≡ false → UsedBelow m (n + 1)
  used_step n u e j h = elim (lt_or_le j n) [
    | inl lt ↦ u j lt
    | inr ge ↦ let q : j ≡ n = omega arith in rw (q, e)
  ]

  used_of_full_bit :
      (byte_index bit_offset : ℕ)
      → bit_offset < 8
      → (bit_at (m.bitmap_buffer byte_index) bit_offset == 0) ≡ false
      → is_cluster_free m (byte_index * 8 + bit_offset) ≡ false
  unfolding is_cluster_free
  used_of_full_bit byte_index bit_offset h e =
      let q : (byte_index * 8 + bit_offset) / 8 ≡ byte_index = omega arith in
      let r : (byte_index * 8 + bit_offset) % 8 ≡ bit_offset = omega arith in
      rw (q, r, e) (ground arith)

  free_of_clear_bit :
      (byte_index bit_offset : ℕ)
      → bit_offset < 8
      → byte_index * 8 + bit_offset < m.total_cluster_count
      → (bit_at (m.bitmap_buffer byte_index) bit_offset == 0) ≡ true
      → is_cluster_free m (byte_index * 8 + bit_offset) ≡ true
  unfolding is_cluster_free
  free_of_clear_bit byte_index bit_offset h inside e =
      let q : (byte_index * 8 + bit_offset) / 8 ≡ byte_index = omega arith in
      let r : (byte_index * 8 + bit_offset) % 8 ≡ bit_offset = omega arith in
      rw (q, r, e, lt→leb _ _ inside)

  scan_bits-ScanResult :
      (byte_index rounds bit_offset : ℕ)
      → rounds + bit_offset ≡ 8
      → byte_index * 8 + 8 < 2 ^ 32
      → UsedBelow m (byte_index * 8 + bit_offset)
      → ScanResult m byte_index (
          scan_bits m.total_cluster_count byte_index (m.bitmap_buffer byte_index) rounds bit_offset)
  unfolding scan_bits
  scan_bits-ScanResult byte_index zero bit_offset e h u = λ j lt. u j (omega arith)
  scan_bits-ScanResult byte_index (suc rounds) bit_offset e h u =
      let q : (byte_index * 8 % 2 ^ 32 + bit_offset) % 2 ^ 32 ≡ byte_index * 8 + bit_offset =
        omega arith in
      rw q (elim (Bool-cases (leb m.total_cluster_count (byte_index * 8 + bit_offset))) [
        | inl past ↦ rw past (λ j lt. u j (ground arith))
        | inr inside ↦ elim (Bool-cases (bit_at (m.bitmap_buffer byte_index) bit_offset == 0)) [
          | inl clear ↦
              rw (inside, clear)
                (
                  ground arith,
                  free_of_clear_bit byte_index bit_offset (omega arith) (ground arith) clear,
                  u,
                )
          | inr full ↦
              rw (inside, full)
                (scan_bits-ScanResult byte_index rounds (bit_offset + 1) (omega arith) h (λ j lt.
                  used_step (byte_index * 8 + bit_offset) u
                    (used_of_full_bit byte_index bit_offset (omega arith) full) j (omega arith)))
        ]
      ])

  used_of_full_byte :
      (byte_index : ℕ)
      → (m.bitmap_buffer byte_index == 255) ≡ true
      → UsedBelow m (byte_index * 8)
      → UsedBelow m (byte_index * 8 + 8)
  used_of_full_byte byte_index full u j h = elim (lt_or_le j (byte_index * 8)) [
    | inl lt ↦ u j lt
    | inr ge ↦
        let q : byte_index * 8 + (j - byte_index * 8) ≡ j = omega arith in
        let e : m.bitmap_buffer byte_index ≡ 255 = ==→eq _ _ full in
        rw (← q) (
          used_of_full_bit byte_index (j - byte_index * 8) (omega arith)
            (rw e (ground (arith, bit_at_full (j - byte_index * 8) (omega arith)))))
  ]

  scan_bytes-IsFirstFree :
      (rounds byte_index : ℕ)
      → IsValid m
      → rounds + byte_index ≡ m.bitmap_byte_length
      → UsedBelow m (byte_index * 8)
      → IsFirstFree m (scan_bytes m rounds byte_index)
  unfolding scan_bytes
  scan_bytes-IsFirstFree zero byte_index v e u = (refl, λ j lt. u j (omega arith))
  scan_bytes-IsFirstFree (suc rounds) byte_index v e u =
      elim (Bool-cases (m.bitmap_buffer byte_index == 255)) [
        | inl full ↦ rw full (
            scan_bytes-IsFirstFree rounds (byte_index + 1) v (omega arith)
              (λ j lt. used_of_full_byte byte_index full u j (omega arith)))
        | inr some_clear ↦ rw some_clear (
            after_scan (scan_bits m.total_cluster_count byte_index (m.bitmap_buffer byte_index) 8 0)
              (scan_bits-ScanResult byte_index 8 0 refl (omega arith) (λ j lt. u j (omega arith)))
              (λ used.
                scan_bytes-IsFirstFree rounds (byte_index + 1) v (omega arith)
                  (λ j lt. used j (omega arith))))
      ]
    where
      after_scan :
          (s : Scan)
          → ScanResult m byte_index s
          → (UsedBelow m (byte_index * 8 + 8)
              → IsFirstFree m (scan_bytes m rounds (byte_index + 1)))
          → IsFirstFree m (elim s [
            | found c ↦ ok c
            | past_end ↦ err no_space
            | all_used ↦ scan_bytes m rounds (byte_index + 1)
          ])
      after_scan (found c) r k = r
      after_scan past_end r k = (refl, r)
      after_scan all_used r k = k r

  -- On every valid bitmap the search returns the lowest free cluster, and fails, with `no_space`,
  -- exactly when no cluster of the disk is free.
  pub find_free_cluster-IsFirstFree : IsValid m → IsFirstFree m (find_free_cluster m)
  unfolding find_free_cluster
  find_free_cluster-IsFirstFree v =
      scan_bytes-IsFirstFree m.bitmap_byte_length 0 v (omega arith) (λ j lt. absurd (omega arith))
