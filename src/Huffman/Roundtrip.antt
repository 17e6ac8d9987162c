-- ===== src/Huffman/Roundtrip.antt =====
-- A text that huffman_compress of cli/src/commands/file_compress_commands.c has written and that
-- huffman_decompress reads.
use simple_file_system.Base.{
  ℕ, ◌+◌, ◌-◌, ◌*◌, ◌/◌, ◌<◌, ◌≤◌, ◌≡◌, refl, inl, inr, Bool, true, false, Option, none, some,
  arith, Bytes, zeros, copy, ◌==◌, lt→ltb, le→ltb, le→leb, ne→==, lt_or_le, max,
}
use simple_file_system.Base.Sum.{sum_below-same}
use simple_file_system.Huffman.{symbol_count, header_size}
use simple_file_system.Huffman.Codes.{build_decode_table}
use simple_file_system.Huffman.Coder.{
  huffman_compress, huffman_decompress, source_lengths, compress_with,
}
use simple_file_system.Huffman.Streams.{initialize_reader}
use simple_file_system.Huffman.Reading.{initialize_reader-IsAt}
use simple_file_system.Huffman.Kraft.{IsPrefixLengths}
use simple_file_system.Huffman.Sorted.{max_length-le}
use simple_file_system.Huffman.Restore.{bit_start, HasCodes, restore_loop-restores}
use simple_file_system.Huffman.Agreeing.{code_of-same, IsPrefixLengths-same}
use mathlib.Core.Option
use simple_file_system.Huffman.{
  Nodes, compute_code_lengths, count_frequencies, build_tree, zeroed_nodes,
}
use simple_file_system.Huffman.Kraft.{compute_code_lengths-IsPrefixLengths}
use simple_file_system.Huffman.Tree.{EndsWithin, build_tree-EndsWithin}
use simple_file_system.Huffman.Packed.{IsPacked, IsText, compress_with-IsPacked}

-- The table of lengths that huffman_decompress copies from the header.
abbrev read_lengths : Bytes → Bytes
read_lengths packed = copy zeros 0 packed 8 symbol_count

module _ {lengths source packed : Bytes} {n : ℕ} (packing : IsPacked lengths source n packed) where
  read_lengths-same : (s : ℕ) → s < 256 → read_lengths packed s ≡ lengths s
  unfolding copy
  read_lengths-same s h =
      let q : s - 0 ≡ s = omega arith in
      rw (le→leb 0 s (omega arith), lt→ltb s (0 + 256) (omega arith), q) (packing.has_lengths s h)

  read_lengths-bounded : ((s : ℕ) → lengths s ≤ 16) → (s : ℕ) → read_lengths packed s ≤ 16
  unfolding copy
  read_lengths-bounded bounded s = elim (lt_or_le s 256) [
    | inl lt ↦ rw (read_lengths-same s lt) (bounded s)
    | inr ge ↦ rw (le→ltb s (0 + 256) (omega arith), le→leb 0 s (omega arith)) (omega arith)
  ]

  module _ (prefix : IsPrefixLengths lengths) (text : IsText lengths source n) where
    abbrev copied : Bytes
    copied = read_lengths packed

    copied-prefix : IsPrefixLengths copied
    copied-prefix =
        IsPrefixLengths-same read_lengths-same (read_lengths-bounded prefix.bounded) prefix

    copied-at : (i : ℕ) → i < n → copied (source i) ≡ lengths (source i)
    copied-at i h = read_lengths-same (source i) (text.are_bytes i h)

    copied-start : (i : ℕ) → i ≤ n → bit_start copied source i ≡ bit_start lengths source i
    copied-start i h = sum_below-same _ _ i (λ j lt. copied-at j (omega arith))

    copied-codes :
        (size : ℕ)
        → bit_start lengths source n ≤ 8 * (size - header_size)
        → HasCodes copied source packed header_size (size - header_size) n
    copied-codes size room = record {
      are_bytes = text.are_bytes;
      are_coded = λ i h. rw (copied-at i h) (text.are_coded i h);
      fits = rw (copied-start n (omega arith)) room;
      bits = λ i h j lt.
          let c = code_of-same read_lengths-same prefix (source i) (text.are_bytes i h) in
          rw (copied-start i (omega arith), c, copied-at i h)
            (packing.has_codes i h j (rw (copied-at i h) at lt));
    }

    -- huffman_decompress on a text that is packed with such lengths gives its size and its bytes, if
    -- the destination has room for them.
    decompress-packed :
        (size i : ℕ) (destination : Bytes) (capacity : ℕ)
        → bit_start lengths source n ≤ 8 * (size - header_size)
        → header_size ≤ size
        → n ≤ capacity
        → i < n
        → ((huffman_decompress packed size destination capacity).0 ≡ n)
          × ((huffman_decompress packed size destination capacity).1 i ≡ source i)
    unfolding huffman_decompress
    decompress-packed size i destination capacity room whole wide h =
        let codes = copied-codes size room in
        let (complete, bytes) =
          restore_loop-restores copied-prefix codes
            (initialize_reader packed header_size (size - header_size)) destination
            (initialize_reader-IsAt packed header_size (size - header_size)) in
        let (longest, short) =
          max_length-le copied copied-prefix.bounded (source i) (text.are_bytes i h) in
        let some_length : ((build_decode_table copied).max_length == 0) ≡ false =
          ne→== _ _ (λ e. omega (arith, e, longest, codes.are_coded i h)) in
        let some_bytes : (n == 0) ≡ false = ne→== _ _ (λ e. omega arith) in
        rw
          (
            packing.has_magic,
            packing.has_size,
            le→ltb size header_size whole,
            le→ltb capacity n wide,
            some_bytes,
            some_length,
            complete,
          )
          (refl, bytes i h)

lengths_of-IsPrefixLengths :
    (tree : Option (Nodes × ℕ)) (lengths : Bytes)
    → Option.map (λ t. compute_code_lengths (t.0) (t.1)) tree ≡ some lengths
    → IsPrefixLengths lengths
lengths_of-IsPrefixLengths none lengths e = absurd (cc e)
lengths_of-IsPrefixLengths (some (nodes, count)) lengths e =
    let q : compute_code_lengths nodes count ≡ lengths = cc e in
    rw (← q) (compute_code_lengths-IsPrefixLengths nodes count)

lengths_of-some :
    (tree : Option (Nodes × ℕ)) (max : ℕ)
    → EndsWithin max tree
    → (lengths : Bytes) × (Option.map (λ t. compute_code_lengths (t.0) (t.1)) tree ≡ some lengths)
lengths_of-some none max ends = absurd ends
lengths_of-some (some (nodes, count)) max ends = (compute_code_lengths nodes count, refl)

-- huffman_compress finds a table of lengths for every source, with or without memory for the marks,
-- and the lengths are at most 16 and satisfy the inequality of Kraft.
pub source_lengths-total :
    (has_marks : Bool) (source : Bytes) (n : ℕ)
    → (lengths : Bytes) × (source_lengths has_marks source n ≡ some lengths)
      × IsPrefixLengths lengths
unfolding source_lengths
source_lengths-total has_marks source n =
    let tree : Option (Nodes × ℕ) =
      build_tree has_marks (count_frequencies source n) zeroed_nodes 512 in
    let (lengths, e) = lengths_of-some tree 512 (
      build_tree-EndsWithin has_marks (count_frequencies source n) zeroed_nodes 512
        (omega arith)) in
    (lengths, e, lengths_of-IsPrefixLengths tree lengths e)

-- The result of huffman_compress has the size of the header and the codes, and huffman_decompress
-- finds in it the size of the source and byte `i` of the source.
abbrev pub GivesBack :
    (lengths source : Bytes) (n i : ℕ) (destination : Bytes) (capacity : ℕ)
    → Option (ℕ × Bytes)
    → Type 0
GivesBack lengths source n i destination capacity none = ⊥
GivesBack lengths source n i destination capacity (some (size, packed)) =
    (size ≡ header_size + (bit_start lengths source n + 7) / 8)
    × ((huffman_decompress packed size destination capacity).0 ≡ n)
    × ((huffman_decompress packed size destination capacity).1 i ≡ source i)

-- What huffman_compress writes, huffman_decompress turns back into the source, byte for byte, if the
-- source is shorter than 2 ^ 32 bytes, each of its bytes has a length above 0 in the table that
-- huffman_compress makes, the first destination has room for the header and the codes, and the
-- second for the source; the result is as long as the header and the whole bytes of the codes.
pub huffman_decompress-huffman_compress :
    (source : Bytes) (n : ℕ) (lengths destination : Bytes) (capacity : ℕ) (restored : Bytes)
    (room i : ℕ)
    → source_lengths true source n ≡ some lengths
    → IsText lengths source n
    → header_size ≤ capacity
    → bit_start lengths source n ≤ 8 * (capacity - header_size)
    → n ≤ room
    → i < n
    → GivesBack lengths source n i restored room
        (huffman_compress true true source n destination capacity)
unfolding huffman_compress source_lengths
huffman_decompress-huffman_compress source n lengths destination capacity restored room i e text
      whole fits wide h =
    let prefix : IsPrefixLengths lengths = lengths_of-IsPrefixLengths _ lengths e in
    let (size, packed) = compress_with-IsPacked prefix text destination capacity fits in
    let (count, byte) =
      decompress-packed packed prefix text (compress_with lengths source n destination capacity).0 i
        restored room (omega (arith, size)) (omega (arith, size)) wide h in
    rw (le→ltb capacity header_size whole, e) (size, count, byte)
