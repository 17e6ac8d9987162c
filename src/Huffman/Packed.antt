-- ===== src/Huffman/Packed.antt =====
-- What huffman_compress of cli/src/commands/file_compress_commands.c writes.
use simple_file_system.Base.{
  ℕ, ◌+◌, ◌-◌, ◌*◌, ◌/◌, ◌%◌, ◌^◌, ◌<◌, ◌≤◌, ◌≡◌, refl, sym, ap, ◌∙◌, Bool, arith, Bytes, copy,
  u32_at, set_u32, u32_at-agree, u32_at-set_u32, u32_at-set_u32_ne, lt→ltb, le→leb,
}
use simple_file_system.Base.Bits.{bit_at}
use simple_file_system.Base.Sum.{sum_below, sum_below-same}
use simple_file_system.Huffman.{magic, header_size}
use simple_file_system.Huffman.Codes.{Code, generate_canonical_codes}
use simple_file_system.Huffman.Coder.{encode_loop, write_header, compress_with}
use simple_file_system.Huffman.Streams.{Writer, finalize, initialize_writer}
use simple_file_system.Huffman.Reading.{stream_bit}
use simple_file_system.Huffman.Written.{
  Encoded, code_start, encode_loop-Encoded, initialize_writer-IsGiven, finalize-bits,
  finalize-header, finalize-size,
}
use simple_file_system.Huffman.Kraft.{IsPrefixLengths}
use simple_file_system.Huffman.Canonical.{code_of, generate_canonical_codes-numbers}
use simple_file_system.Huffman.Restore.{bit_start, bit_start-next, bit_start_mono}

-- A compressed text: the header, and the codes of its bytes one after another.
pub record IsPacked (lengths source : Bytes) (n : ℕ) (packed : Bytes) : Type 0 where
  pub has_magic : u32_at packed 0 ≡ magic
  pub has_size : u32_at packed 1 ≡ n
  pub has_lengths : (s : ℕ) → s < 256 → packed (8 + s) ≡ lengths s
  pub has_codes :
      (i : ℕ)
      → i < n
      → (j : ℕ) → j < lengths (source i)
      → stream_bit packed header_size (bit_start lengths source i + j)
        ≡ bit_at (code_of lengths (source i)) (lengths (source i) - 1 - j)

-- A text whose bytes all have codes.
pub record IsText (lengths source : Bytes) (n : ℕ) : Type 0 where
  pub is_short : n < 2 ^ 32
  pub are_bytes : (i : ℕ) → i < n → source i < 256
  pub are_coded : (i : ℕ) → i < n → 0 < lengths (source i)

-- The header.
module _ (destination : Bytes) (n : ℕ) (lengths : Bytes) where
  headed-word :
      (i : ℕ)
      → i < 8
      → write_header destination n lengths i
        ≡ set_u32 (set_u32 destination 0 magic) 1 (n % 2 ^ 32) i
  unfolding write_header copy
  headed-word i h = ground arith

  headed-magic : u32_at (write_header destination n lengths) 0 ≡ magic
  headed-magic =
      u32_at-agree _ _ 8 0 headed-word (omega arith)
      ∙ u32_at-set_u32_ne (set_u32 destination 0 magic) 1 0 (n % 2 ^ 32) refl
      ∙ u32_at-set_u32 destination 0 magic (omega arith)

  headed-size : n < 2 ^ 32 → u32_at (write_header destination n lengths) 1 ≡ n
  headed-size h =
      u32_at-agree _ _ 8 1 headed-word (omega arith)
      ∙ u32_at-set_u32 (set_u32 destination 0 magic) 1 (n % 2 ^ 32) (omega arith)
      ∙ omega arith

  headed-length : (s : ℕ) → s < 256 → write_header destination n lengths (8 + s) ≡ lengths s
  unfolding write_header copy
  headed-length s h =
      let q : 0 + (8 + s - 8) ≡ s = omega arith in
      rw (le→leb 8 (8 + s) (omega arith), lt→ltb (8 + s) 264 (omega arith), q)

module _ {lengths source : Bytes} {n : ℕ} (prefix : IsPrefixLengths lengths)
    (text : IsText lengths source n) (destination : Bytes) (capacity : ℕ)
    (room : bit_start lengths source n ≤ 8 * (capacity - header_size)) where
  abbrev codes : ℕ → Code
  codes = generate_canonical_codes lengths

  code_at :
      (i : ℕ)
      → i < n
      → codes (source i) ≡ record { bits = code_of lengths (source i); length = lengths (source i) }
  code_at i h =
      (generate_canonical_codes-numbers prefix (source i) (text.are_bytes i h)
        (text.are_coded i h)).0

  starts : (i : ℕ) → i ≤ n → code_start codes source i ≡ bit_start lengths source i
  starts i h = sum_below-same _ _ i (λ j lt. ap (λ (c : Code). c.length) (code_at j (omega arith)))

  abbrev first_writer : Writer
  first_writer =
      initialize_writer (write_header destination n lengths) header_size (capacity - header_size)

  IsPacked-by :
      (r : Bool × Writer)
      → Encoded codes source first_writer 0 n r
      → ((finalize r.1).byte_position ≡ (bit_start lengths source n + 7) / 8)
        × IsPacked lengths source n (finalize r.1).output_buffer
  IsPacked-by r encoded =
      let enough = starts n (omega arith) in
      let fits : code_start codes source n ≤ 8 * r.1.output_capacity =
        rw (encoded.after.same_capacity, enough) room in
      let header : (i : ℕ)
          → i < 264
          → (finalize r.1).output_buffer i ≡ write_header destination n lengths i =
        λ i lt.
          finalize-header r.1 _ encoded.given fits i (omega (arith, encoded.after.same_start))
          ∙ encoded.after.same_header i lt in
      (
        finalize-size r.1 _ encoded.given fits ∙ ap (λ (k : ℕ). (k + 7) / 8) enough,
        record {
          has_magic =
              u32_at-agree _ _ 264 0 header (omega arith) ∙ headed-magic destination n lengths;
          has_size =
              u32_at-agree _ _ 264 1 header (omega arith)
              ∙ headed-size destination n lengths text.is_short;
          has_lengths =
              λ s lt. header (8 + s) (omega arith) ∙ headed-length destination n lengths s lt;
          has_codes = λ i lt j h.
              let c = code_at i lt in
              let size : (codes (source i)).length ≡ lengths (source i) =
                ap (λ (x : Code). x.length) c in
              let bits : (codes (source i)).bits ≡ code_of lengths (source i) =
                ap (λ (x : Code). x.bits) c in
              let inside : bit_start lengths source i + j < code_start codes source n = omega (
                arith,
                enough,
                bit_start-next lengths source i,
                bit_start_mono lengths source (i + 1) n (omega arith),
              ) in
              let k : ℕ = bit_start lengths source i + j in
              ap (λ (o : ℕ). stream_bit (finalize r.1).output_buffer o k)
                (sym encoded.after.same_start)
              ∙ finalize-bits r.1 _ encoded.given fits k inside
              ∙ rw (starts i (omega arith), size, bits) at
                  (encoded.holds i (omega arith) lt j (rw size h));
        },
      )

  -- Where the lengths satisfy the inequality of Kraft, every byte of the source has a code and the
  -- destination has room for the codes, huffman_compress writes the header and then the codes.
  pub compress_with-IsPacked :
      ((compress_with lengths source n destination capacity).0
        ≡ header_size + (bit_start lengths source n + 7) / 8)
      × IsPacked lengths source n (compress_with lengths source n destination capacity).1
  unfolding compress_with
  compress_with-IsPacked =
      let none : code_start codes source 0 ≡ 0 = unfold sum_below in refl in
      let whole : 0 + n ≡ n = omega arith in
      let enough = starts n (omega arith) in
      let encoded = rw whole at (
        encode_loop-Encoded codes source n 0 first_writer
          (rw none (
            initialize_writer-IsGiven (write_header destination n lengths) header_size
              (capacity - header_size)))
          (rw (whole, enough) room)) in
      let (size, packed) = IsPacked-by (encode_loop codes source n 0 first_writer) encoded in
      rw encoded.goes_on (ap (λ (k : ℕ). header_size + k) size, packed)
