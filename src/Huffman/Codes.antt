-- ===== src/Huffman/Codes.antt =====
-- cli/src/commands/file_compress_commands.c: the canonical codes of huffman_generate_canonical_codes,
-- and the table of huffman_build_decode_table. A row of counts by length is a function of the length.
use simple_file_system.Base.{
  ℕ, zero, suc, ◌+◌, ◌-◌, ◌*◌, ◌%◌, ◌^◌, Bool, ◌&&◌, Bytes, zeros, store, ltb, leb, ◌==◌,
  if◌then◌else◌,
}
use simple_file_system.Huffman.{symbol_count, max_code_length}

-- `length > 0U && length <= HUFFMAN_MAX_CODE_LENGTH`
abbrev pub is_coded : ℕ → Bool
is_coded length = ltb 0 length && leb length max_code_length

-- The loop that counts the symbols of each length.
unfoldable pub count_lengths : Bytes → (rounds symbol : ℕ) → Bytes → Bytes
count_lengths lengths zero symbol counts = counts
count_lengths lengths (suc rounds) symbol counts =
    let length = lengths symbol in
    count_lengths lengths rounds (symbol + 1)
      (if is_coded length then store counts length ((counts length + 1) % 2 ^ 32) else counts)

-- `length_count`
abbrev pub length_counts : Bytes → Bytes
length_counts lengths = count_lengths lengths symbol_count 0 zeros

-- The loop of huffman_generate_canonical_codes over the lengths, which keeps `code` and `next_code`.
unfoldable pub next_code_loop : Bytes → (rounds length code : ℕ) → Bytes → Bytes
next_code_loop counts zero length code next_code = next_code
next_code_loop counts (suc rounds) length code next_code =
    let shifted = (code + counts (length - 1)) * 2 % 2 ^ 32 in
    next_code_loop counts rounds (length + 1) shifted (store next_code length shifted)

-- huffman_code_t
pub record Code : Type 0 where
  pub bits : ℕ
  pub length : ℕ

-- The loop of huffman_generate_canonical_codes over the symbols; its result is `code_table`, which
-- the loop writes for every symbol.
unfoldable pub assign_loop : Bytes → (rounds symbol : ℕ) → Bytes → (ℕ → Code) → ℕ → Code
assign_loop lengths zero symbol next_code codes = codes
assign_loop lengths (suc rounds) symbol next_code codes =
    let length = lengths symbol in
    let code = next_code length in
    assign_loop lengths rounds (symbol + 1)
      (if ltb 0 length then store next_code length ((code + 1) % 2 ^ 32) else next_code)
      (λ i.
        if i == symbol
        then (if ltb 0 length
            then record { bits = code; length = length }
            else record { bits = 0; length = 0 })
        else codes i)

-- A table of codes before it is written.
abbrev pub no_codes : ℕ → Code
no_codes i = record { bits = 0; length = 0 }

-- huffman_generate_canonical_codes
unfoldable pub generate_canonical_codes : Bytes → ℕ → Code
generate_canonical_codes lengths =
    let next_code = next_code_loop (length_counts lengths) max_code_length 1 0 zeros in
    assign_loop lengths symbol_count 0 next_code no_codes

-- huffman_decode_table_t
pub record DecodeTable : Type 0 where
  pub first_code : Bytes
  pub code_count : Bytes
  pub sorted_symbols : Bytes
  pub max_length : ℕ

-- The longest length, which the first loop of huffman_build_decode_table keeps.
unfoldable pub longest : Bytes → (rounds symbol longest_so_far : ℕ) → ℕ
longest lengths zero symbol longest_so_far = longest_so_far
longest lengths (suc rounds) symbol longest_so_far =
    let length = lengths symbol in
    longest lengths rounds (symbol + 1)
      (if is_coded length && ltb longest_so_far length then length else longest_so_far)

-- The loop over the lengths that writes `code_count`.
unfoldable pub copy_counts : Bytes → (rounds length : ℕ) → Bytes → Bytes
copy_counts counts zero length code_count = code_count
copy_counts counts (suc rounds) length code_count =
    copy_counts counts rounds (length + 1) (store code_count length (counts length))

-- The loop over the lengths that writes `first_code`.
unfoldable pub first_code_loop : Bytes → (rounds length code : ℕ) → Bytes → Bytes
first_code_loop counts zero length code first_code = first_code
first_code_loop counts (suc rounds) length code first_code =
    first_code_loop counts rounds (length + 1) ((code + counts length) * 2 % 2 ^ 32)
      (store first_code length code)

-- The loop over the lengths that writes `symbol_offset`.
unfoldable pub offset_loop : Bytes → (rounds length running_offset : ℕ) → Bytes → Bytes
offset_loop counts zero length running_offset offsets = offsets
offset_loop counts (suc rounds) length running_offset offsets =
    offset_loop counts rounds (length + 1) ((running_offset + counts length) % 2 ^ 32)
      (store offsets length running_offset)

-- The loop over the symbols that writes `sorted_symbols`.
unfoldable pub sort_loop : Bytes → (rounds symbol : ℕ) → (offsets sorted : Bytes) → Bytes
sort_loop lengths zero symbol offsets sorted = sorted
sort_loop lengths (suc rounds) symbol offsets sorted =
    let length = lengths symbol in
    let position = offsets length in
    sort_loop lengths rounds (symbol + 1)
      (if is_coded length then store offsets length ((position + 1) % 2 ^ 32) else offsets)
      (if is_coded length then store sorted position (symbol % 256) else sorted)

-- huffman_build_decode_table
unfoldable pub build_decode_table : Bytes → DecodeTable
build_decode_table lengths =
    let counts = length_counts lengths in
    record {
      first_code = first_code_loop counts max_code_length 1 0 zeros;
      code_count = copy_counts counts max_code_length 1 zeros;
      sorted_symbols =
          sort_loop lengths symbol_count 0 (offset_loop counts max_code_length 1 0 zeros) zeros;
      max_length = longest lengths symbol_count 0 0;
    }
