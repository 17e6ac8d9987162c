-- ===== src/Huffman/Coder.antt =====
-- cli/src/commands/file_compress_commands.c: huffman_decode_symbol, huffman_compress and
-- huffman_decompress. A routine that fails returns the size 0 with the buffer as it is then.
use simple_file_system.Base.{
  ℕ, zero, suc, ◌+◌, ◌-◌, ◌*◌, ◌%◌, ◌^◌, Bool, true, false, not, Option, none, some, Bytes, zeros,
  copy, store, u32_at, set_u32, ltb, ◌==◌, if◌then◌else◌,
}
use mathlib.Core.Option
use simple_file_system.Base.{bit_or}
use simple_file_system.Huffman.{
  magic, symbol_count, header_size, zeroed_nodes, count_frequencies, build_tree,
  compute_code_lengths,
}
use simple_file_system.Huffman.Codes.{
  Code, DecodeTable, generate_canonical_codes, build_decode_table,
}
use simple_file_system.Huffman.Streams.{
  Writer, Reader, initialize_writer, write_bits, finalize, initialize_reader, read_bit,
}

-- The loop of huffman_decode_symbol over the shorter lengths.
unfoldable pub base_loop : DecodeTable → (rounds previous_length base_index : ℕ) → ℕ
base_loop table zero previous_length base_index = base_index
base_loop table (suc rounds) previous_length base_index =
    base_loop table rounds (previous_length + 1)
      ((base_index + table.code_count previous_length) % 2 ^ 32)

-- `current_code - first_code[length]` as a `uint32_t`
abbrev pub offset_of : DecodeTable → (length current_code : ℕ) → ℕ
offset_of table length current_code = (current_code + 2 ^ 32 - table.first_code length) % 2 ^ 32

-- `(current_code << 1U) | (uint32_t)bit`
abbrev pub append_bit : (current_code bit : ℕ) → ℕ
append_bit current_code bit = bit_or (current_code * 2 % 2 ^ 32) bit

-- A round of huffman_decode_symbol after it has read a bit: the symbol, or the rest of the loop.
unfoldable pub decode_bit :
    DecodeTable
    → (length current_code : ℕ) → (rest : ℕ → Option ℕ × Reader) → Option ℕ
    → Reader
    → Option ℕ × Reader
decode_bit table length current_code rest none reader = (none, reader)
decode_bit table length current_code rest (some bit) reader =
    let code = append_bit current_code bit in
    let offset = offset_of table length code in
    if ltb offset (table.code_count length)
    then (
      some (table.sorted_symbols ((base_loop table (length - 1) 1 0 + offset) % 2 ^ 32)),
      reader,
    )
    else rest code

-- The loop of huffman_decode_symbol; `none` is -1.
unfoldable pub decode_loop :
    DecodeTable → (rounds length current_code : ℕ) → Reader → Option ℕ × Reader
decode_loop table zero length current_code reader = (none, reader)
decode_loop table (suc rounds) length current_code reader =
    let (bit, next) = read_bit reader in
    decode_bit table length current_code (λ code. decode_loop table rounds (length + 1) code next)
      bit next

-- huffman_decode_symbol
abbrev pub decode_symbol : Reader → DecodeTable → Option ℕ × Reader
decode_symbol reader table = decode_loop table table.max_length 1 0 reader

-- A round of huffman_compress: it passes over a symbol without a code.
unfoldable pub encode_symbol : Writer → Code → Bool × Writer
encode_symbol writer code =
    if code.length == 0 then (true, writer) else write_bits writer code.bits code.length

-- The loop of huffman_compress over the source's bytes.
unfoldable pub encode_loop : (ℕ → Code) → Bytes → (rounds byte_index : ℕ) → Writer → Bool × Writer
encode_loop codes source zero byte_index writer = (true, writer)
encode_loop codes source (suc rounds) byte_index writer =
    let (goes_on, next) = encode_symbol writer (codes (source byte_index)) in
    let rest = encode_loop codes source rounds (byte_index + 1) next in
    if goes_on then rest else (false, next)

-- The header of huffman_compress: the magic number, the size and the table of code lengths.
unfoldable pub write_header : Bytes → ℕ → Bytes → Bytes
write_header destination source_length lengths =
    copy (set_u32 (set_u32 destination 0 magic) 1 (source_length % 2 ^ 32)) 8 lengths 0 symbol_count

-- What huffman_compress does once the table of lengths is there.
unfoldable pub compress_with : Bytes → Bytes → ℕ → Bytes → ℕ → ℕ × Bytes
compress_with lengths source source_length destination capacity =
    let headed = write_header destination source_length lengths in
    let (goes_on, writer) =
      encode_loop (generate_canonical_codes lengths) source source_length 0
        (initialize_writer headed header_size (capacity - header_size)) in
    let last = finalize writer in
    if goes_on
    then (header_size + last.byte_position, last.output_buffer)
    else (0, writer.output_buffer)

-- The tables of lengths that huffman_compress makes; the flag is that of the call of `calloc` in
-- huffman_build_tree, and `none` is a loop that has run out of fuel.
unfoldable pub source_lengths : Bool → Bytes → ℕ → Option Bytes
source_lengths has_marks source source_length =
    Option.map (λ t. compute_code_lengths (t.0) (t.1))
      (build_tree has_marks (count_frequencies source source_length) zeroed_nodes
        (symbol_count * 2))

-- huffman_compress; the first flag is that of its own call of `calloc`.
unfoldable pub huffman_compress :
    (has_nodes has_marks : Bool) → Bytes → ℕ → Bytes → ℕ → Option (ℕ × Bytes)
huffman_compress has_nodes has_marks source source_length destination capacity =
    if ltb capacity header_size
    then some (0, destination)
    else if not has_nodes
    then some (0, destination)
    else Option.map (λ lengths. compress_with lengths source source_length destination capacity)
        (source_lengths has_marks source source_length)

-- What the loop of huffman_decompress does with a symbol: it stores it and goes on, or it fails.
unfoldable pub put_symbol :
    Bytes → (byte_index : ℕ) → (rest : Bytes → Bool × Bytes) → Option ℕ → Bool × Bytes
put_symbol destination byte_index rest none = (false, destination)
put_symbol destination byte_index rest (some symbol) =
    rest (store destination byte_index (symbol % 256))

-- The loop of huffman_decompress, and whether every symbol was found.
unfoldable pub restore_loop : DecodeTable → (rounds byte_index : ℕ) → Reader → Bytes → Bool × Bytes
restore_loop table zero byte_index reader destination = (true, destination)
restore_loop table (suc rounds) byte_index reader destination =
    let (symbol, next) = decode_symbol reader table in
    put_symbol destination byte_index (restore_loop table rounds (byte_index + 1) next) symbol

-- huffman_decompress
unfoldable pub huffman_decompress : Bytes → ℕ → Bytes → ℕ → ℕ × Bytes
huffman_decompress source source_length destination capacity =
    let original_size = u32_at source 1 in
    let table = build_decode_table (copy zeros 0 source 8 symbol_count) in
    let reader = initialize_reader source header_size (source_length - header_size) in
    let (complete, restored) = restore_loop table original_size 0 reader destination in
    if ltb source_length header_size
    then (0, destination)
    else if not (u32_at source 0 == magic)
    then (0, destination)
    else if ltb capacity original_size
    then (0, destination)
    else if original_size == 0
    then (0, destination)
    else if table.max_length == 0
    then (0, destination)
    else if complete
    then (original_size, restored)
    else (0, restored)
