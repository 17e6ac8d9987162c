-- ===== src/Huffman/Streams.antt =====
-- cli/src/commands/file_compress_commands.c: the streams of bits, bit_writer_t and bit_reader_t. A
-- pointer into a buffer is the buffer and the place of its first byte.
use simple_file_system.Base.{
  ℕ, zero, suc, ◌+◌, ◌-◌, ◌*◌, ◌%◌, ◌^◌, Bool, true, false, Option, none, some, Bytes, store, ltb,
  leb, ◌==◌, if◌then◌else◌,
}
use simple_file_system.Base.{bit_or}
use simple_file_system.Base.Bits.{bit_at}

-- bit_writer_t
pub record Writer : Type 0 where
  pub output_buffer : Bytes
  pub output_start : ℕ
  pub output_capacity : ℕ
  pub byte_position : ℕ
  pub bit_buffer : ℕ
  pub bits_in_buffer : ℕ

-- bit_writer_initialize
abbrev pub initialize_writer : Bytes → (output_start output_capacity : ℕ) → Writer
initialize_writer buffer start capacity = record {
  output_buffer = buffer;
  output_start = start;
  output_capacity = capacity;
  byte_position = 0;
  bit_buffer = 0;
  bits_in_buffer = 0;
}

-- The bit buffer's byte goes to the output, as both bit_writer_write_bits and bit_writer_finalize do.
abbrev pub put_byte : Writer → Writer
put_byte writer = record writer {
  output_buffer =
      store writer.output_buffer (writer.output_start + writer.byte_position) writer.bit_buffer;
  byte_position = writer.byte_position + 1;
  bit_buffer = 0;
  bits_in_buffer = 0;
}

-- The bit that a round of bit_writer_write_bits adds to the bit buffer.
abbrev pub put_bit : Writer → ℕ → Writer
put_bit writer bit = record writer {
  bit_buffer = bit_or writer.bit_buffer (bit * 2 ^ (7 - writer.bits_in_buffer)) % 256;
  bits_in_buffer = writer.bits_in_buffer + 1;
}

-- A round of bit_writer_write_bits, and whether the loop goes on.
unfoldable pub write_bit : Writer → ℕ → Bool × Writer
write_bit writer bit =
    let full = put_bit writer bit in
    if full.bits_in_buffer == 8
    then (if leb full.output_capacity full.byte_position
        then (false, full)
        else (true, put_byte full))
    else (true, full)

-- The loop of bit_writer_write_bits.
unfoldable pub write_bits_loop : (bits bit_count rounds bit_index : ℕ) → Writer → Bool × Writer
write_bits_loop bits bit_count zero bit_index writer = (true, writer)
write_bits_loop bits bit_count (suc rounds) bit_index writer =
    let (goes_on, next) = write_bit writer (bit_at bits (bit_count - 1 - bit_index)) in
    let rest = write_bits_loop bits bit_count rounds (bit_index + 1) next in
    if goes_on then rest else (false, next)

-- bit_writer_write_bits
abbrev pub write_bits : Writer → (bits bit_count : ℕ) → Bool × Writer
write_bits writer bits bit_count = write_bits_loop bits bit_count bit_count 0 writer

-- bit_writer_finalize; its result is the byte position of the writer that it leaves.
unfoldable pub finalize : Writer → Writer
finalize writer =
    if ltb 0 writer.bits_in_buffer
    then (if ltb writer.byte_position writer.output_capacity
        then put_byte writer
        else record writer { bit_buffer = 0; bits_in_buffer = 0 })
    else writer

-- bit_reader_t
pub record Reader : Type 0 where
  pub input_buffer : Bytes
  pub input_start : ℕ
  pub input_length : ℕ
  pub byte_position : ℕ
  pub bit_buffer : ℕ
  pub bits_in_buffer : ℕ

-- bit_reader_initialize
abbrev pub initialize_reader : Bytes → (input_start input_length : ℕ) → Reader
initialize_reader buffer start size = record {
  input_buffer = buffer;
  input_start = start;
  input_length = size;
  byte_position = 0;
  bit_buffer = 0;
  bits_in_buffer = 0;
}

-- The next byte of the input.
abbrev pub take_byte : Reader → Reader
take_byte reader = record reader {
  byte_position = reader.byte_position + 1;
  bit_buffer = reader.input_buffer (reader.input_start + reader.byte_position);
  bits_in_buffer = 8;
}

-- The highest bit of the bit buffer, and the reader after it.
abbrev pub take_bit : Reader → Option ℕ × Reader
take_bit reader = (
  some (bit_at reader.bit_buffer 7),
  record reader {
    bit_buffer = reader.bit_buffer * 2 % 256;
    bits_in_buffer = reader.bits_in_buffer - 1;
  },
)

-- bit_reader_read_bit; `none` is -1.
unfoldable pub read_bit : Reader → Option ℕ × Reader
read_bit reader =
    if reader.bits_in_buffer == 0
    then (if leb reader.input_length reader.byte_position
        then (none, reader)
        else take_bit (take_byte reader))
    else take_bit reader
