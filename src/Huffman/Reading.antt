-- ===== src/Huffman/Reading.antt =====
-- The reader of bits of cli/src/commands/file_compress_commands.c.
use simple_file_system.Base.{
  ℕ, zero, suc, ◌+◌, ◌-◌, ◌*◌, ◌/◌, ◌%◌, ◌<◌, ◌≤◌, ◌≡◌, refl, ap, ◌∙◌, inl, inr, false, some, arith,
  Bytes, leb, ◌==◌, Bool-cases, lt→leb, ==→eq,
}
use simple_file_system.Base.Bits.{bit_at}
use simple_file_system.Huffman.Streams.{Reader, read_bit, take_bit, take_byte, initialize_reader}

-- Bit `k` of the stream that begins at byte `start`, the highest bit of a byte first.
unfoldable pub stream_bit : Bytes → ℕ → ℕ → ℕ
stream_bit b start k = bit_at (b (start + k / 8)) (7 - k % 8)

-- The reader has `k` bits of the stream behind it.
pub record IsAt (buffer : Bytes) (start size : ℕ) (reader : Reader) (k : ℕ) : Type 0 where
  pub same_buffer : reader.input_buffer ≡ buffer
  pub same_start : reader.input_start ≡ start
  pub same_length : reader.input_length ≡ size
  pub position : 8 * reader.byte_position ≡ k + reader.bits_in_buffer
  pub few : reader.bits_in_buffer ≤ 8
  pub ahead :
      (j : ℕ)
      → j < reader.bits_in_buffer
      → bit_at reader.bit_buffer (7 - j) ≡ stream_bit buffer start (k + j)

shifted_bit : (x j : ℕ) → j < 7 → bit_at (x * 2 % 256) (7 - j) ≡ bit_at x (7 - (j + 1))
unfolding bit_at
shifted_bit x zero h = omega arith
shifted_bit x (suc zero) h = omega arith
shifted_bit x (suc (suc zero)) h = omega arith
shifted_bit x (suc (suc (suc zero))) h = omega arith
shifted_bit x (suc (suc (suc (suc zero)))) h = omega arith
shifted_bit x (suc (suc (suc (suc (suc zero))))) h = omega arith
shifted_bit x (suc (suc (suc (suc (suc (suc zero)))))) h = omega arith
shifted_bit x (suc (suc (suc (suc (suc (suc (suc j))))))) h = absurd (omega arith)

module _ {buffer : Bytes} {start size k : ℕ} where
  -- Taking a bit from a bit buffer that has some.
  take_bit-IsAt :
      (reader : Reader)
      → IsAt buffer start size reader k
      → 0 < reader.bits_in_buffer
      → ((take_bit reader).0 ≡ some (stream_bit buffer start k))
        × IsAt buffer start size (take_bit reader).1 (k + 1)
  take_bit-IsAt reader at h =
      let q : k + 0 ≡ k = omega arith in
      (
        ap some (at.ahead 0 h ∙ ap (stream_bit buffer start) q),
        record {
          same_buffer = at.same_buffer;
          same_start = at.same_start;
          same_length = at.same_length;
          position = omega (arith, at.position);
          few = omega (arith, at.few);
          ahead = λ j lt.
              let r : k + (j + 1) ≡ k + 1 + j = omega arith in
              shifted_bit reader.bit_buffer j (omega (arith, at.few))
              ∙ at.ahead (j + 1) (omega arith)
              ∙ ap (stream_bit buffer start) r;
        },
      )

  take_byte-IsAt :
      (reader : Reader)
      → IsAt buffer start size reader k
      → reader.bits_in_buffer ≡ 0
      → IsAt buffer start size (take_byte reader) k
  unfolding stream_bit
  take_byte-IsAt reader at e = record {
    same_buffer = at.same_buffer;
    same_start = at.same_start;
    same_length = at.same_length;
    position = omega (arith, at.position);
    few = omega arith;
    ahead = λ j lt.
        let p : (k + j) / 8 ≡ reader.byte_position = omega (arith, at.position) in
        let r : (k + j) % 8 ≡ j = omega (arith, at.position) in
        rw (p, r, at.same_buffer, at.same_start);
  }

  -- A reader with bits left gives the next one and goes on by one.
  pub read_bit-IsAt :
      (reader : Reader)
      → IsAt buffer start size reader k
      → k < 8 * size
      → ((read_bit reader).0 ≡ some (stream_bit buffer start k))
        × IsAt buffer start size (read_bit reader).1 (k + 1)
  unfolding read_bit
  read_bit-IsAt reader at h = elim (Bool-cases (reader.bits_in_buffer == 0)) [
    | inl empty ↦
        let e : reader.bits_in_buffer ≡ 0 = ==→eq _ _ empty in
        let f : leb reader.input_length reader.byte_position ≡ false =
          lt→leb _ _ (omega (arith, at.position, at.same_length)) in
        rw (empty, f) (take_bit-IsAt (take_byte reader) (take_byte-IsAt reader at e) (omega arith))
    | inr some_left ↦ rw some_left (take_bit-IsAt reader at (ground arith))
  ]

pub initialize_reader-IsAt :
    (buffer : Bytes) (start size : ℕ)
    → IsAt buffer start size (initialize_reader buffer start size) 0
initialize_reader-IsAt buffer start size = record {
  same_buffer = refl;
  same_start = refl;
  same_length = refl;
  position = omega arith;
  few = omega arith;
  ahead = λ j lt. absurd (omega arith);
}
