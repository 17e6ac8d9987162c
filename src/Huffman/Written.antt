-- ===== src/Huffman/Written.antt =====
-- What the writer of cli/src/commands/file_compress_commands.c holds after a code and after a text.
use simple_file_system.Base.{
  ℕ, zero, suc, ◌+◌, ◌-◌, ◌*◌, ◌/◌, ◌^◌, ◌<◌, ◌≤◌, ◌≡◌, refl, sym, ap, ◌∙◌, inl, inr, Bool, true,
  false, arith, Bytes, ltb, ◌==◌, Bool-cases, ltb→lt, lt→ltb, ==→eq, ne→==, lt_or_le,
}
use native.Mathlib.Nat.{zero-div}
use simple_file_system.Base.Bits.{bit_at}
use simple_file_system.Base.Sum.{sum_below}
use simple_file_system.Huffman.Codes.{Code}
use simple_file_system.Huffman.Coder.{encode_symbol, encode_loop}
use simple_file_system.Huffman.Streams.{
  Writer, write_bit, put_byte, write_bits_loop, finalize, initialize_writer,
}
use simple_file_system.Huffman.Reading.{stream_bit}
use simple_file_system.Huffman.Writing.{
  written, IsGiven, IsAfter, write_bit-Took, put_byte-header, put_byte-written,
}

-- The writer of the result is `w` after `count` more bits, which are those of `f`.
pub record Wrote (w : Writer) (n count : ℕ) (f : ℕ → ℕ) (result : Bool × Writer) : Type 0 where
  pub goes_on : result.0 ≡ true
  pub given : IsGiven result.1 (n + count)
  pub after : IsAfter w n result.1
  pub bits : (j : ℕ) → j < count → written result.1 (n + j) ≡ f j

IsAfter-refl : (w : Writer) (n : ℕ) → IsAfter w n w
IsAfter-refl w n = record {
  same_start = refl;
  same_capacity = refl;
  same_bits = λ k h. refl;
  same_header = λ i h. refl;
}

IsAfter-trans : (w v u : Writer) (n m : ℕ) → n ≤ m → IsAfter w n v → IsAfter v m u → IsAfter w n u
IsAfter-trans w v u n m h a b = record {
  same_start = b.same_start ∙ a.same_start;
  same_capacity = b.same_capacity ∙ a.same_capacity;
  same_bits = λ k lt. b.same_bits k (omega arith) ∙ a.same_bits k lt;
  same_header = λ i lt. b.same_header i (omega (arith, a.same_start)) ∙ a.same_header i lt;
}

bit_at-lt : (x k : ℕ) → bit_at x k < 2
unfolding bit_at
bit_at-lt x k = omega arith

module _ (bits bit_count : ℕ) where
  -- Bit `j` of the code, the highest first.
  abbrev code_bit : ℕ → ℕ
  code_bit j = bit_at bits (bit_count - 1 - j)

  write_bits_loop-Wrote :
      (rounds index n : ℕ) (w : Writer)
      → IsGiven w n
      → n + rounds ≤ 8 * w.output_capacity
      → Wrote w n rounds (λ j. code_bit (index + j)) (write_bits_loop bits bit_count rounds index w)
  unfolding write_bits_loop
  write_bits_loop-Wrote zero index n w given room =
      let q : n + 0 ≡ n = omega arith in
      record {
        goes_on = refl;
        given = rw q given;
        after = IsAfter-refl w n;
        bits = λ j lt. absurd (omega arith);
      }
  write_bits_loop-Wrote (suc rounds) index n w given room =
      let took = write_bit-Took w n (code_bit index) given (bit_at-lt _ _) (omega arith) in
      let next : Writer = (write_bit w (code_bit index)).1 in
      let rest =
        write_bits_loop-Wrote rounds (index + 1) (n + 1) next took.given
          (omega (arith, took.after.same_capacity)) in
      rw took.goes_on (record {
        goes_on = rest.goes_on;
        given = let q : n + suc rounds ≡ n + 1 + rounds = omega arith in rw q rest.given;
        after = IsAfter-trans w next _ n (n + 1) (omega arith) took.after rest.after;
        bits = λ j lt. elim (lt_or_le 0 j) [
          | inl later ↦
              let q : n + j ≡ n + 1 + (j - 1) = omega arith in
              let r : index + j ≡ index + 1 + (j - 1) = omega arith in
              rw (q, r) (rest.bits (j - 1) (omega arith))
          | inr first ↦
              let z : j ≡ 0 = omega arith in
              let q : n + j ≡ n = omega arith in
              let r : index + j ≡ index = omega arith in
              rw (q, r) (rest.after.same_bits n (omega arith) ∙ took.last)
        ];
      })

-- The place of the code of byte `i` in the stream.
abbrev pub code_start : (ℕ → Code) → Bytes → ℕ → ℕ
code_start codes source i = sum_below (λ j. (codes (source j)).length) i

-- The stream of a writer holds the codes of the bytes from `low` up to `high`.
abbrev pub HoldsCodes : (ℕ → Code) → Bytes → (ℕ → ℕ) → (low high : ℕ) → Type 0
HoldsCodes codes source stream low high =
    (t : ℕ)
    → low ≤ t
    → t < high
    → (j : ℕ) → j < (codes (source t)).length
    → stream (code_start codes source t + j)
      ≡ bit_at (codes (source t)).bits ((codes (source t)).length - 1 - j)

module _ (codes : ℕ → Code) (source : Bytes) where
  code_start-next :
      (i : ℕ)
      → code_start codes source (i + 1) ≡ code_start codes source i + (codes (source i)).length
  unfolding sum_below
  code_start-next i = let q : i + 1 ≡ suc i = omega arith in rw q

  code_start_mono : (i k : ℕ) → i ≤ k → code_start codes source i ≤ code_start codes source k
  code_start_mono i zero h =
      let q : i ≡ 0 = omega arith in omega (arith, ap (code_start codes source) q)
  code_start_mono i (suc k) h = elim (lt_or_le i (suc k)) [
    | inl less ↦
        let r : code_start codes source (suc k)
            ≡ code_start codes source k + (codes (source k)).length =
          unfold sum_below in refl in
        omega (arith, code_start_mono i k (omega arith))
    | inr equal ↦ let q : i ≡ suc k = omega arith in omega (arith, ap (code_start codes source) q)
  ]

  encode_symbol-Wrote :
      (code : Code) (n : ℕ) (w : Writer)
      → IsGiven w n
      → n + code.length ≤ 8 * w.output_capacity
      → Wrote w n code.length (λ j. code_bit code.bits code.length (0 + j)) (encode_symbol w code)
  unfolding encode_symbol
  encode_symbol-Wrote code n w given room = elim (Bool-cases (code.length == 0)) [
    | inl empty ↦
        let q : n + code.length ≡ n = let t = ==→eq _ _ empty in omega arith in
        rw empty (record {
          goes_on = refl;
          given = rw q given;
          after = IsAfter-refl w n;
          bits = λ j lt. absurd (let t = ==→eq _ _ empty in omega arith);
        })
    | inr some_bits ↦
        rw some_bits (write_bits_loop-Wrote code.bits code.length code.length 0 n w given room)
  ]

  pub record Encoded (w : Writer) (low high : ℕ) (result : Bool × Writer) : Type 0 where
    pub goes_on : result.0 ≡ true
    pub given : IsGiven result.1 (code_start codes source high)
    pub after : IsAfter w (code_start codes source low) result.1
    pub holds : HoldsCodes codes source (written result.1) low high

  pub encode_loop-Encoded :
      (rounds i : ℕ) (w : Writer)
      → IsGiven w (code_start codes source i)
      → code_start codes source (i + rounds) ≤ 8 * w.output_capacity
      → Encoded w i (i + rounds) (encode_loop codes source rounds i w)
  unfolding encode_loop
  encode_loop-Encoded zero i w given room =
      let q : i + 0 ≡ i = omega arith in
      rw q (record {
        goes_on = refl;
        given = given;
        after = IsAfter-refl w _;
        holds = λ t a b. absurd (omega arith);
      })
  encode_loop-Encoded (suc rounds) i w given room =
      let wide : i + suc rounds ≡ i + 1 + rounds = omega arith in
      let grown = code_start_mono (i + 1) (i + 1 + rounds) (omega arith) in
      let wide_room : code_start codes source (i + 1 + rounds) ≤ 8 * w.output_capacity =
        rw wide at room in
      let code : Code = codes (source i) in
      let next : Writer = (encode_symbol w code).1 in
      let here =
        encode_symbol-Wrote code (code_start codes source i) w given
          (omega (arith, code_start-next i)) in
      let given_next : IsGiven next (code_start codes source (i + 1)) =
        rw (code_start-next i) here.given in
      let rest =
        encode_loop-Encoded rounds (i + 1) next given_next
          (omega (arith, here.after.same_capacity)) in
      rw (here.goes_on, wide)
        (record {
          goes_on = rest.goes_on;
          given = rest.given;
          after =
              IsAfter-trans w next _ _ _ (omega (arith, code_start-next i)) here.after rest.after;
          holds = λ t a b j lt. elim (lt_or_le (i + 1) (t + 1)) [
            | inl later ↦ rest.holds t (omega arith) b j lt
            | inr first ↦
                let q : t ≡ i = omega arith in
                let lt_i : j < code.length = rw q at lt in
                let z : 0 + j ≡ j = omega arith in
                rw q (
                  rest.after.same_bits (code_start codes source i + j)
                    (omega (arith, code_start-next i))
                  ∙ here.bits j lt_i
                  ∙ ap (code_bit code.bits code.length) z)
          ];
        })

-- A writer with no bits in it.
pub initialize_writer-IsGiven :
    (buffer : Bytes) (start capacity : ℕ) → IsGiven (initialize_writer buffer start capacity) 0
unfolding bit_at
initialize_writer-IsGiven buffer start capacity = record {
  position = omega arith;
  few = omega arith;
  is_byte = omega arith;
  clear = λ j lt. omega (arith, zero-div (2 ^ j));
}

-- The output after bit_writer_finalize holds every bit that the writer was given.
module _ (w : Writer) (n : ℕ) (given : IsGiven w n) (room : n ≤ 8 * w.output_capacity) where
  flushed_bit :
      (v : Writer) (k : ℕ)
      → k < 8 * v.byte_position
      → written v k ≡ stream_bit v.output_buffer v.output_start k
  unfolding written
  flushed_bit v k h =
      let away : (k / 8 == v.byte_position) ≡ false = ne→== _ _ (λ e. omega arith) in rw away

  pub finalize-bits :
      (k : ℕ) → k < n → stream_bit (finalize w).output_buffer w.output_start k ≡ written w k
  unfolding finalize
  finalize-bits k h = elim (Bool-cases (ltb 0 w.bits_in_buffer)) [
    | inl pending ↦
        let q : ltb w.byte_position w.output_capacity ≡ true =
          lt→ltb _ _ (let t = ltb→lt _ _ pending in omega (arith, given.position)) in
        rw (pending, q)
          (sym (flushed_bit (put_byte w) k (omega (arith, given.position, given.few)))
            ∙ put_byte-written w k (omega (arith, given.position, given.few)))
    | inr none_left ↦ rw none_left (
        sym (
          flushed_bit w k
            (let t : w.bits_in_buffer ≡ 0 = ground arith in omega (arith, given.position))))
  ]

  pub finalize-header :
      (i : ℕ) → i < w.output_start → (finalize w).output_buffer i ≡ w.output_buffer i
  unfolding finalize
  finalize-header i h = elim (Bool-cases (ltb 0 w.bits_in_buffer)) [
    | inl pending ↦
        let q : ltb w.byte_position w.output_capacity ≡ true =
          lt→ltb _ _ (let t = ltb→lt _ _ pending in omega (arith, given.position)) in
        rw (pending, q) (put_byte-header w i h)
    | inr none_left ↦ rw none_left
  ]

  -- The bytes that are written are as many as the bits need.
  pub finalize-size : (finalize w).byte_position ≡ (n + 7) / 8
  unfolding finalize
  finalize-size = elim (Bool-cases (ltb 0 w.bits_in_buffer)) [
    | inl pending ↦
        let pos = ltb→lt _ _ pending in
        let q : ltb w.byte_position w.output_capacity ≡ true =
          lt→ltb _ _ (omega (arith, given.position)) in
        rw (pending, q) (omega (arith, given.position, given.few, pos))
    | inr none_left ↦
        rw none_left (let t : w.bits_in_buffer ≡ 0 = ground arith in omega (arith, given.position))
  ]
